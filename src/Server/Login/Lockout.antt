-- ===== src/Server/Login/Lockout.antt =====
-- server.go: an address that is blocked stays out until its block ends, whoever else tries to log in
-- meanwhile.
use sftp2s.Prelude.{
  ℕ, ◌+◌, ◌<◌, true, Bytes, lookup, List, [], ◌∷◌, some, ◌≡◌, ◌≢◌, inl, inr, sym, subst, All,
  Bool-cases, arith,
}
use sftp2s.Result.{Result, ok}
use sftp2s.Auth.{Crypto}
use sftp2s.Failures.{FailureTracker, record_failure}
use sftp2s.Server.Login.{
  Login, Credential, password, public_key, SshConfig, note_failure, any_password, any_key, keys_of,
  password_callback, public_key_callback, authenticate,
}
use sftp2s.Server.Login.Blocking.{
  Blocked, callback-Blocked, callback_self, note_failure-Blocked_now,
}

-- Attempts to log in, of any users from any addresses.
pub record Attempt (crypto : Crypto) : Type 0 where
  pub user : Bytes
  pub remote : Bytes
  pub credential : Credential crypto
  pub time : ℕ

module _ (crypto : Crypto) (cfg : SshConfig crypto) where
  abbrev pub answer : Attempt crypto → Login → Result (Unit {0}) × Login
  answer a l = authenticate crypto cfg a.user a.remote a.credential a.time l

  unfoldable pub attempts : List (Attempt crypto) → Login → Login
  attempts [] l = l
  attempts (a ∷ rest) l = attempts rest (answer a l).1

  answer-Blocked :
      (remote : Bytes) (until : ℕ) (a : Attempt crypto) (l : Login)
      → Blocked remote until l
      → a.time < until
      → Blocked remote until (answer a l).1
  unfolding authenticate password_callback public_key_callback
  answer-Blocked remote until a l h before = go a.credential
    where
      go :
          (c : Credential crypto)
          → Blocked remote until (authenticate crypto cfg a.user a.remote c a.time l).1
      go (password pass) = elim (Bool-cases cfg.password_callback_set) [
        | inl set ↦ rw set (callback-Blocked _ _ remote a.remote until a.time l h before)
        | inr unset ↦ rw unset h
      ]
      go (public_key key) = elim (Bool-cases cfg.public_key_callback_set) [
        | inl set ↦ rw set (callback-Blocked _ _ remote a.remote until a.time l h before)
        | inr unset ↦ rw unset h
      ]

  attempts-Blocked :
      (remote : Bytes) (until : ℕ) (rest : List (Attempt crypto)) (l : Login)
      → Blocked remote until l
      → All (λ a. a.time < until) rest
      → Blocked remote until (attempts rest l)
  unfolding attempts
  attempts-Blocked remote until [] l h before = h
  attempts-Blocked remote until (a ∷ rest) l h before =
      attempts-Blocked remote until rest (answer a l).1 (answer-Blocked remote until a l h before.0)
        before.1

  refused :
      (remote : Bytes) (until : ℕ) (a : Attempt crypto) (l : Login)
      → Blocked remote until l
      → a.time < until
      → a.remote ≡ remote
      → (answer a l).0 ≢ ok tt
  unfolding authenticate password_callback public_key_callback
  refused remote until a l h before same = go a.credential
    where
      at_remote : Blocked a.remote until l
      at_remote = subst (λ r. Blocked r until l) (sym same) h

      go : (c : Credential crypto) → (authenticate crypto cfg a.user a.remote c a.time l).0 ≢ ok tt
      go (password pass) = λ e. absurd (
          ground (
            arith,
            e,
            callback_self (any_password crypto cfg.users a.user pass) "invalid credentials" a.remote
                until a.time l at_remote before,
          ))
      go (public_key key) = λ e. absurd (
          ground (
            arith,
            e,
            callback_self (any_key crypto (keys_of crypto (lookup a.user cfg.user_keys)) key)
                "public key not authorized" a.remote until a.time l at_remote before,
          ))

  -- Once a failed login has reached the threshold, no login from its address is accepted before the
  -- block duration is over, whatever credential it shows and whoever tries to log in meanwhile.
  pub locked_out :
      (remote : Bytes) (now : ℕ) (l : Login) (t : FailureTracker) (rest : List (Attempt crypto))
      (a : Attempt crypto)
      → l.tracker ≡ some t
      → (record_failure remote now t).1 ≡ true
      → All (λ b. b.time < now + t.block_duration) rest
      → a.time < now + t.block_duration
      → a.remote ≡ remote
      → (answer a (attempts rest (note_failure remote now l))).0 ≢ ok tt
  locked_out remote now l t rest a e crossed before later same =
      refused remote (now + t.block_duration) a _
        (attempts-Blocked remote (now + t.block_duration) rest _
          (note_failure-Blocked_now remote now l t e crossed) before)
        later same
