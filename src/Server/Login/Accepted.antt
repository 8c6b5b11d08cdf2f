-- ===== src/Server/Login/Accepted.antt =====
-- server.go: who is let in, who is not, and what a refused login leaves behind.
use sftp2s.Prelude.{
  ℕ, false, Bytes, List, [], ◌∷◌, some, ◌≡◌, refl, sym, ap, ◌∙◌, subst, In, All, arith,
}
use sftp2s.Result.{ok, err, message, >>=-eq-ok, ok-injective}
use sftp2s.Config.{UserConfig}
use sftp2s.Auth.{Crypto, has_any_password}
use sftp2s.Server.Users.{find_user}
use sftp2s.Server.Login.{
  Login, Credential, password, public_key, SshConfig, any_password, password_callback,
  public_key_callback, load_user_keys, new_ssh_server_config, authenticate,
}
use sftp2s.Server.Login.Answers.{
  callback_answer, Listed, any_password-Fits, listed-find_user, key_listed,
}

module _ (crypto : Crypto) where
  open crypto use {PublicKey}

  -- The configuration that NewSSHServerConfig makes of the users.
  pub record Made (users : List UserConfig) (cfg : SshConfig crypto) : Type 0 where
    pub users_kept : cfg.users ≡ users
    pub keys : load_user_keys crypto users [] ≡ ok cfg.user_keys
    pub password_set : cfg.password_callback_set ≡ has_any_password users

  new_ssh_server_config-Made :
      (users : List UserConfig) (cfg : SshConfig crypto)
      → new_ssh_server_config crypto users ≡ ok cfg
      → Made users cfg
  unfolding new_ssh_server_config
  new_ssh_server_config-Made users cfg h =
      let (user_keys, loaded, made) = >>=-eq-ok (load_user_keys crypto users []) _ h in
      let e = sym (ok-injective made) in
      record {
        users_kept = ap (λ c. c.users) e;
        keys = loaded ∙ ap (λ c. ok c.user_keys) (sym e);
        password_set = ap (λ c. c.password_callback_set) e;
      }

  -- Whoever logs in, with a password or a key, has an entry in the configuration: the server never
  -- falls back to the settings of an unknown user, which are all permissions and every backend.
  pub authenticate_known :
      (users : List UserConfig) (cfg : SshConfig crypto) (user remote : Bytes)
      (credential : Credential crypto) (now : ℕ) (l : Login)
      → new_ssh_server_config crypto users ≡ ok cfg
      → (authenticate crypto cfg user remote credential now l).0 ≡ ok tt
      → (u : UserConfig) × (find_user user users ≡ some u)
  unfolding authenticate password_callback public_key_callback Listed
  authenticate_known users cfg user remote (password pass) now l made h =
      let m = new_ssh_server_config-Made users cfg made in
      let answer =
        callback_answer (any_password crypto cfg.users user pass) "invalid credentials" remote now
          l in
      let (u, i, f) =
        any_password-Fits crypto cfg.users user pass (answer.0 (ground (arith, h))).1 in
      listed-find_user crypto users user (u, subst (In u) m.users_kept i, f.name)
  authenticate_known users cfg user remote (public_key key) now l made h =
      let m = new_ssh_server_config-Made users cfg made in
      let answer = callback_answer _ "public key not authorized" remote now l in
      listed-find_user crypto users user
        (key_listed crypto users cfg.user_keys user key m.keys (answer.0 (ground (arith, h))).1)

  no_password :
      (users : List UserConfig) → All (λ u. u.password ≡ []) users → has_any_password users ≡ false
  unfolding has_any_password
  no_password [] h = refl
  no_password (u ∷ users) h = ground (arith, h.0, no_password users h.1)

  -- If no user has a plaintext password, no password is accepted, also not one that fits the password
  -- hash of its user, and the attempt leaves no trace.
  pub hash_refused :
      (users : List UserConfig) (cfg : SshConfig crypto) (user remote pass : Bytes) (now : ℕ)
      (l : Login)
      → new_ssh_server_config crypto users ≡ ok cfg
      → All (λ u. u.password ≡ []) users
      → authenticate crypto cfg user remote (password pass) now l
        ≡ (err (message "no such method"), l)
  unfolding authenticate
  hash_refused users cfg user remote pass now l made h =
      let m = new_ssh_server_config-Made users cfg made in
      ground (arith, m.password_set, no_password users h)
