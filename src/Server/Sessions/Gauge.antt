-- ===== src/Server/Sessions/Gauge.antt =====
-- The gauge of the active connections: a login does not change it.
use sftp2s.Prelude.{
  ℕ, String, Bool, Bytes, Option, none, some, ◌≡◌, inl, inr, refl, Bool-cases, arith,
}
use sftp2s.Auth.{Crypto}
use sftp2s.Metrics.{Gauge, inc_auth_failures}
use sftp2s.Server.Login.{
  Login, Credential, password, public_key, SshConfig, authenticate, callback, check_blocked,
  tarpit_login, note_failure, password_callback, public_key_callback,
}
use sftp2s.Server.Sessions.{System, after_login}

-- No callback counts a connection.
abbrev pub connections : Login → Option Gauge
connections l = elim l.metrics [ none ↦ none | some m ↦ some m.active_conns ]

callback-connections :
    (accepts : Bool) (refusal : String) (remote : Bytes) (now : ℕ) (l : Login)
    → connections (callback accepts refusal remote now l).1 ≡ connections l
unfolding callback check_blocked tarpit_login note_failure inc_auth_failures
callback-connections accepts refusal remote now l = ground arith

module _ (crypto : Crypto) where
  pub authenticate-connections :
      (cfg : SshConfig crypto) (user remote : Bytes) (credential : Credential crypto) (now : ℕ)
      (l : Login)
      → connections (authenticate crypto cfg user remote credential now l).1 ≡ connections l
  unfolding authenticate password_callback public_key_callback
  authenticate-connections cfg user remote (password pass) now l =
      elim (Bool-cases cfg.password_callback_set) [
        | inl set ↦ rw set (callback-connections _ "invalid credentials" remote now l)
        | inr unset ↦ rw unset refl
      ]
  authenticate-connections cfg user remote (public_key key) now l =
      elim (Bool-cases cfg.public_key_callback_set) [
        | inl set ↦ rw set (callback-connections _ "public key not authorized" remote now l)
        | inr unset ↦ rw unset refl
      ]

  pub after_login-connections :
      (l : Login) (s : System crypto)
      → connections l ≡ some s.metrics.active_conns
      → (after_login crypto l s).metrics.active_conns ≡ s.metrics.active_conns
  after_login-connections l s h = ground (arith, h)
