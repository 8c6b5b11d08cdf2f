-- ===== src/Server/Login.antt =====
-- server.go: NewSSHServerConfig and its two callbacks. `tracker` and `metrics` of a login are none for
-- a nil pointer. The clock stands still during a callback.
pub mod Answers
pub mod Blocking
pub mod Lockout
pub mod Accepted
use sftp2s.Prelude.{
  ℕ, Bool, true, false, not, ◌&&◌, ◌||◌, Bytes, bytes_eq, is_empty, ltb, Dict, lookup, put, List,
  [], ◌∷◌, Option, none, some, String, if◌then◌else◌,
}
use sftp2s.Result.{Result, ok, err, message, ◌>>=◌}
use sftp2s.Config.{UserConfig}
use sftp2s.Auth.{Crypto, has_any_password, keys_equal, load_authorized_keys, password_matches}
use sftp2s.Failures.{FailureTracker, record_failure, is_blocked}
use sftp2s.Metrics.{Metrics, inc_auth_failures}

-- What the callbacks change.
pub record Login : Type 0 where
  pub tracker : Option FailureTracker
  pub metrics : Option Metrics

-- FailureTracker.Tarpit, without the sleep
unfoldable pub tarpit : Bytes → ℕ → FailureTracker → FailureTracker
tarpit remote now t = if ltb 0 t.tarpit_delay then (is_blocked remote now t).0 else t

-- tracker != nil && tracker.IsBlocked(remote)
unfoldable pub check_blocked : Bytes → ℕ → Login → Login × Bool
check_blocked remote now l = elim l.tracker [
  | none ↦ (l, false)
  | some t ↦ let r = is_blocked remote now t in (record l { tracker = some r.0 }, r.1)
]

unfoldable pub tarpit_login : Bytes → ℕ → Login → Login
unfolding tarpit
tarpit_login remote now l = elim l.tracker [
  | none ↦ l
  | some t ↦ record l { tracker = some (tarpit remote now t) }
]

-- what both callbacks do behind a failed login
unfoldable pub note_failure : Bytes → ℕ → Login → Login
note_failure remote now l = record {
  tracker = elim l.tracker [ none ↦ none | some t ↦ some (record_failure remote now t).0 ];
  metrics = elim l.metrics [ none ↦ none | some m ↦ some (inc_auth_failures m) ];
}

-- The frame of both callbacks: `accepts` is the search for a credential.
unfoldable pub callback : Bool → String → Bytes → ℕ → Login → Result (Unit {0}) × Login
unfolding check_blocked tarpit_login note_failure
callback accepts refusal remote now l =
    let c = check_blocked remote now l in
    if c.1
    then (err (message "blocked"), tarpit_login remote now c.0)
    else if accepts
    then (ok tt, c.0)
    else (err (message refusal), note_failure remote now c.0)

module _ (crypto : Crypto) where
  open crypto use {PublicKey}

  -- the loop of PasswordCallback
  unfoldable pub any_password : List UserConfig → Bytes → Bytes → Bool
  any_password [] user pass = false
  any_password (u ∷ users) user pass =
      (bytes_eq u.username user && password_matches crypto u pass) || any_password users user pass

  -- cfg.PasswordCallback
  unfoldable pub password_callback :
      List UserConfig → Bytes → Bytes → Bytes → ℕ → Login → Result (Unit {0}) × Login
  unfolding any_password callback
  password_callback users user remote pass =
      callback (any_password users user pass) "invalid credentials" remote

  -- the loop of PublicKeyCallback
  unfoldable pub any_key : List PublicKey → PublicKey → Bool
  any_key [] key = false
  any_key (authorized ∷ keys) key = keys_equal crypto authorized key || any_key keys key

  abbrev pub keys_of : Option (List PublicKey) → List PublicKey
  keys_of none = []
  keys_of (some keys) = keys

  -- cfg.PublicKeyCallback
  unfoldable pub public_key_callback :
      Dict (List PublicKey) → Bytes → Bytes → PublicKey → ℕ → Login → Result (Unit {0}) × Login
  unfolding any_key callback
  public_key_callback user_keys user remote key =
      callback (any_key (keys_of (lookup user user_keys)) key) "public key not authorized" remote

  abbrev pub add_keys : Bytes → List PublicKey → Dict (List PublicKey) → Dict (List PublicKey)
  add_keys user [] user_keys = user_keys
  add_keys user (k ∷ keys) user_keys = put user (k ∷ keys) user_keys

  -- the loop that loads the authorized keys
  unfoldable pub load_user_keys :
      List UserConfig → Dict (List PublicKey) → Result (Dict (List PublicKey))
  load_user_keys [] user_keys = ok user_keys
  load_user_keys (u ∷ users) user_keys = do
    keys ←
        if is_empty u.authorized_keys then ok [] else load_authorized_keys crypto u.authorized_keys
    load_user_keys users (add_keys u.username keys user_keys)

  -- ssh.ServerConfig: which callbacks are set, and what they close over.
  pub record SshConfig : Type 0 where
    pub users : List UserConfig
    pub user_keys : Dict (List PublicKey)
    pub password_callback_set : Bool
    pub public_key_callback_set : Bool

  -- NewSSHServerConfig
  unfoldable pub new_ssh_server_config : List UserConfig → Result SshConfig
  unfolding load_user_keys
  new_ssh_server_config users = do
    user_keys ← load_user_keys users []
    ok (record {
      users = users;
      user_keys = user_keys;
      password_callback_set = has_any_password users;
      public_key_callback_set = not (is_empty user_keys);
    })

  -- One attempt of a client to log in, with a password or with a key that it has proved to hold.
  pub data Credential : Type 0 where
    password : Bytes → Credential
    public_key : PublicKey → Credential

  -- What package ssh does with an attempt: it calls the callback of the method, and refuses a method
  -- without one.
  unfoldable pub authenticate :
      SshConfig → Bytes → Bytes → Credential → ℕ → Login → Result (Unit {0}) × Login
  unfolding password_callback public_key_callback
  authenticate cfg user remote (password pass) now l =
      if cfg.password_callback_set
      then password_callback cfg.users user remote pass now l
      else (err (message "no such method"), l)
  authenticate cfg user remote (public_key key) now l =
      if cfg.public_key_callback_set
      then public_key_callback cfg.user_keys user remote key now l
      else (err (message "no such method"), l)
