-- ===== src/Config.antt =====
-- internal/config/config.go: the configuration, and how Load reads and checks it. A number that is
-- negative in the file is not represented: a limit below 0 means none to the code, as 0 does.
pub mod Env
pub mod Bcrypt
pub mod Defaults
pub mod Load
use sftp2s.Prelude.{
  ℕ, Bool, true, false, not, ◌&&◌, ◌||◌, Bytes, bytes_eq, codes, is_empty, has_prefix, length,
  get_elem?, Dict, List, [], ◌∷◌, Option, none, some, ◌==◌, if◌then◌else◌, map, String,
}
use sftp2s.Result.{Result, ok, err, message, ◌>>=◌}
use sftp2s.Storage.{BackendConfig}
use sftp2s.Config.Env.{Environment, env_substitute}

-- AuthFailuresConfig
pub record AuthFailuresConfig : Type 0 where
  pub max_attempts : ℕ
  pub window : Bytes
  pub block_duration : Bytes
  pub tarpit_delay : Bytes
  pub state_file : Bytes
  pub save_interval : Bytes

-- SSHIDConfig
pub record SshIdConfig : Type 0 where
  pub username : Bytes
  pub algorithms : List Bytes
  pub cache_dir : Bytes

-- UserConfig
pub record UserConfig : Type 0 where
  pub username : Bytes
  pub password : Bytes
  pub password_hash : Bytes
  pub backends : List Bytes
  pub authorized_keys : List Bytes
  pub prefix : Bytes
  pub backend_prefixes : Dict Bytes
  pub permissions : List Bytes
  pub ssh_id : Option SshIdConfig
  pub max_connections : ℕ
  pub rate_limit_bytes_per_sec : ℕ
  pub max_file_size : ℕ
  pub max_read_size : ℕ

-- the field Server of Config
pub record ServerConfig : Type 0 where
  pub host : Bytes
  pub port : ℕ
  pub host_key : Bytes
  pub host_key_type : Bytes
  pub log_level : Bytes
  pub log_format : Bytes
  pub shutdown_timeout : Bytes
  pub metrics_addr : Bytes
  pub metrics_cert_file : Bytes
  pub metrics_key_file : Bytes
  pub metrics_token : Bytes
  pub cache_dir : Bytes
  pub backend_health_interval : Bytes
  pub auth_failures : AuthFailuresConfig
  pub max_read_size : ℕ
  pub max_file_size : ℕ
  pub max_connections_per_second : ℕ

-- Config
pub record Config : Type 0 where
  pub server : ServerConfig
  pub users : List UserConfig
  pub backends : List BackendConfig

-- What Load takes from outside: the file, the environment, YAML, and bcrypt.Cost.
pub record Sources : Type 0 where
  pub read_file : Bytes → Result Bytes
  pub env : Environment
  pub unmarshal : Bytes → Result Config
  pub cost : Bytes → Result ℕ

-- if s == "" { s = … }
abbrev pub or_default : Bytes → Bytes → Bytes
or_default s d = if is_empty s then d else s

-- the defaults of the server up to the check of the host key type
unfoldable pub server_defaults : ServerConfig → ServerConfig
server_defaults s = record s {
  host = or_default s.host (codes "0.0.0.0");
  port = if s.port == 0 then 2222 else s.port;
  host_key = or_default s.host_key (codes "host_ed25519_key");
  host_key_type = or_default s.host_key_type (codes "ed25519");
}

-- the defaults behind it
unfoldable pub log_defaults : ServerConfig → ServerConfig
log_defaults s = record s {
  log_level = or_default s.log_level (codes "info");
  log_format = or_default s.log_format (codes "text");
}

unfoldable pub backend_defaults : BackendConfig → BackendConfig
backend_defaults b = record b {
  region = or_default b.region (codes "us-east-1");
  part_size = if b.part_size == 0 then 8388608 else b.part_size;
}

abbrev pub is_ok {ℓ} : {A : Type ℓ} → Result A → Bool
is_ok (ok a) = true
is_ok (err e) = false

abbrev pub is_byte : ℕ → Option ℕ → Bool
is_byte c none = false
is_byte c (some d) = d == c

-- isValidBcryptHash
unfoldable pub is_valid_bcrypt_hash : (Bytes → Result ℕ) → Bytes → Bool
is_valid_bcrypt_hash cost s =
    (length s == 60)
    && (has_prefix s (codes "$2")
        && (is_byte b'$' (get_elem? s 3)
            && ((is_byte b'a' (get_elem? s 2)
                  || is_byte b'b' (get_elem? s 2)
                  || is_byte b'y' (get_elem? s 2))
                && is_ok (cost s))))

-- hasSSHID
abbrev pub has_ssh_id : Option SshIdConfig → Bool
has_ssh_id none = false
has_ssh_id (some c) = not (is_empty c.username)

-- the checks of one user
unfoldable pub check_user : (Bytes → Result ℕ) → UserConfig → Result (Unit {0})
unfolding is_valid_bcrypt_hash
check_user cost u =
    if is_empty u.username
    then err (message "user: username is required")
    else if is_empty u.password
        && (is_empty u.password_hash && (is_empty u.authorized_keys && not (has_ssh_id u.ssh_id)))
    then err
        (message "at least one of password, password_hash, authorized_keys, or sshid is required")
    else if not (is_empty u.password_hash) && not (is_valid_bcrypt_hash cost u.password_hash)
    then err (message "password_hash does not look like a valid bcrypt hash")
    else ok tt

unfoldable pub check_users : (Bytes → Result ℕ) → List UserConfig → Result (Unit {0})
check_users cost [] = ok tt
check_users cost (u ∷ users) = check_user cost u >>= λ _. check_users cost users

-- if … { return err }
unfoldable pub unless : Bool → String → Result (Unit {0})
unless true s = ok tt
unless false s = err (message s)

-- Load behind the decoding: the defaults and the checks, in the order of the code.
unfoldable pub complete : (Bytes → Result ℕ) → Config → Result Config
unfolding server_defaults log_defaults backend_defaults check_users unless
complete cost c =
    let s = server_defaults c.server in
    unless (bytes_eq s.host_key_type (codes "ed25519") || bytes_eq s.host_key_type (codes "rsa"))
      "invalid host_key_type"
    >>= λ _. unless (not (is_empty c.users)) "at least one user must be configured" >>= λ _.
        check_users cost c.users >>= λ _. ok (record {
          server = log_defaults s;
          users = c.users;
          backends = map backend_defaults c.backends;
        })

-- Load
unfoldable pub load : Sources → Bytes → Result Config
unfolding complete
load from path = do
  b ← from.read_file path
  text ← env_substitute from.env b
  c ← from.unmarshal text
  complete from.cost c
