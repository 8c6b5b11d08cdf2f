-- ===== src/Tests/Config.antt =====
-- The configuration at concrete inputs.
use sftp2s.Prelude.{codes, bytes_eq, [], ◌∷◌, none, ◌≡◌, ◌↔◌, refl, arith, if◌then◌else◌, ◌++◌}
use sftp2s.Result.{ok, err, not_exist}
use sftp2s.Config.{AuthFailuresConfig, UserConfig, ServerConfig, Config, Sources, load}
use sftp2s.Config.Env.{Environment, env_substitute, parse_env_expr, resolve_env}
use sftp2s.Config.Env.References.{
  Part, WellFormed, render, expand, env_substitute-render, resolve_env_forms,
}
use sftp2s.Config.Defaults.{with_defaults}
use sftp2s.Config.Load.{IsValid, load-IsValid}

abbrev pub no_failures : AuthFailuresConfig
no_failures = record {
  max_attempts = 0;
  window = [];
  block_duration = [];
  tarpit_delay = [];
  state_file = [];
  save_interval = [];
}

abbrev pub plain_server : ServerConfig
plain_server = record {
  host = [];
  port = 0;
  host_key = [];
  host_key_type = [];
  log_level = [];
  log_format = [];
  shutdown_timeout = [];
  metrics_addr = [];
  metrics_cert_file = [];
  metrics_key_file = [];
  metrics_token = [];
  cache_dir = [];
  backend_health_interval = [];
  auth_failures = no_failures;
  max_read_size = 0;
  max_file_size = 0;
  max_connections_per_second = 0;
}

abbrev pub alice_user : UserConfig
alice_user = record {
  username = codes "alice";
  password = codes "secret";
  password_hash = [];
  backends = codes "docs" ∷ [];
  authorized_keys = [];
  prefix = codes "alice";
  backend_prefixes = [];
  permissions = [];
  ssh_id = none;
  max_connections = 1;
  rate_limit_bytes_per_sec = 0;
  max_file_size = 0;
  max_read_size = 0;
}

abbrev pub small : Config
small = record { server = plain_server; users = alice_user ∷ []; backends = [] }

abbrev env : Environment
env = record {
  getenv = λ name. if bytes_eq name (codes "SECRET") then codes "xyz" else [];
  quote = λ name. name;
}

abbrev from : Sources
from = record {
  read_file = λ path. ok (codes "a: $b");
  env = env;
  unmarshal = λ text. ok small;
  cost = λ hash. err not_exist;
}

substituted : env_substitute env (codes "a: $b") ≡ ok (codes "a: $b")
unfolding env_substitute
substituted = refl

abbrev small_loaded : Config
small_loaded = record {
  server = record plain_server {
    host = codes "0.0.0.0";
    port = 2222;
    host_key = codes "host_ed25519_key";
    host_key_type = codes "ed25519";
    log_level = codes "info";
    log_format = codes "text";
  };
  users = alice_user ∷ [];
  backends = [];
}

load-IsValid_example :
    (load from (codes "config.yaml") ≡ ok small_loaded)
    ↔ (IsValid from.cost small × (small_loaded ≡ with_defaults small))
load-IsValid_example =
    load-IsValid from (codes "config.yaml") (codes "a: $b") (codes "a: $b") small small_loaded refl
      substituted refl

small_loaded_lem : small_loaded ≡ with_defaults small
unfolding with_defaults
small_loaded_lem = refl

abbrev part : Part
part = record { text = codes "k: "; inner = codes "SECRET:-d" }

env_substitute-render_example :
    env_substitute env (render (part ∷ []) (codes "!")) ≡ expand env (part ∷ []) (codes "!")
env_substitute-render_example =
    env_substitute-render env (part ∷ []) (codes "!") (part-WellFormed, tt) tt
  where
    part-WellFormed : WellFormed part
    part-WellFormed = record { plain = ground arith; closed = ground arith }

resolve_env_forms_example :
    (resolve_env env (parse_env_expr (codes "SECRET")) ≡ ok (codes "xyz"))
    × (resolve_env env (parse_env_expr (codes "SECRET" ++ (b':' ∷ b'-' ∷ codes "d")))
        ≡ ok (codes "xyz"))
    × (resolve_env env (parse_env_expr (codes "SECRET" ++ (b':' ∷ b'?' ∷ codes "d")))
        ≡ ok (codes "xyz"))
    × (resolve_env env (parse_env_expr (codes "SECRET" ++ (b':' ∷ b'+' ∷ codes "d")))
        ≡ ok (codes "xyz"))
unfolding bytes_eq
resolve_env_forms_example =
    resolve_env_forms env (codes "SECRET") (codes "d") b'+' (ground arith) (ground arith)
      (ground arith)
