-- ===== src/Config/Defaults.antt =====
-- The defaults of a configuration, written out, against those that Load puts in.
use sftp2s.Prelude.{
  ℕ, zero, suc, Bytes, codes, List, [], ◌∷◌, map, ◌≡◌, refl, if◌then◌else◌, ◌==◌, arith,
}
use sftp2s.Config.{
  ServerConfig, BackendConfig, Config, server_defaults, log_defaults, backend_defaults, or_default,
}

-- What stands in a place of the configuration that is left empty.
abbrev text_or : Bytes → Bytes → Bytes
text_or [] other = other
text_or (c ∷ s) other = c ∷ s

abbrev number_or : ℕ → ℕ → ℕ
number_or zero other = other
number_or (suc n) other = suc n

abbrev server_with_defaults : ServerConfig → ServerConfig
server_with_defaults s = record s {
  host = text_or s.host (codes "0.0.0.0");
  port = number_or s.port 2222;
  host_key = text_or s.host_key (codes "host_ed25519_key");
  host_key_type = text_or s.host_key_type (codes "ed25519");
  log_level = text_or s.log_level (codes "info");
  log_format = text_or s.log_format (codes "text");
}

abbrev backend_with_defaults : BackendConfig → BackendConfig
backend_with_defaults b = record b {
  region = text_or b.region (codes "us-east-1");
  part_size = number_or b.part_size 8388608;
}

-- The configuration with the defaults in the places that are left empty.
unfoldable pub with_defaults : Config → Config
with_defaults c = record {
  server = server_with_defaults c.server;
  users = c.users;
  backends = map backend_with_defaults c.backends;
}

or_default-text_or : (s d : Bytes) → or_default s d ≡ text_or s d
or_default-text_or [] d = refl
or_default-text_or (c ∷ s) d = refl

if-number_or : (n d : ℕ) → (if n == 0 then d else n) ≡ number_or n d
if-number_or zero d = refl
if-number_or (suc n) d = ground arith

server_defaults_lem : (s : ServerConfig) → log_defaults (server_defaults s) ≡ server_with_defaults s
unfolding log_defaults server_defaults
server_defaults_lem s =
    rw
      (
        or_default-text_or s.host (codes "0.0.0.0"),
        if-number_or s.port 2222,
        or_default-text_or s.host_key (codes "host_ed25519_key"),
        or_default-text_or s.host_key_type (codes "ed25519"),
        or_default-text_or s.log_level (codes "info"),
        or_default-text_or s.log_format (codes "text"),
      )
      refl

backend_defaults_lem : (b : BackendConfig) → backend_defaults b ≡ backend_with_defaults b
unfolding backend_defaults
backend_defaults_lem b =
    rw (or_default-text_or b.region (codes "us-east-1"), if-number_or b.part_size 8388608) refl

map-backend_defaults :
    (bs : List BackendConfig) → map backend_defaults bs ≡ map backend_with_defaults bs
map-backend_defaults [] = refl
map-backend_defaults (b ∷ bs) = rw (backend_defaults_lem b, map-backend_defaults bs) refl

-- What the code makes of a configuration.
abbrev pub completed : Config → Config
completed c = record {
  server = log_defaults (server_defaults c.server);
  users = c.users;
  backends = map backend_defaults c.backends;
}

pub completed_lem : (c : Config) → completed c ≡ with_defaults c
unfolding with_defaults
completed_lem c = rw (server_defaults_lem c.server, map-backend_defaults c.backends) refl
