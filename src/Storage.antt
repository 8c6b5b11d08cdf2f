-- ===== src/Storage.antt =====
-- internal/storage: a backend, its object keys, and the S3 operations on it.
pub mod Keys
pub mod Operations
pub mod Collect
pub mod Frames
pub mod Batches
pub mod Deletion
pub mod Termination
pub mod Presence
use sftp2s.Prelude.{
  ℕ, zero, Bool, true, ◌&&◌, not, Bytes, String, is_empty, trim, trim_suffix, Option, none, some,
  ◌++◌, [], ◌∷◌, if◌then◌else◌, Dict,
}
use sftp2s.Result.{Error, message, failed, Result, ok, err, ◌>>=◌}
use sftp2s.S3.{Location}

-- storage.Backend. `location` stands for the fields Bucket, Client and Uploader; a duration is in
-- nanoseconds.
pub record Backend : Type 0 where
  pub name : Bytes
  pub location : Location
  pub prefix : Bytes
  pub part_size : ℕ
  pub timeout : ℕ

abbrev pub slash : ℕ
slash = b'/'

-- Backend.ObjectKey
unfoldable pub object_key : Backend → Bytes → Bytes
object_key b rel = if is_empty b.prefix then rel else b.prefix ++ rel

-- Backend.DirPrefix
unfoldable pub dir_prefix : Backend → Bytes → Bytes
unfolding object_key
dir_prefix b rel =
    if is_empty b.prefix && is_empty rel
    then []
    else trim_suffix slash (object_key b rel) ++ slash ∷ []

-- config.BackendConfig
pub record BackendConfig : Type 0 where
  pub name : Bytes
  pub endpoint_url : Bytes
  pub region : Bytes
  pub access_key_id : Bytes
  pub secret_access_key : Bytes
  pub bucket : Bytes
  pub prefix : Bytes
  pub use_path_style : Bool
  pub path_style_legacy : Bool
  pub part_size : ℕ
  pub timeout : Bytes

-- The 60 seconds of defaultTimeout.
abbrev pub default_timeout : ℕ
default_timeout = 60000000000

abbrev add_slash : Bytes → Bytes
add_slash [] = []
add_slash (c ∷ s) = (c ∷ s) ++ slash ∷ []

-- the normal form of a configured prefix: no slash around it, and one behind it
unfoldable pub normal_prefix : Bytes → Bytes
normal_prefix p = add_slash (trim slash p)

-- NewBackend. `parse_duration` is time.ParseDuration, and `load_config` says whether the SDK accepts
-- the configuration.
unfoldable pub new_backend :
    (Bytes → Result ℕ) → (BackendConfig → Result (Unit {0})) → BackendConfig → Result Backend
unfolding normal_prefix
new_backend parse_duration load_config bc = do
  timeout ← if is_empty bc.timeout then ok default_timeout else parse_duration bc.timeout
  _ ← load_config bc
  ok (record {
    name = bc.name;
    location = record { endpoint = bc.endpoint_url; bucket = bc.bucket };
    prefix = normal_prefix bc.prefix;
    part_size = bc.part_size;
    timeout = timeout;
  })
