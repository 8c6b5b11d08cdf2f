-- ===== src/Handlers.antt =====
-- internal/sftphandlers/handlers.go: the handlers of one session, and the parts that the requests
-- share. Contexts, timeouts and log lines are not modelled: a call that times out is a call of the
-- service that fails.
pub mod Copy
pub mod Commands
pub mod Listing
pub mod Transfer
pub mod Confinement
pub mod Paths
use sftp2s.Prelude.{ℕ, Bool, true, false, Bytes, codes, List, Option, none, some, if◌then◌else◌}
use sftp2s.Result.{Error, Result, ok, err, ◌>>=◌}
use sftp2s.Result.Action.{Action}
use sftp2s.Metrics.{Metrics, observe_s3_op}
use sftp2s.Permissions.{UserPermissions}
use sftp2s.S3.{S3, Page}
use sftp2s.Storage.{Backend}
use sftp2s.Storage.Operations
use sftp2s.Path.{sanitize_path}
use sftp2s.Vfs.{Vfs, Target}
use sftp2s.Vfs

-- S3Handlers. `metered` says that `metrics` is not nil, and `rate_limiter` names a limiter.
pub record Handlers : Type 0 where
  pub vfs : Vfs
  pub user : Bytes
  pub remote : Bytes
  pub perms : UserPermissions
  pub rate_limiter : Option ℕ
  pub max_file_size : ℕ
  pub max_read_size : ℕ
  pub cache_dir : Bytes
  pub metered : Bool

-- sftp.Request
pub record Request : Type 0 where
  pub method : Bytes
  pub filepath : Bytes
  pub target : Bytes

-- What a request reads and writes: the S3 service, the metrics, and the clock, which stands still
-- during a request.
pub record World (Store : Type 0) : Type 0 where
  pub store : Store
  pub metrics : Metrics
  pub now : ℕ

-- S3Handlers.resolve
unfoldable pub resolve : Handlers → Bytes → Result Target
unfolding sanitize_path
resolve h p = do q ← sanitize_path p; Vfs.resolve h.vfs q

abbrev pub succeeded {ℓ} : {A : Type ℓ} → Result A → Bool
succeeded (ok a) = true
succeeded (err e) = false

-- S3Handlers.recordS3Op
unfoldable pub record_s3_op :
    {A : Type 0} → Handlers → Bytes → Backend → Result A → Metrics → Metrics
record_s3_op h op b r m = if h.metered then observe_s3_op op b.name (succeeded r) m else m

-- timedS3Op
unfoldable pub timed_s3_op :
    {Store A : Type 0} → Handlers → Bytes → Backend → Action Store A → Action (World Store) A
unfolding record_s3_op
timed_s3_op h op b fn w =
    let r = fn w.store in
    (r.0, record w { store = r.1; metrics = record_s3_op h op b r.0 w.metrics })

module _ (s3 : S3) (fuel : ℕ) (h : Handlers) where
  open s3 use {Store, Paginator}

  -- S3Handlers.objectExists
  unfoldable pub object_exists : Backend → Bytes → Action (World Store) Bool
  object_exists b key = timed_s3_op h (codes "HeadObject") b (Operations.object_exists s3 b key)

  -- S3Handlers.prefixHasEntries
  unfoldable pub prefix_has_entries : Backend → Bytes → Action (World Store) Bool
  prefix_has_entries b prefix =
      timed_s3_op h (codes "ListObjectsV2") b (Operations.prefix_has_entries s3 b prefix)

  -- S3Handlers.deleteObject
  unfoldable pub delete_object : Backend → Bytes → Action (World Store) (Unit {0})
  delete_object b key = timed_s3_op h (codes "DeleteObject") b (Operations.delete_object s3 b key)

  -- S3Handlers.deletePrefix
  unfoldable pub delete_prefix : Backend → Bytes → Action (World Store) (Unit {0})
  delete_prefix b prefix =
      timed_s3_op h (codes "DeleteObjects") b (Operations.delete_prefix s3 fuel b prefix)

  -- S3Handlers.copyObject
  unfoldable pub copy_object : Backend → Bytes → Bytes → Action (World Store) (Unit {0})
  copy_object b src dst = timed_s3_op h (codes "CopyObject") b (Operations.copy_object s3 b src dst)

  -- S3Handlers.nextListPage
  unfoldable pub next_list_page : Paginator → Backend → Action (World Store) (Page × Paginator)
  next_list_page paginator b = timed_s3_op h (codes "ListObjectsV2") b (s3.next_page paginator)
