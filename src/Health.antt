-- ===== src/Health.antt =====
-- internal/health/health.go, and VFS.Validate of internal/vfs/vfs.go: whether the backends can be
-- reached. The monitor has metrics.
pub mod Checks
use sftp2s.Prelude.{
  ℕ, Bool, true, false, ◌&&◌, Bytes, codes, is_empty, Dict, lookup, put, List, [], ◌∷◌, Option,
  none, some, if◌then◌else◌,
}
use sftp2s.Result.{Result, ok, err}
use sftp2s.Result.Action.{Action}
use sftp2s.Metrics.{observe_s3_op, set_backend_healthy}
use sftp2s.S3.{S3}
use sftp2s.Storage.{Backend}
use sftp2s.Vfs.{Vfs}
use sftp2s.Handlers.{World, succeeded}

-- HealthMonitor, less what it is given
pub record HealthMonitor : Type 0 where
  pub status : Dict Bool

-- NewHealthMonitor
abbrev pub new_health_monitor : HealthMonitor
new_health_monitor = record { status = [] }

abbrev pub or_false : Option Bool → Bool
or_false none = false
or_false (some b) = b

-- Healthy
unfoldable pub healthy : HealthMonitor → Bytes → Bool
healthy m name = or_false (lookup name m.status)

unfoldable pub all_true : Dict Bool → Bool
all_true [] = true
all_true ((name, b) ∷ status) = b && all_true status

-- AllHealthy
unfoldable pub all_healthy : HealthMonitor → Bool
unfolding all_true
all_healthy m = if is_empty m.status then true else all_true m.status

module _ (s3 : S3) where
  open s3 use {Store}

  -- checkBackend
  unfoldable pub check_backend : Backend → World Store → Bool × World Store
  check_backend b w =
      let r = s3.list_objects b.location b.prefix none 1 w.store in
      (
        succeeded r.0,
        record w {
          store = r.1;
          metrics = observe_s3_op (codes "HealthCheck") b.name (succeeded r.0) w.metrics;
        },
      )

  -- the loop of checkAll
  unfoldable pub check_backends : Vfs → Dict Bool → World Store → Dict Bool × World Store
  unfolding check_backend
  check_backends [] status w = (status, w)
  check_backends ((name, b) ∷ vfs) status w =
      let r = check_backend b w in
      check_backends vfs (put name r.0 status)
        (record (r.1) { metrics = set_backend_healthy name r.0 r.1.metrics })

  -- checkAll; none is a nil VFS
  unfoldable pub check_all : Option Vfs → HealthMonitor → World Store → HealthMonitor × World Store
  unfolding check_backends
  check_all none m w = (m, w)
  check_all (some vfs) m w = let r = check_backends vfs [] w in (record { status = r.0 }, r.1)

  -- VFS.Validate
  unfoldable pub validate : Vfs → Action Store (Unit {0})
  validate [] s = (ok tt, s)
  validate ((name, b) ∷ vfs) s =
      let r = s3.list_objects b.location b.prefix none 1 s in
      elim r.0 [ err e ↦ (err e, r.1) | ok page ↦ validate vfs r.1 ]
