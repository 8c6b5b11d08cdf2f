-- ===== src/Tests/Health.antt =====
-- The checks of the backends at concrete inputs.
use sftp2s.Prelude.{
  codes, lookup, some, none, ◌≡◌, refl, ap, ◌∙◌, inl, inr, false, Bool-cases, if◌then◌else◌,
  bytes_eq,
}
use sftp2s.Metrics.{healthz}
use sftp2s.Fake.Service.{fake_s3, Fakes, set_fake, location_eq, location_eq_iff, ask_list}
use sftp2s.S3.{Location}
use mathlib.Core.Path.{fun_ext}
use sftp2s.Health.{new_health_monitor, healthy, all_healthy, check_all}
use sftp2s.Health.Checks.{Quiet, up, all_up, check_all-healthy}
use sftp2s.Tests.Fixtures.{docs, docs_vfs, world}

set_same : (loc : Location) (s : Fakes) → set_fake loc (s loc) s ≡ s
set_same loc s = fun_ext λ l. elim (Bool-cases (location_eq loc l)) [
  | inl same ↦ rw same (ap s ((location_eq_iff loc l).0 same))
  | inr other ↦ rw other refl
]

pub fake-Quiet : Quiet fake_s3
fake-Quiet b s = elim (Bool-cases (s b.location).fail) [
  | inl broken ↦ rw broken refl
  | inr works ↦ ap (λ o. o.1) (unbroken works) ∙ set_same b.location s
]
  where
    unbroken :
        (s b.location).fail ≡ false
        → fake_s3.list_objects b.location b.prefix none 1 s
          ≡ ((ask_list b.prefix none (s b.location)).0, set_fake b.location (s b.location) s)
    unbroken works = rw works refl

check_all-healthy_example :
    (healthy (check_all fake_s3 (some docs_vfs) new_health_monitor world).0 (codes "docs")
      ≡ up fake_s3 world.store docs)
    × (lookup
          (codes "docs")
          (check_all fake_s3 (some docs_vfs) new_health_monitor world).1.metrics.backend_healthy
        ≡ some (
            if healthy (check_all fake_s3 (some docs_vfs) new_health_monitor world).0 (codes "docs")
            then 1
            else 0))
    × ((healthz (
          some (
            all_healthy
              (check_all fake_s3 (some docs_vfs) new_health_monitor world).0))).status_code
        ≡ (if all_up fake_s3 world.store docs_vfs then 200 else 503))
unfolding lookup bytes_eq
check_all-healthy_example =
    check_all-healthy fake_s3 fake-Quiet docs_vfs new_health_monitor world (codes "docs") docs
      (refl, tt) refl
