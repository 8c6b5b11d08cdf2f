-- ===== src/Health/Checks.antt =====
-- What a check of the backends finds, where the service answers by the backend alone.
use sftp2s.Prelude.{
  Bool, true, false, ◌&&◌, Bytes, bytes_eq, bytes_eq_iff, is_empty, Dict, lookup, lookup-put, put,
  Distinct, [], ◌∷◌, none, some, if◌then◌else◌, ◌≡◌, refl, sym, ap, ◌∙◌, subst, inl, inr,
  Bool-cases, arith,
}
use sftp2s.Result.{Result, ok, err}
use sftp2s.Metrics.{observe_s3_op, set_backend_healthy, healthz}
use sftp2s.S3.{S3}
use sftp2s.Storage.{Backend}
use sftp2s.Vfs.{Vfs}
use sftp2s.Handlers.{World, succeeded}
use sftp2s.Health.{
  HealthMonitor, or_false, healthy, all_true, all_healthy, check_backend, check_backends, check_all,
  validate,
}

-- A listing leaves the service as it is.
abbrev pub Quiet : S3 → Type 0
Quiet s3 = (b : Backend) (s : s3.Store) → (s3.list_objects b.location b.prefix none 1 s).1 ≡ s

-- The service answers a listing of the backend.
unfoldable pub up : (s3 : S3) → s3.Store → Backend → Bool
up s3 s b = succeeded (s3.list_objects b.location b.prefix none 1 s).0

unfoldable pub all_up : (s3 : S3) → s3.Store → Vfs → Bool
unfolding up
all_up s3 s [] = true
all_up s3 s ((name, b) ∷ vfs) = up s3 s b && all_up s3 s vfs

all_true-put :
    (name : Bytes) (v : Bool) (status : Dict Bool)
    → lookup name status ≡ none
    → (all_true (put name v status) ≡ (all_true status && v))
      × (is_empty (put name v status) ≡ false)
unfolding all_true put lookup
all_true-put name v [] h = (ground arith, refl)
all_true-put name v ((j, b) ∷ status) h = elim (Bool-cases (bytes_eq j name)) [
  | inl same ↦ absurd (ground (arith, h, same))
  | inr other ↦
      rw other (ground (arith, (all_true-put name v status (ground (arith, h, other))).0), refl)
]

module _ (s3 : S3) (quiet : Quiet s3) where
  open s3 use {Store}

  -- What the loop leaves in the table of a name, and in the gauge of the metrics.
  check_backends-absent :
      (vfs : Vfs) (status : Dict Bool) (w : World Store) (j : Bytes)
      → lookup j vfs ≡ none
      → let r = check_backends s3 vfs status w in
        (lookup j r.0 ≡ lookup j status)
        × (lookup j r.1.metrics.backend_healthy ≡ lookup j w.metrics.backend_healthy)
  unfolding check_backends lookup set_backend_healthy check_backend observe_s3_op
  check_backends-absent [] status w j h = (refl, refl)
  check_backends-absent ((name, b) ∷ vfs) status w j h = elim (Bool-cases (bytes_eq name j)) [
    | inl same ↦ absurd (ground (arith, h, same))
    | inr other ↦
        let rest = check_backends-absent vfs _ _ j (ground (arith, h, other)) in
        (
          rest.0 ∙ (lookup-put name j _ status ∙ rw other refl),
          rest.1 ∙ (lookup-put name j _ w.metrics.backend_healthy ∙ rw other refl),
        )
  ]

  check_backends-found :
      (vfs : Vfs) (status : Dict Bool) (s : Store) (w : World Store) (j : Bytes) (c : Backend)
      → w.store ≡ s
      → Distinct vfs
      → lookup j vfs ≡ some c
      → let r = check_backends s3 vfs status w in
        (lookup j r.0 ≡ some (up s3 s c))
        × (lookup j r.1.metrics.backend_healthy ≡ some (if up s3 s c then 1 else 0))
  unfolding check_backends lookup set_backend_healthy check_backend observe_s3_op
  check_backends-found [] status s w j c e d h = absurd (ground arith)
  check_backends-found ((name, b) ∷ vfs) status s w j c e d h =
      elim (Bool-cases (bytes_eq name j)) [
        | inl same ↦
            let absent = subst (λ n. lookup n vfs ≡ none) ((bytes_eq_iff name j).0 same) d.0 in
            let one : b ≡ c = ground (arith, h, same) in
            let rest = check_backends-absent vfs _ _ j absent in
            let same_answer : up s3 w.store b ≡ up s3 s c =
              ap (λ x. up s3 x b) e ∙ ap (up s3 s) one in
            let answer : succeeded (s3.list_objects b.location b.prefix none 1 w.store).0
                ≡ up s3 s c =
              unfold up in same_answer in
            (
              rest.0 ∙ (lookup-put name j _ status ∙ rw same (ap some answer)),
              rest.1
                  ∙ (lookup-put name j _ w.metrics.backend_healthy
                      ∙ rw same (ap (λ (v : Bool). some (if v then 1 else 0)) answer)),
            )
        | inr other ↦
            check_backends-found vfs _ s _ j c (quiet b w.store ∙ e) d.1 (ground (arith, h, other))
      ]

  -- The names that are still to come have no entry.
  abbrev Fresh : Vfs → Dict Bool → Type 0
  Fresh [] status = Unit
  Fresh ((name, b) ∷ vfs) status = (lookup name status ≡ none) × Fresh vfs status

  Fresh-put :
      (vfs : Vfs) (name : Bytes) (v : Bool) (status : Dict Bool)
      → lookup name vfs ≡ none
      → Fresh vfs status
      → Fresh vfs (put name v status)
  unfolding lookup
  Fresh-put [] name v status h f = tt
  Fresh-put ((j, b) ∷ vfs) name v status h f = elim (Bool-cases (bytes_eq j name)) [
    | inl same ↦ absurd (ground (arith, h, same))
    | inr other ↦ (
      lookup-put name j v status
          ∙ ground (arith, f.0, other, bytes_eq_iff name j, bytes_eq_iff j name),
      Fresh-put vfs name v status (ground (arith, h, other)) f.1,
    )
  ]

  check_backends-all :
      (vfs : Vfs) (status : Dict Bool) (s : Store) (w : World Store)
      → w.store ≡ s
      → Distinct vfs
      → Fresh vfs status
      → all_true (check_backends s3 vfs status w).0 ≡ (all_true status && all_up s3 s vfs)
  unfolding check_backends all_up check_backend
  check_backends-all [] status s w e d f = ground arith
  check_backends-all ((name, b) ∷ vfs) status s w e d f =
      let v = succeeded (s3.list_objects b.location b.prefix none 1 w.store).0 in
      let now = all_true-put name v status f.0 in
      let answer : v ≡ up s3 s b =
        unfold up in ap (λ x. succeeded (s3.list_objects b.location b.prefix none 1 x).0) e in
      check_backends-all vfs (put name v status) s _ (quiet b w.store ∙ e) d.1
        (Fresh-put vfs name v status d.0 f.1)
      ∙ ground (arith, now.0, answer)

  all_healthy_lem : (m : HealthMonitor) → all_healthy m ≡ all_true m.status
  unfolding all_healthy
  all_healthy_lem m = go m.status
    where
      go :
          (status : Dict Bool)
          → (if is_empty status then true else all_true status) ≡ all_true status
      go [] = unfold all_true in refl
      go (e ∷ status) = refl

  -- Behind a check of all backends, with a service that a listing leaves as it is: a backend counts as
  -- healthy exactly if the service answered a listing of it, its gauge in the metrics says the same, and
  -- the endpoint answers 200 if all backends are healthy, and 503 otherwise.
  pub check_all-healthy :
      (vfs : Vfs) (m : HealthMonitor) (w : World Store) (j : Bytes) (c : Backend)
      → Distinct vfs
      → lookup j vfs ≡ some c
      → let r = check_all s3 (some vfs) m w in
        (healthy r.0 j ≡ up s3 w.store c)
        × (lookup j r.1.metrics.backend_healthy ≡ some (if healthy r.0 j then 1 else 0))
        × ((healthz (some (all_healthy r.0))).status_code
            ≡ (if all_up s3 w.store vfs then 200 else 503))
  unfolding check_all healthy
  check_all-healthy vfs m w j c d h =
      let found = check_backends-found vfs [] w.store w j c refl d h in
      let all : all_healthy (check_all s3 (some vfs) m w).0 ≡ all_up s3 w.store vfs =
        all_healthy_lem _
        ∙ (check_backends-all vfs [] w.store w refl d (nothing vfs) ∙ unfold all_true in refl) in
      (
        ap or_false found.0,
        found.1 ∙ ap (λ (v : Bool). some (if v then 1 else 0)) (sym (ap or_false found.0)),
        ap (λ b. (healthz (some b)).status_code) all ∙ code (all_up s3 w.store vfs),
      )
    where
      nothing : (vs : Vfs) → Fresh vs []
      nothing [] = tt
      nothing ((name, b) ∷ vs) = (unfold lookup in refl, nothing vs)

      code : (b : Bool) → (healthz (some b)).status_code ≡ (if b then 200 else 503)
      code true = unfold healthz in refl
      code false = unfold healthz in refl

  validated :
      (b : Backend) (s : Store) (rest : Store → Result (Unit {0}) × Store) (r : Result _)
      → (s3.list_objects b.location b.prefix none 1 s).0 ≡ r
      → (let o : Result (Unit {0}) × Store = elim r [
        | err e ↦ (err e, (s3.list_objects b.location b.prefix none 1 s).1)
        | ok page ↦ rest (s3.list_objects b.location b.prefix none 1 s).1
      ] in
          succeeded o.0)
        ≡ (up s3 s b && succeeded (rest s).0)
  unfolding up
  validated b s rest (ok page) e = rw (quiet b s, e) refl
  validated b s rest (err x) e = rw e refl

  -- With such a service, Validate succeeds exactly if it answers a listing of every backend.
  pub validate-all_up : (vfs : Vfs) (s : Store) → succeeded (validate s3 vfs s).0 ≡ all_up s3 s vfs
  unfolding validate all_up
  validate-all_up [] s = refl
  validate-all_up ((name, b) ∷ vfs) s =
      validated b s (validate s3 vfs) (s3.list_objects b.location b.prefix none 1 s).0 refl
      ∙ ap (λ v. up s3 s b && v) (validate-all_up vfs s)
