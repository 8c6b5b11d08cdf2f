-- ===== src/Limits/Reloads.antt =====
-- The limiter when a reload begins to limit a user who has sessions open: handleConn of
-- internal/server/server.go releases these too, though they were never counted.
use sftp2s.Prelude.{
  ℕ, ◌+◌, ◌-◌, ◌≤◌, false, Bytes, bytes_eq, bytes_eq_iff, bytes_eq_refl, lookup, lookup-put, List,
  [], ◌∷◌, some, ◌≡◌, sym, subst, ap, Bool-cases, inl, inr, arith, ◌∙◌,
}
use sftp2s.Limits.{UserLimits, update, or_zero, count, acquire, release}
use sftp2s.Limits.Connections.{Sessions, Event, connects, leaves, step, step-limits, run}

-- SIGHUP: Update, while the sessions stay.
abbrev pub reload : List UserLimits → Sessions → Sessions
reload users s = record s { limiter = update users s.limiter }

-- At most `old` of the sessions of the user are not counted.
abbrev Bounded : Sessions → Bytes → ℕ → ℕ → Type 0
Bounded s v max old = (count s.limiter v ≤ max) × (s.live v ≤ count s.limiter v + old)

connects-Bounded :
    (s : Sessions) (v : Bytes) (max old : ℕ)
    → lookup v s.limiter.limits ≡ some max
    → Bounded s v max old
    → Bounded (step s (connects v)) v max old
unfolding step acquire count
connects-Bounded s v max old h c = ground (
  arith,
  lookup-put v v (or_zero (lookup v s.limiter.counts) + 1) s.limiter.counts,
  bytes_eq_refl v,
)

leaves-Bounded :
    (s : Sessions) (v : Bytes) (max old : ℕ)
    → Bounded s v max old
    → Bounded (step s (leaves v)) v max old
unfolding step release count
leaves-Bounded s v max old c = ground (
  arith,
  lookup-put v v (or_zero (lookup v s.limiter.counts) - 1) s.limiter.counts,
  bytes_eq_refl v,
)

connects-Bounded_other :
    (s : Sessions) (u v : Bytes) (max old : ℕ)
    → bytes_eq u v ≡ false
    → Bounded s v max old
    → Bounded (step s (connects u)) v max old
unfolding step acquire count
connects-Bounded_other s u v max old other c =
    ground (arith, lookup-put u v (or_zero (lookup u s.limiter.counts) + 1) s.limiter.counts)

leaves-Bounded_other :
    (s : Sessions) (u v : Bytes) (max old : ℕ)
    → bytes_eq u v ≡ false
    → Bounded s v max old
    → Bounded (step s (leaves u)) v max old
unfolding step release count
leaves-Bounded_other s u v max old other c =
    ground (arith, lookup-put u v (or_zero (lookup u s.limiter.counts) - 1) s.limiter.counts)

step-Bounded :
    (s : Sessions) (e : Event) (v : Bytes) (max old : ℕ)
    → lookup v s.limiter.limits ≡ some max
    → Bounded s v max old
    → Bounded (step s e) v max old
step-Bounded s (connects u) v max old h c = elim (Bool-cases (bytes_eq u v)) [
  | inl same ↦
      subst (λ w. Bounded (step s (connects w)) v max old) (sym ((bytes_eq_iff u v).0 same))
        (connects-Bounded s v max old h c)
  | inr other ↦ connects-Bounded_other s u v max old other c
]
step-Bounded s (leaves u) v max old h c = elim (Bool-cases (bytes_eq u v)) [
  | inl same ↦
      subst (λ w. Bounded (step s (leaves w)) v max old) (sym ((bytes_eq_iff u v).0 same))
        (leaves-Bounded s v max old c)
  | inr other ↦ leaves-Bounded_other s u v max old other c
]

run-Bounded :
    (events : List Event) (s : Sessions) (v : Bytes) (max old : ℕ)
    → lookup v s.limiter.limits ≡ some max
    → Bounded s v max old
    → Bounded (run s events) v max old
unfolding run
run-Bounded [] s v max old h c = c
run-Bounded (e ∷ events) s v max old h c =
    run-Bounded events (step s e) v max old (ap (lookup v) (step-limits s e) ∙ h)
      (step-Bounded s e v max old h c)

-- Where a reload begins to limit a user of whose sessions none is counted, the open sessions never
-- exceed the limit by more than the number of sessions that were open at the reload.
pub reload_bounded :
    (users : List UserLimits) (s : Sessions) (events : List Event) (v : Bytes) (max : ℕ)
    → lookup v (update users s.limiter).limits ≡ some max
    → count s.limiter v ≡ 0
    → (run (reload users s) events).live v ≤ max + s.live v
reload_bounded users s events v max h c =
    let b =
      run-Bounded events (reload users s) v max (s.live v) h
        (unfold update count in ground (arith, c)) in
    omega (arith, b)
