-- ===== src/Limits/Connections.antt =====
-- The limiter against the sessions that are open: handleConn of internal/server/server.go acquires
-- before a session and releases behind it, and a reload replaces the limits under open sessions.
use sftp2s.Prelude.{
  ℕ, ◌+◌, ◌-◌, ◌≤◌, Bool, false, Bytes, bytes_eq, bytes_eq_iff, bytes_eq_refl, lookup, lookup-put,
  List, [], ◌∷◌, some, ◌≡◌, sym, subst, ap, Bool-cases, inl, inr, arith, if◌then◌else◌, ◌==◌, ◌∙◌,
}
use sftp2s.Limits.{
  UserLimits, UserConnLimiter, update, new_user_conn_limiter, or_zero, count, acquire, release,
}

-- The limiter, and how many sessions each user has.
pub record Sessions : Type 0 where
  pub limiter : UserConnLimiter
  pub live : Bytes → ℕ

pub data Event : Type 0 where
  connects leaves : Bytes → Event

abbrev pub set_live : Bytes → ℕ → (Bytes → ℕ) → Bytes → ℕ
set_live u n live v = if bytes_eq u v then n else live v

unfoldable admit : Sessions → Bytes → UserConnLimiter × Bool → Sessions
admit s u (l, granted) = record {
  limiter = l;
  live = if granted then set_live u (s.live u + 1) s.live else s.live;
}

-- A session begins if Acquire grants it; the end of one releases it. A user without a session does
-- not leave.
unfoldable pub step : Sessions → Event → Sessions
unfolding admit
step s (connects u) = admit s u (acquire s.limiter u)
step s (leaves u) =
    if s.live u == 0
    then s
    else record { limiter = release s.limiter u; live = set_live u (s.live u - 1) s.live }

unfoldable pub run : Sessions → List Event → Sessions
run s [] = s
run s (e ∷ events) = run (step s e) events

abbrev pub start : List UserLimits → Sessions
start users = record { limiter = new_user_conn_limiter users; live = λ u. 0 }

-- The count of a limited user is the number of the sessions, and within the limit.
abbrev pub Counted : Sessions → Bytes → ℕ → Type 0
Counted s v max = (count s.limiter v ≡ s.live v) × (s.live v ≤ max)

pub step-limits : (s : Sessions) (e : Event) → (step s e).limiter.limits ≡ s.limiter.limits
unfolding step acquire release
step-limits s (connects u) = ground arith
step-limits s (leaves u) = ground arith

connects-Counted :
    (s : Sessions) (v : Bytes) (max : ℕ)
    → lookup v s.limiter.limits ≡ some max
    → Counted s v max
    → Counted (step s (connects v)) v max
unfolding step acquire count
connects-Counted s v max h c = ground (
  arith,
  lookup-put v v (or_zero (lookup v s.limiter.counts) + 1) s.limiter.counts,
  bytes_eq_refl v,
)

leaves-Counted :
    (s : Sessions) (v : Bytes) (max : ℕ) → Counted s v max → Counted (step s (leaves v)) v max
unfolding step release count
leaves-Counted s v max c = ground (
  arith,
  lookup-put v v (or_zero (lookup v s.limiter.counts) - 1) s.limiter.counts,
  bytes_eq_refl v,
)

connects-Counted_other :
    (s : Sessions) (u v : Bytes) (max : ℕ)
    → bytes_eq u v ≡ false
    → Counted s v max
    → Counted (step s (connects u)) v max
unfolding step acquire count
connects-Counted_other s u v max other c =
    ground (arith, lookup-put u v (or_zero (lookup u s.limiter.counts) + 1) s.limiter.counts)

leaves-Counted_other :
    (s : Sessions) (u v : Bytes) (max : ℕ)
    → bytes_eq u v ≡ false
    → Counted s v max
    → Counted (step s (leaves u)) v max
unfolding step release count
leaves-Counted_other s u v max other c =
    ground (arith, lookup-put u v (or_zero (lookup u s.limiter.counts) - 1) s.limiter.counts)

step-Counted :
    (s : Sessions) (e : Event) (v : Bytes) (max : ℕ)
    → lookup v s.limiter.limits ≡ some max
    → Counted s v max
    → Counted (step s e) v max
step-Counted s (connects u) v max h c = elim (Bool-cases (bytes_eq u v)) [
  | inl same ↦
      subst (λ w. Counted (step s (connects w)) v max) (sym ((bytes_eq_iff u v).0 same))
        (connects-Counted s v max h c)
  | inr other ↦ connects-Counted_other s u v max other c
]
step-Counted s (leaves u) v max h c = elim (Bool-cases (bytes_eq u v)) [
  | inl same ↦
      subst (λ w. Counted (step s (leaves w)) v max) (sym ((bytes_eq_iff u v).0 same))
        (leaves-Counted s v max c)
  | inr other ↦ leaves-Counted_other s u v max other c
]

run-Counted_from :
    (events : List Event) (s : Sessions) (v : Bytes) (max : ℕ)
    → lookup v s.limiter.limits ≡ some max
    → Counted s v max
    → Counted (run s events) v max
unfolding run
run-Counted_from [] s v max h c = c
run-Counted_from (e ∷ events) s v max h c =
    run-Counted_from events (step s e) v max (ap (lookup v) (step-limits s e) ∙ h)
      (step-Counted s e v max h c)

start-Counted : (users : List UserLimits) (v : Bytes) (max : ℕ) → Counted (start users) v max
unfolding new_user_conn_limiter update count lookup
start-Counted users v max = ground arith

-- For any sequence of logins and logouts that starts from a new limiter, the limiter counts exactly
-- the open sessions of a user who has a limit, and they never exceed the limit.
pub run-Counted :
    (users : List UserLimits) (events : List Event) (v : Bytes) (max : ℕ)
    → lookup v (new_user_conn_limiter users).limits ≡ some max
    → Counted (run (start users) events) v max
run-Counted users events v max h =
    run-Counted_from events (start users) v max h (start-Counted users v max)
