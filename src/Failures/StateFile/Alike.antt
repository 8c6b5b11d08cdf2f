-- ===== src/Failures/StateFile/Alike.antt =====
-- Two trackers that cannot be told apart from a time on, by what the server asks of them.
use sftp2s.Prelude.{
  ℕ, ◌+◌, ◌≤◌, Bytes, bytes_eq, bytes_eq_iff, bytes_eq_refl, lookup, lookup-put, lookup-delete,
  List, [], ◌∷◌, ◌≡◌, refl, sym, ap, ◌∙◌, subst, Bool-cases, inl, inr, arith,
}
use sftp2s.Failures.{
  FailureTracker, attempts_of, recent, prune_attempts, count_failure, record_failure, holds,
  is_blocked,
}
use sftp2s.Failures.Window.{pruned, counted}
use sftp2s.Failures.Blocks.{Event, fails, asks, step, remote_of, trace, only, trace-only}

abbrev pub time_of : Event → ℕ
time_of (fails remote now) = now
time_of (asks remote now) = now

-- The times of the events do not go back, from `last` on.
unfoldable pub Chronological : ℕ → List Event → Type 0
Chronological last [] = Unit
Chronological last (e ∷ events) = (last ≤ time_of e) × Chronological (time_of e) events

-- What matters of an address from `now` on: the failures in a window, and the block.
pub record Alike (a : Bytes) (now : ℕ) (t u : FailureTracker) : Type 0 where
  pub times :
      (n : ℕ) → now ≤ n → recent t.window n (attempts_of t a) ≡ recent u.window n (attempts_of u a)
  pub until : (n : ℕ) → now ≤ n → holds n (lookup a t.blocked) ≡ holds n (lookup a u.blocked)
  pub max_attempts : t.max_attempts ≡ u.max_attempts
  pub window : t.window ≡ u.window
  pub block_duration : t.block_duration ≡ u.block_duration

later-Alike :
    (a : Bytes) (now n : ℕ) (t u : FailureTracker) → now ≤ n → Alike a now t u → Alike a n t u
later-Alike a now n t u le h = record {
  times = λ m le'. h.times m (omega (arith, le, le'));
  until = λ m le'. h.until m (omega (arith, le, le'));
  max_attempts = h.max_attempts;
  window = h.window;
  block_duration = h.block_duration;
}

prune-Alike :
    (a : Bytes) (now : ℕ) (t u : FailureTracker)
    → Alike a now t u
    → Alike a now (prune_attempts a now t) (prune_attempts a now u)
      × (attempts_of (prune_attempts a now t) a ≡ attempts_of (prune_attempts a now u) a)
unfolding prune_attempts
prune-Alike a now t u h =
    let same = pruned a now t ∙ (h.times now (omega arith) ∙ sym (pruned a now u)) in
    (
      record {
        times = λ n le.
            ap (recent t.window n) same
            ∙ ap (λ w. recent w n (attempts_of (prune_attempts a now u) a)) h.window;
        until = h.until;
        max_attempts = h.max_attempts;
        window = h.window;
        block_duration = h.block_duration;
      },
      same,
    )

count-Alike :
    (a : Bytes) (now : ℕ) (t u : FailureTracker)
    → Alike a now t u
    → attempts_of t a ≡ attempts_of u a
    → Alike a now (count_failure a now t).0 (count_failure a now u).0
      × ((count_failure a now t).1 ≡ (count_failure a now u).1)
unfolding count_failure
count-Alike a now t u h same =
    let c = counted a now t in
    let d = counted a now u in
    (
      record {
        times = λ n le. ground (arith, c, d, same, h.max_attempts, h.window);
        until = λ n le. ground (
          arith,
          same,
          h.max_attempts,
          h.until n le,
          h.block_duration,
          bytes_eq_refl a,
          lookup-put a a (now + t.block_duration) t.blocked,
          lookup-put a a (now + u.block_duration) u.blocked,
        );
        max_attempts = ground (arith, h.max_attempts);
        window = ground (arith, h.window);
        block_duration = ground (arith, h.block_duration);
      },
      ground (arith, c, d, same, h.max_attempts),
    )

asks-Alike :
    (a : Bytes) (now : ℕ) (t u : FailureTracker)
    → Alike a now t u
    → Alike a now (is_blocked a now t).0 (is_blocked a now u).0
      × ((is_blocked a now t).1 ≡ (is_blocked a now u).1)
unfolding is_blocked holds
asks-Alike a now t u h =
    let now_same = h.until now (omega arith) in
    (
      record {
        times = λ n le. ground (arith, h.times n le);
        until = λ n le. ground (
          arith,
          now_same,
          h.until n le,
          bytes_eq_refl a,
          lookup-delete a a t.blocked,
          lookup-delete a a u.blocked,
        );
        max_attempts = ground (arith, h.max_attempts);
        window = ground (arith, h.window);
        block_duration = ground (arith, h.block_duration);
      },
      ground (arith, now_same),
    )

step-Alike :
    (a : Bytes) (e : Event) (t u : FailureTracker)
    → remote_of e ≡ a
    → Alike a (time_of e) t u
    → Alike a (time_of e) (step t e).0 (step u e).0 × ((step t e).1 ≡ (step u e).1)
unfolding step record_failure
step-Alike a (fails remote now) t u same h =
    subst
      (λ r.
        Alike a now (count_failure r now (prune_attempts r now t)).0
          (count_failure r now (prune_attempts r now u)).0
        × ((count_failure r now (prune_attempts r now t)).1
            ≡ (count_failure r now (prune_attempts r now u)).1))
      (sym same)
      (let p = prune-Alike a now t u h in
        count-Alike a now (prune_attempts a now t) (prune_attempts a now u) p.0 p.1)
step-Alike a (asks remote now) t u same h =
    subst
      (λ r.
        Alike a now (is_blocked r now t).0 (is_blocked r now u).0
        × ((is_blocked r now t).1 ≡ (is_blocked r now u).1))
      (sym same) (asks-Alike a now t u h)

only-Alike :
    (events : List Event) (a : Bytes) (now : ℕ) (t u : FailureTracker)
    → Chronological now events
    → Alike a now t u
    → trace a t (only a events) ≡ trace a u (only a events)
unfolding trace only Chronological
only-Alike [] a now t u order h = refl
only-Alike (e ∷ events) a now t u order h =
    let next = later-Alike a now (time_of e) t u order.0 h in
    elim (Bool-cases (bytes_eq (remote_of e) a)) [
      | inl own ↦
          let s = step-Alike a e t u ((bytes_eq_iff (remote_of e) a).0 own) next in
          rw (own, trace)
            (rw (own, s.1)
              (ap (λ xs. (step u e).1 ∷ xs) (only-Alike events a (time_of e) _ _ order.1 s.0)))
      | inr other ↦ rw other (only-Alike events a (time_of e) t u order.1 next)
    ]

-- Whatever comes from `now` on, the answers to the address are the same.
pub trace-Alike :
    (events : List Event) (a : Bytes) (now : ℕ) (t u : FailureTracker)
    → Chronological now events
    → Alike a now t u
    → trace a t events ≡ trace a u events
trace-Alike events a now t u order h =
    trace-only a t events ∙ (only-Alike events a now t u order h ∙ sym (trace-only a u events))
