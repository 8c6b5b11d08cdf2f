-- ===== src/Failures/Blocks.antt =====
-- Record and IsBlocked: how long a block lasts, and that addresses do not share failures.
use sftp2s.Prelude.{
  ℕ, ◌+◌, Bool, true, false, Bytes, bytes_eq, bytes_eq_iff, bytes_eq_refl, lookup, lookup-put,
  lookup-delete, put, List, [], ◌∷◌, ◌++◌, ltb, if◌then◌else◌, ◌≡◌, refl, sym, ap, ◌∙◌, subst,
  Bool-cases, inl, inr, arith,
}
use sftp2s.Failures.Window.{counted, pruned}
use sftp2s.Failures.{
  FailureTracker, attempts_of, recent, prune_attempts, count_failure, record_failure, holds,
  is_blocked,
}

-- Behind a Record that blocks an address, the address is blocked for the block duration from then on,
-- and not longer.
pub record_failure_blocks :
    (remote : Bytes) (now later : ℕ) (t : FailureTracker)
    → (record_failure remote now t).1 ≡ true
    → (is_blocked remote later (record_failure remote now t).0).1
      ≡ ltb later (now + t.block_duration)
unfolding record_failure count_failure prune_attempts is_blocked holds
record_failure_blocks remote now later t h =
    ground
      (arith, lookup-put remote remote (now + t.block_duration) t.blocked, bytes_eq_refl remote)

-- What the server asks of a tracker: a failure, or whether an address is blocked.
pub data Event : Type 0 where
  fails asks : Bytes → ℕ → Event

unfoldable pub step : FailureTracker → Event → FailureTracker × Bool
step t (fails remote now) = record_failure remote now t
step t (asks remote now) = is_blocked remote now t

abbrev pub remote_of : Event → Bytes
remote_of (fails remote now) = remote
remote_of (asks remote now) = remote

-- The answers to one address.
unfoldable pub trace : Bytes → FailureTracker → List Event → List Bool
trace a t [] = []
trace a t (e ∷ events) =
    let r = step t e in
    let rest = trace a r.0 events in if bytes_eq (remote_of e) a then r.1 ∷ rest else rest

-- The events of one address.
unfoldable pub only : Bytes → List Event → List Event
only a [] = []
only a (e ∷ events) =
    let rest = only a events in if bytes_eq (remote_of e) a then e ∷ rest else rest

-- Two trackers with the same configuration that know the same of an address.
record Same (a : Bytes) (t u : FailureTracker) : Type 0 where
  times : attempts_of t a ≡ attempts_of u a
  until : lookup a t.blocked ≡ lookup a u.blocked
  max_attempts : t.max_attempts ≡ u.max_attempts
  window : t.window ≡ u.window
  block_duration : t.block_duration ≡ u.block_duration

prune-Same :
    (a : Bytes) (now : ℕ) (t u : FailureTracker)
    → Same a t u
    → Same a (prune_attempts a now t) (prune_attempts a now u)
unfolding prune_attempts
prune-Same a now t u h = record {
  times =
      pruned a now t
      ∙ (ap (λ w. recent w now (attempts_of t a)) h.window
          ∙ (ap (recent u.window now) h.times ∙ sym (pruned a now u)));
  until = h.until;
  max_attempts = h.max_attempts;
  window = h.window;
  block_duration = h.block_duration;
}

count-Same :
    (a : Bytes) (now : ℕ) (t u : FailureTracker)
    → Same a t u
    → Same a (count_failure a now t).0 (count_failure a now u).0
      × ((count_failure a now t).1 ≡ (count_failure a now u).1)
unfolding count_failure
count-Same a now t u h =
    let c = counted a now t in
    let d = counted a now u in
    (
      record {
        times = ground (arith, c, d, h.times, h.max_attempts);
        until = ground (
          arith,
          h.times,
          h.max_attempts,
          h.until,
          h.block_duration,
          bytes_eq_refl a,
          lookup-put a a (now + t.block_duration) t.blocked,
          lookup-put a a (now + u.block_duration) u.blocked,
        );
        max_attempts = ground (arith, h.max_attempts);
        window = ground (arith, h.window);
        block_duration = ground (arith, h.block_duration);
      },
      ground (arith, c, d, h.times, h.max_attempts),
    )

asks-Same :
    (a : Bytes) (now : ℕ) (t u : FailureTracker)
    → Same a t u
    → Same a (is_blocked a now t).0 (is_blocked a now u).0
      × ((is_blocked a now t).1 ≡ (is_blocked a now u).1)
unfolding is_blocked holds
asks-Same a now t u h = (
  record {
    times = ground (arith, h.times);
    until =
        ground (
          arith,
          h.until,
          bytes_eq_refl a,
          lookup-delete a a t.blocked,
          lookup-delete a a u.blocked,
        );
    max_attempts = ground (arith, h.max_attempts);
    window = ground (arith, h.window);
    block_duration = ground (arith, h.block_duration);
  },
  ground (arith, h.until),
)

step-Same :
    (a : Bytes) (e : Event) (t u : FailureTracker)
    → remote_of e ≡ a
    → Same a t u
    → Same a (step t e).0 (step u e).0 × ((step t e).1 ≡ (step u e).1)
unfolding step record_failure
step-Same a (fails remote now) t u same h =
    subst
      (λ r.
        Same a (count_failure r now (prune_attempts r now t)).0
          (count_failure r now (prune_attempts r now u)).0
        × ((count_failure r now (prune_attempts r now t)).1
            ≡ (count_failure r now (prune_attempts r now u)).1))
      (sym same)
      (count-Same a now (prune_attempts a now t) (prune_attempts a now u) (prune-Same a now t u h))
step-Same a (asks remote now) t u same h =
    subst
      (λ r.
        Same a (is_blocked r now t).0 (is_blocked r now u).0
        × ((is_blocked r now t).1 ≡ (is_blocked r now u).1))
      (sym same) (asks-Same a now t u h)

prune-Same_other :
    (a remote : Bytes) (now : ℕ) (t u : FailureTracker)
    → bytes_eq remote a ≡ false
    → Same a t u
    → Same a (prune_attempts remote now t) u
unfolding prune_attempts
prune-Same_other a remote now t u other h = record {
  times = ground (
    arith,
    h.times,
    lookup-delete remote a t.attempts,
    lookup-put remote a (recent t.window now (attempts_of t remote)) t.attempts,
  );
  until = h.until;
  max_attempts = h.max_attempts;
  window = h.window;
  block_duration = h.block_duration;
}

count-Same_other :
    (a remote : Bytes) (now : ℕ) (t u : FailureTracker)
    → bytes_eq remote a ≡ false
    → Same a t u
    → Same a (count_failure remote now t).0 u
unfolding count_failure
count-Same_other a remote now t u other h =
    let times = attempts_of t remote ++ now ∷ [] in
    record {
      times = ground (
        arith,
        h.times,
        lookup-delete remote a (put remote times t.attempts),
        lookup-put remote a times t.attempts,
      );
      until = ground (arith, h.until, lookup-put remote a (now + t.block_duration) t.blocked);
      max_attempts = ground (arith, h.max_attempts);
      window = ground (arith, h.window);
      block_duration = ground (arith, h.block_duration);
    }

step-Same_other :
    (a : Bytes) (e : Event) (t u : FailureTracker)
    → bytes_eq (remote_of e) a ≡ false
    → Same a t u
    → Same a (step t e).0 u
unfolding step record_failure is_blocked holds
step-Same_other a (fails remote now) t u other h =
    count-Same_other a remote now (prune_attempts remote now t) u other
      (prune-Same_other a remote now t u other h)
step-Same_other a (asks remote now) t u other h = record {
  times = ground (arith, h.times);
  until = ground (arith, h.until, lookup-delete remote a t.blocked);
  max_attempts = ground (arith, h.max_attempts);
  window = ground (arith, h.window);
  block_duration = ground (arith, h.block_duration);
}

trace-Same :
    (events : List Event) (a : Bytes) (t u : FailureTracker)
    → Same a t u
    → trace a t events ≡ trace a u (only a events)
unfolding trace only
trace-Same [] a t u h = refl
trace-Same (e ∷ events) a t u h = elim (Bool-cases (bytes_eq (remote_of e) a)) [
  | inl own ↦
      let s = step-Same a e t u ((bytes_eq_iff (remote_of e) a).0 own) h in
      rw (own, trace) (rw (own, s.1) (ap (λ xs. (step u e).1 ∷ xs) (trace-Same events a _ _ s.0)))
  | inr other ↦
      rw (other, trace) (trace-Same events a (step t e).0 u (step-Same_other a e t u other h))
]

-- What a tracker answers to one address depends on the failures and questions of that address alone:
-- those of other addresses, in any order between them, change no answer.
pub trace-only :
    (a : Bytes) (t : FailureTracker) (events : List Event)
    → trace a t events ≡ trace a t (only a events)
trace-only a t events = trace-Same events a t t (record {
  times = refl;
  until = refl;
  max_attempts = refl;
  window = refl;
  block_duration = refl;
})
