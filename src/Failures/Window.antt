-- ===== src/Failures/Window.antt =====
-- Record counts the failures of the last window.
use sftp2s.Prelude.{
  ℕ, ◌+◌, ◌≤◌, Bool, true, false, Bytes, bytes_eq_refl, Dict, lookup, lookup-put, lookup-delete,
  put, delete, List, [], ◌∷◌, ◌++◌, none, ltb, leb, is_empty, length, length-append, if◌then◌else◌,
  ◌≡◌, refl, sym, ap, ◌∙◌, Bool-cases, inl, inr, arith,
}
use sftp2s.Failures.{
  FailureTracker, attempts_of, or_none, recent, prune_attempts, count_failure, record_failure,
}

-- What a tracker answers to failures of one address at the given times.
unfoldable pub answers : Bytes → FailureTracker → List ℕ → List Bool
answers remote t [] = []
answers remote t (now ∷ times) =
    let r = record_failure remote now t in r.1 ∷ answers remote r.0 times

-- What it is to answer: `earlier` are the failures since the last block, all of them, and a failure
-- blocks if it is the last of `max` within a window.
unfoldable pub expected : ℕ → ℕ → List ℕ → List ℕ → List Bool
expected max window earlier [] = []
expected max window earlier (now ∷ times) =
    if leb max (length (recent window now earlier) + 1)
    then true ∷ expected max window [] times
    else false ∷ expected max window (earlier ++ now ∷ []) times

-- The times do not go back, from `last` on.
abbrev pub Ordered : ℕ → List ℕ → Type 0
Ordered last [] = Unit
Ordered last (now ∷ times) = (last ≤ now) × Ordered now times

-- What is too old for a window is too old later.
pub recent-recent :
    (window last now : ℕ) (times : List ℕ)
    → last ≤ now
    → recent window now (recent window last times) ≡ recent window now times
unfolding recent
recent-recent window last now [] h = refl
recent-recent window last now (t ∷ times) h =
    let rest = recent-recent window last now times h in
    elim (Bool-cases (ltb last (t + window))) [
      | inl kept ↦ rw kept (ground (arith, rest))
      | inr old ↦ rw old (ground (arith, rest))
    ]

recent-append :
    (window now : ℕ) (xs ys : List ℕ)
    → recent window now (xs ++ ys) ≡ recent window now xs ++ recent window now ys
unfolding recent
recent-append window now [] ys = refl
recent-append window now (x ∷ xs) ys = ground (arith, recent-append window now xs ys)

kept_lookup :
    (remote : Bytes) (kept : List ℕ) (m : Dict (List ℕ))
    → or_none (lookup remote (if is_empty kept then delete remote m else put remote kept m)) ≡ kept
kept_lookup remote [] m = ground (arith, lookup-delete remote remote m, bytes_eq_refl remote)
kept_lookup remote (x ∷ kept) m =
    ground (arith, lookup-put remote remote (x ∷ kept) m, bytes_eq_refl remote)

pub pruned :
    (remote : Bytes) (now : ℕ) (t : FailureTracker)
    → attempts_of (prune_attempts remote now t) remote ≡ recent t.window now (attempts_of t remote)
unfolding prune_attempts
pruned remote now t = kept_lookup remote (recent t.window now (attempts_of t remote)) t.attempts

-- One failure, behind the pruning: the answer, and what is left.
pub counted :
    (remote : Bytes) (now : ℕ) (t : FailureTracker)
    → ((count_failure remote now t).1 ≡ leb t.max_attempts (length (attempts_of t remote) + 1))
      × (attempts_of (count_failure remote now t).0 remote ≡ (
          if leb t.max_attempts (length (attempts_of t remote) + 1)
          then []
          else attempts_of t remote ++ now ∷ []))
unfolding count_failure
counted remote now t =
    let times = attempts_of t remote ++ now ∷ [] in
    ground (
      arith,
      length-append (attempts_of t remote) (now ∷ []),
      lookup-put remote remote times t.attempts,
      lookup-delete remote remote (put remote times t.attempts),
      bytes_eq_refl remote,
    )

-- The tracker has what matters of the earlier failures, from a time on.
Agrees : Bytes → FailureTracker → List ℕ → ℕ → Type 0
Agrees remote t earlier last =
    (now : ℕ)
    → last ≤ now
    → recent t.window now (attempts_of t remote) ≡ recent t.window now earlier

record_failure_window :
    (remote : Bytes) (now : ℕ) (t : FailureTracker)
    → ((record_failure remote now t).0.window ≡ t.window)
      × ((record_failure remote now t).0.max_attempts ≡ t.max_attempts)
unfolding record_failure count_failure prune_attempts
record_failure_window remote now t = ground arith

-- The failures since the last block, behind a failure.
abbrev since : ℕ → ℕ → List ℕ → ℕ → List ℕ
since max window earlier now =
    if leb max (length (recent window now earlier) + 1) then [] else earlier ++ now ∷ []

left_over :
    (remote : Bytes) (now last : ℕ) (t : FailureTracker) (earlier : List ℕ)
    → Agrees remote t earlier last
    → last ≤ now
    → ((record_failure remote now t).1
        ≡ leb t.max_attempts (length (recent t.window now earlier) + 1))
      × (attempts_of (record_failure remote now t).0 remote ≡ (
          if leb t.max_attempts (length (recent t.window now earlier) + 1)
          then []
          else recent t.window now earlier ++ now ∷ []))
unfolding record_failure prune_attempts Agrees
left_over remote now last t earlier a h =
    let c = counted remote now (prune_attempts remote now t) in
    let same = pruned remote now t ∙ a now h in
    (
      c.0 ∙ ap (λ xs. leb t.max_attempts (length xs + 1)) same,
      c.1 ∙ ap (λ xs. if leb t.max_attempts (length xs + 1) then [] else xs ++ now ∷ []) same,
    )

later-Agrees :
    (window now n max : ℕ) (earlier : List ℕ)
    → now ≤ n
    → recent window n (
        if leb max (length (recent window now earlier) + 1)
        then []
        else recent window now earlier ++ now ∷ [])
      ≡ recent window n (since max window earlier now)
later-Agrees window now n max earlier h =
    elim (Bool-cases (leb max (length (recent window now earlier) + 1))) [
      | inl full ↦ rw full refl
      | inr more ↦ rw more (
          recent-append window n (recent window now earlier) (now ∷ [])
          ∙ (ap (λ xs. xs ++ recent window n (now ∷ [])) (recent-recent window now n earlier h)
              ∙ sym (recent-append window n earlier (now ∷ []))))
    ]

record_failure-Agrees :
    (remote : Bytes) (now last : ℕ) (t : FailureTracker) (earlier : List ℕ)
    → Agrees remote t earlier last
    → last ≤ now
    → Agrees remote (record_failure remote now t).0 (since t.max_attempts t.window earlier now) now
unfolding Agrees
record_failure-Agrees remote now last t earlier a h n le =
    let fields = record_failure_window remote now t in
    rw (fields.0, (left_over remote now last t earlier a h).1)
      (later-Agrees t.window now n t.max_attempts earlier le)

answers-expected :
    (times : List ℕ) (remote : Bytes) (t : FailureTracker) (earlier : List ℕ) (last : ℕ)
    → Agrees remote t earlier last
    → Ordered last times
    → answers remote t times ≡ expected t.max_attempts t.window earlier times
unfolding answers expected
answers-expected [] remote t earlier last a h = refl
answers-expected (now ∷ times) remote t earlier last a h =
    let fields = record_failure_window remote now t in
    let next = record_failure-Agrees remote now last t earlier a h.0 in
    let rest =
      answers-expected times remote (record_failure remote now t).0
        (since t.max_attempts t.window earlier now) now next h.1 in
    choose (leb t.max_attempts (length (recent t.window now earlier) + 1)) refl
      (left_over remote now last t earlier a h.0).0
      (rest
        ∙ (ap
              (λ m.
                expected m (record_failure remote now t).0.window
                  (since t.max_attempts t.window earlier now) times)
              fields.1
            ∙ ap (λ w. expected t.max_attempts w (since t.max_attempts t.window earlier now) times)
                fields.0))
  where
    choose :
        (b : Bool)
        → leb t.max_attempts (length (recent t.window now earlier) + 1) ≡ b
        → (record_failure remote now t).1 ≡ b
        → answers remote (record_failure remote now t).0 times
          ≡ expected t.max_attempts t.window (if b then [] else earlier ++ now ∷ []) times
        → (record_failure remote now t).1 ∷ answers remote (record_failure remote now t).0 times ≡ (
            if b
            then true ∷ expected t.max_attempts t.window [] times
            else false ∷ expected t.max_attempts t.window (earlier ++ now ∷ []) times)
    choose true e answer rest = rw (answer, rest) refl
    choose false e answer rest = rw (answer, rest) refl

-- A tracker that knows no failure of an address answers to failures of it, at times that do not go
-- back, as expected: a failure blocks exactly if it is at least the last of the maximum number of
-- failures since the last block that lie within one window.
pub answers_lem :
    (remote : Bytes) (t : FailureTracker) (times : List ℕ)
    → lookup remote t.attempts ≡ none
    → Ordered 0 times
    → answers remote t times ≡ expected t.max_attempts t.window [] times
unfolding Agrees recent
answers_lem remote t times fresh h =
    answers-expected times remote t [] 0 (λ now le. rw fresh refl) h
