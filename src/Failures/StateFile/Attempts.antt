-- ===== src/Failures/StateFile/Attempts.antt =====
-- The attempts in the loops of save and load, seen by what a tracker answers later.
use sftp2s.Prelude.{
  ℕ, ◌+◌, ◌≤◌, true, false, Bytes, bytes_eq, bytes_eq_iff, is_empty, Dict, lookup, lookup-put,
  lookup-delete, put, Distinct, put-Distinct, delete-Distinct, List, [], ◌∷◌, none, leb,
  if◌then◌else◌, ◌≡◌, refl, sym, ap, ◌∙◌, subst, inl, inr, Bool-cases, arith,
}
use sftp2s.Failures.{FailureTracker, attempts_of, or_none, recent, prune_attempts}
use sftp2s.Failures.Window.{recent-recent, pruned}
use sftp2s.Failures.StateFile.{valid, load_attempts, prune_all}

-- What load keeps holds all that a later window has.
pub recent-valid :
    (window now time : ℕ) (times : List ℕ)
    → now ≤ time
    → recent window time (valid window now times) ≡ recent window time times
unfolding recent valid
recent-valid window now time [] h = refl
recent-valid window now time (when ∷ times) h =
    let rest = recent-valid window now time times h in
    elim (Bool-cases (leb now (when + window))) [
      | inl kept ↦ rw kept (ground (arith, rest))
      | inr old ↦ rw old (ground (arith, rest))
    ]

-- A prune of one address at an earlier time changes no later window.
prune_attempts-recent :
    (remote j : Bytes) (now time : ℕ) (t : FailureTracker)
    → now ≤ time
    → recent t.window time (attempts_of (prune_attempts remote now t) j)
      ≡ recent t.window time (attempts_of t j)
prune_attempts-recent remote j now time t h = elim (Bool-cases (bytes_eq remote j)) [
  | inl same ↦
      subst
        (λ r.
          recent t.window time (attempts_of (prune_attempts r now t) j)
          ≡ recent t.window time (attempts_of t j))
        (sym ((bytes_eq_iff remote j).0 same))
        (rw (pruned j now t) (recent-recent t.window now time (attempts_of t j) h))
  | inr other ↦ ap (λ o. recent t.window time (or_none o)) (apart other)
]
  where
    apart :
        bytes_eq remote j ≡ false
        → lookup j (prune_attempts remote now t).attempts ≡ lookup j t.attempts
    apart other =
        unfold prune_attempts in
        ground (
          arith,
          other,
          lookup-delete remote j t.attempts,
          lookup-put remote j (recent t.window now (attempts_of t remote)) t.attempts,
        )

pub prune_all-recent :
    (now time : ℕ) (rest : Dict (List ℕ)) (t : FailureTracker) (j : Bytes)
    → now ≤ time
    → recent t.window time (attempts_of (prune_all now rest t) j)
      ≡ recent t.window time (attempts_of t j)
unfolding prune_all prune_attempts
prune_all-recent now time [] t j h = refl
prune_all-recent now time ((remote, times) ∷ rest) t j h =
    prune_all-recent now time rest (prune_attempts remote now t) j h
    ∙ prune_attempts-recent remote j now time t h

pub prune_all-Distinct :
    (now : ℕ) (rest : Dict (List ℕ)) (t : FailureTracker)
    → Distinct t.attempts
    → Distinct (prune_all now rest t).attempts
unfolding prune_all
prune_all-Distinct now [] t d = d
prune_all-Distinct now ((remote, times) ∷ rest) t d =
    prune_all-Distinct now rest (prune_attempts remote now t) (once d)
  where
    once : Distinct t.attempts → Distinct (prune_attempts remote now t).attempts
    once d =
        unfold prune_attempts in
        elim (Bool-cases (is_empty (recent t.window now (attempts_of t remote)))) [
          | inl gone ↦ rw gone (delete-Distinct remote t.attempts d)
          | inr left ↦ rw left (put-Distinct remote _ t.attempts d)
        ]

-- The settings stay.
pub record Settings (t u : FailureTracker) : Type 0 where
  pub max_attempts : u.max_attempts ≡ t.max_attempts
  pub window : u.window ≡ t.window
  pub blocks : u.blocked ≡ t.blocked

pub prune_all-Settings :
    (now : ℕ) (rest : Dict (List ℕ)) (t : FailureTracker) → Settings t (prune_all now rest t)
unfolding prune_all prune_attempts
prune_all-Settings now [] t = record { max_attempts = refl; window = refl; blocks = refl }
prune_all-Settings now ((remote, times) ∷ rest) t =
    let later = prune_all-Settings now rest (prune_attempts remote now t) in
    record { max_attempts = later.max_attempts; window = later.window; blocks = later.blocks }

-- The loop of load, at one address.
load_attempts-absent :
    (window now : ℕ) (saved attempts : Dict (List ℕ)) (j : Bytes)
    → lookup j saved ≡ none
    → lookup j (load_attempts window now saved attempts) ≡ lookup j attempts
unfolding load_attempts lookup
load_attempts-absent window now [] attempts j h = refl
load_attempts-absent window now ((remote, times) ∷ saved) attempts j h =
    elim (Bool-cases (bytes_eq remote j)) [
      | inl same ↦ absurd (ground (arith, h, same))
      | inr other ↦
          load_attempts-absent window now saved _ j (ground (arith, h, other))
          ∙ ground (arith, other, lookup-put remote j (valid window now times) attempts)
    ]

pub load_attempts-lookup :
    (window now : ℕ) (saved attempts : Dict (List ℕ)) (j : Bytes)
    → Distinct saved
    → lookup j attempts ≡ none
    → or_none (lookup j (load_attempts window now saved attempts))
      ≡ valid window now (or_none (lookup j saved))
unfolding load_attempts lookup valid
load_attempts-lookup window now [] attempts j d h = ap or_none h
load_attempts-lookup window now ((remote, times) ∷ saved) attempts j d h =
    elim (Bool-cases (bytes_eq remote j)) [
      | inl same ↦
          let absent = subst (λ r. lookup r saved ≡ none) ((bytes_eq_iff remote j).0 same) d.0 in
          ap or_none (load_attempts-absent window now saved _ j absent) ∙ rw same (stored same)
      | inr other ↦
          load_attempts-lookup window now saved _ j d.1
            (ground (arith, h, other, lookup-put remote j (valid window now times) attempts))
          ∙ rw other refl
    ]
  where
    stored :
        bytes_eq remote j ≡ true
        → or_none (
            lookup j (
              if is_empty (valid window now times)
              then attempts
              else put remote (valid window now times) attempts))
          ≡ valid window now times
    stored same = keep (valid window now times)
      where
        keep :
            (kept : List ℕ)
            → or_none (lookup j (if is_empty kept then attempts else put remote kept attempts))
              ≡ kept
        keep [] = ap or_none h
        keep (x ∷ kept) = rw (lookup-put remote j (x ∷ kept) attempts) (rw same refl)
