-- ===== src/Failures/StateFile/Ends.antt =====
-- The ends of the blocks in the loops of save and load, seen by what a tracker answers later.
use sftp2s.Prelude.{
  ℕ, ◌≤◌, false, Bytes, bytes_eq, bytes_eq_iff, bytes_eq_refl, Dict, lookup, lookup-put,
  lookup-delete, delete, Distinct, delete-Distinct, [], ◌∷◌, none, some, ltb, if◌then◌else◌, ◌≡◌,
  refl, sym, ap, ◌∙◌, subst, inl, inr, Bool-cases, arith,
}
use sftp2s.Failures.{holds}
use sftp2s.Failures.StateFile.{load_blocked, drop_expired}

-- The loop of save over the blocks: `rest` are those that it has still to look at.
pub drop_expired-holds :
    (now time : ℕ) (rest blocked : Dict ℕ) (j : Bytes)
    → now ≤ time
    → Distinct rest
    → ((k : Bytes) (until : ℕ)
        → lookup k rest ≡ some until
        → holds time (lookup k blocked) ≡ ltb time until)
    → holds time (lookup j (drop_expired now rest blocked)) ≡ holds time (lookup j blocked)
unfolding drop_expired lookup
drop_expired-holds now time [] blocked j h d same = refl
drop_expired-holds now time ((remote, until) ∷ rest) blocked j h d same =
    elim (Bool-cases (ltb now until)) [
      | inl kept ↦
          rw kept
            (drop_expired-holds now time rest blocked j h d.1 (λ k u e. same k u (seen k u e)))
      | inr over ↦ rw over (
          drop_expired-holds now time rest (delete remote blocked) j h d.1
            (λ k u e. left over k u e)
          ∙ gone over)
    ]
  where
    seen :
        (k : Bytes) (u : ℕ)
        → lookup k rest ≡ some u
        → (if bytes_eq remote k then some until else lookup k rest) ≡ some u
    seen k u e = elim (Bool-cases (bytes_eq remote k)) [
      | inl hit ↦
          absurd (
            ground
              (arith, e, subst (λ r. lookup r rest ≡ none) ((bytes_eq_iff remote k).0 hit) d.0))
      | inr miss ↦ rw miss e
    ]

    first : holds time (lookup remote blocked) ≡ ltb time until
    first = same remote until (rw (bytes_eq_refl remote) refl)

    gone :
        ltb now until ≡ false
        → holds time (lookup j (delete remote blocked)) ≡ holds time (lookup j blocked)
    gone over = elim (Bool-cases (bytes_eq remote j)) [
      | inl hit ↦
          subst (λ r. holds time (lookup r (delete remote blocked)) ≡ holds time (lookup r blocked))
            ((bytes_eq_iff remote j).0 hit)
            (rw (lookup-delete remote remote blocked)
              (rw (bytes_eq_refl remote) (unfold holds in sym (first ∙ ground (arith, over, h)))))
      | inr miss ↦ rw (lookup-delete remote j blocked) (rw miss refl)
    ]

    left :
        ltb now until ≡ false
        → (k : Bytes) (u : ℕ) → lookup k rest ≡ some u
        → holds time (lookup k (delete remote blocked)) ≡ ltb time u
    left over k u e = elim (Bool-cases (bytes_eq remote k)) [
      | inl hit ↦
          absurd (
            ground
              (arith, e, subst (λ r. lookup r rest ≡ none) ((bytes_eq_iff remote k).0 hit) d.0))
      | inr miss ↦ rw (lookup-delete remote k blocked) (rw miss (same k u (seen k u e)))
    ]

pub drop_expired-Distinct :
    (now : ℕ) (rest blocked : Dict ℕ) → Distinct blocked → Distinct (drop_expired now rest blocked)
unfolding drop_expired
drop_expired-Distinct now [] blocked d = d
drop_expired-Distinct now ((remote, until) ∷ rest) blocked d = elim (Bool-cases (ltb now until)) [
  | inl kept ↦ rw kept (drop_expired-Distinct now rest blocked d)
  | inr over ↦
      rw over
        (drop_expired-Distinct now rest (delete remote blocked) (delete-Distinct remote blocked d))
]

load_blocked-absent :
    (now : ℕ) (saved blocked : Dict ℕ) (j : Bytes)
    → lookup j saved ≡ none
    → lookup j (load_blocked now saved blocked) ≡ lookup j blocked
unfolding load_blocked lookup
load_blocked-absent now [] blocked j h = refl
load_blocked-absent now ((remote, until) ∷ saved) blocked j h =
    elim (Bool-cases (bytes_eq remote j)) [
      | inl same ↦ absurd (ground (arith, h, same))
      | inr other ↦
          load_blocked-absent now saved _ j (ground (arith, h, other))
          ∙ ground (arith, other, lookup-put remote j until blocked)
    ]

pub load_blocked-holds :
    (now time : ℕ) (saved blocked : Dict ℕ) (j : Bytes)
    → now ≤ time
    → Distinct saved
    → lookup j blocked ≡ none
    → holds time (lookup j (load_blocked now saved blocked)) ≡ holds time (lookup j saved)
unfolding load_blocked lookup
load_blocked-holds now time [] blocked j h d absent = ap (holds time) absent
load_blocked-holds now time ((remote, until) ∷ saved) blocked j h d absent =
    elim (Bool-cases (bytes_eq remote j)) [
      | inl same ↦
          ap (holds time) (
            load_blocked-absent now saved _ j
              (subst (λ r. lookup r saved ≡ none) ((bytes_eq_iff remote j).0 same) d.0))
          ∙ rw same
              (unfold holds in ground (arith, same, absent, h, lookup-put remote j until blocked))
      | inr other ↦
          load_blocked-holds now time saved _ j h d.1
            (ground (arith, absent, other, lookup-put remote j until blocked))
          ∙ rw other refl
    ]
