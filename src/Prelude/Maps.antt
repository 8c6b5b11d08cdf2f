-- ===== src/Prelude/Maps.antt =====
-- Go's maps with string keys. A key is looked up at its first entry; writing a key replaces it.
use mathlib.Core.Path.{◌≡◌, refl, subst}
use mathlib.Core.Logic.{inl, inr}
use mathlib.Core.Option.{Option, none, some}
use mathlib.Core.List.{List, [], ◌∷◌}
use native.Mathlib.Omega.{arith}
use sftp2s.Prelude.Tests.{if◌then◌else◌, Bool-cases}
use sftp2s.Prelude.Lists.{All}
use sftp2s.Prelude.Text.{Bytes, bytes_eq, bytes_eq_iff, bytes_eq_refl}

abbrev pub Dict {ℓ} : Type ℓ → Type ℓ
Dict V = List (Bytes × V)

module _ {ℓ} {V : Type ℓ} where
  -- v, ok := m[k]
  unfoldable pub lookup : Bytes → Dict V → Option V
  lookup k [] = none
  lookup k ((j, v) ∷ m) = if bytes_eq j k then some v else lookup k m

  -- m[k] = v
  unfoldable pub put : Bytes → V → Dict V → Dict V
  put k v [] = (k, v) ∷ []
  put k v ((j, w) ∷ m) = if bytes_eq j k then (k, v) ∷ m else (j, w) ∷ put k v m

  -- delete(m, k)
  unfoldable pub delete : Bytes → Dict V → Dict V
  delete k [] = []
  delete k ((j, v) ∷ m) = let rest = delete k m in if bytes_eq j k then rest else (j, v) ∷ rest

  pub lookup-put :
      (k j : Bytes) (v : V) (m : Dict V)
      → lookup j (put k v m) ≡ (if bytes_eq k j then some v else lookup j m)
  unfolding lookup put
  lookup-put k j v [] = refl
  lookup-put k j v ((i, w) ∷ m) =
      ground (arith, bytes_eq_iff k j, bytes_eq_iff i k, bytes_eq_iff i j, lookup-put k j v m)

  pub lookup-delete :
      (k j : Bytes) (m : Dict V)
      → lookup j (delete k m) ≡ (if bytes_eq k j then none else lookup j m)
  unfolding lookup delete
  lookup-delete k j [] = ground arith
  lookup-delete k j ((i, w) ∷ m) =
      ground (arith, bytes_eq_iff k j, bytes_eq_iff i k, bytes_eq_iff i j, lookup-delete k j m)

  pub lookup-put_self : (k : Bytes) (v : V) (m : Dict V) → lookup k (put k v m) ≡ some v
  lookup-put_self k v m = simp (lookup-put, bytes_eq_refl)

  pub lookup-delete_self : (k : Bytes) (m : Dict V) → lookup k (delete k m) ≡ none
  lookup-delete_self k m = simp (lookup-delete, bytes_eq_refl)

-- No key stands twice.
abbrev pub Distinct : {V : Type 0} → Dict V → Type 0
Distinct [] = Unit
Distinct ((k, v) ∷ m) = (lookup k m ≡ none) × Distinct m

pub put-Distinct : {V : Type 0} (k : Bytes) (v : V) (m : Dict V) → Distinct m → Distinct (put k v m)
unfolding put lookup
put-Distinct k v [] h = (refl, tt)
put-Distinct k v ((j, w) ∷ m) h = elim (Bool-cases (bytes_eq j k)) [
  | inl same ↦ rw same (subst (λ i. lookup i m ≡ none) ((bytes_eq_iff j k).0 same) h.0, h.1)
  | inr other ↦ rw other (
    ground (arith, h, lookup-put k j v m, bytes_eq_iff j k, bytes_eq_iff k j),
    put-Distinct k v m h.1,
  )
]

pub delete-Distinct : {V : Type 0} (k : Bytes) (m : Dict V) → Distinct m → Distinct (delete k m)
unfolding delete
delete-Distinct k [] h = tt
delete-Distinct k ((j, w) ∷ m) h = elim (Bool-cases (bytes_eq j k)) [
  | inl same ↦ rw same (delete-Distinct k m h.1)
  | inr other ↦ rw other (ground (arith, h, lookup-delete k j m), delete-Distinct k m h.1)
]

-- Every value, where every value that is found.
pub All-of_lookup :
    {V : Type 0} (P : V → Type 0) (m : Dict V)
    → Distinct m
    → ((k : Bytes) (v : V) → lookup k m ≡ some v → P v)
    → All (λ e. P e.1) m
unfolding lookup
All-of_lookup P [] d h = tt
All-of_lookup {V} P ((k, v) ∷ m) d h =
    (h k v (ground (arith, bytes_eq_refl k)), All-of_lookup P m d.1 (λ j w e. h j w (shown j w e)))
  where
    shown : (j : Bytes) (w : V) → lookup j m ≡ some w → lookup j ((k, v) ∷ m) ≡ some w
    shown j w e = elim (Bool-cases (bytes_eq k j)) [
      | inl same ↦
          absurd (ground (arith, e, subst (λ i. lookup i m ≡ none) ((bytes_eq_iff k j).0 same) d.0))
      | inr other ↦ ground (arith, e, other)
    ]

pub ruleset dict_laws = (lookup-put, lookup-delete)
