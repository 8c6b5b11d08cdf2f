-- ===== src/Prelude/Prefixes.antt =====
-- Prefixes, and what the functions of package strings make of them.
use Prim.Native.Nat.{ℕ}
use mathlib.Core.Path.{◌≡◌, refl, ap, ◌∙◌}
use mathlib.Core.Logic.{inl, inr, ◌≢◌}
use mathlib.Core.Bool.{true, false}
use mathlib.Core.Option.{none, some}
use mathlib.Core.List.{List, [], ◌∷◌, ◌++◌, append_assoc}
use native.Mathlib.Omega.{arith}
use sftp2s.Prelude.Lists.{All}
use sftp2s.Prelude.Tests.{◌==◌, Bool-cases}
use sftp2s.Prelude.Text.{
  Bytes, StartsWith, Lacks, has_prefix, trim_prefix, cut_prefix, trim_suffix, split_2,
  contains_byte, split, push_head, join,
}

pub has_prefix→StartsWith : (k p : Bytes) → has_prefix k p ≡ true → StartsWith p k
unfolding has_prefix
has_prefix→StartsWith k [] h = (k, refl)
has_prefix→StartsWith [] (y ∷ p) h = absurd (ground arith)
has_prefix→StartsWith (x ∷ k) (y ∷ p) h =
    let r = has_prefix→StartsWith k p (ground arith) in (r.0, ground arith)

pub has_prefix-append : (p r : Bytes) → has_prefix (p ++ r) p ≡ true
unfolding has_prefix
has_prefix-append [] [] = refl
has_prefix-append [] (x ∷ r) = refl
has_prefix-append (y ∷ p) r = ground (arith, has_prefix-append p r)

cut_prefix-append : (p r : Bytes) → cut_prefix (p ++ r) p ≡ some r
unfolding cut_prefix
cut_prefix-append [] [] = refl
cut_prefix-append [] (x ∷ r) = refl
cut_prefix-append (y ∷ p) r = ground (arith, cut_prefix-append p r)

-- What stands behind the prefix.
pub trim_prefix-append : (p r : Bytes) → trim_prefix (p ++ r) p ≡ r
unfolding trim_prefix
trim_prefix-append p r = ground (arith, cut_prefix-append p r)

pub StartsWith-trans : (p q k : Bytes) → StartsWith p q → StartsWith q k → StartsWith p k
StartsWith-trans p q k (r, e) (t, d) = (r ++ t, d ∙ ap (λ x. x ++ t) e ∙ append_assoc p r t)

-- At the first separator.
pub split_2-append : (c : ℕ) (s r : Bytes) → Lacks c s → split_2 c (s ++ c ∷ r) ≡ (s, some r)
unfolding split_2
split_2-append c [] r h = ground arith
split_2-append c (x ∷ s) r h = ground (arith, split_2-append c s r h.1)

pub split_2-Lacks : (c : ℕ) (s : Bytes) → Lacks c s → split_2 c s ≡ (s, none)
unfolding split_2
split_2-Lacks c [] h = refl
split_2-Lacks c (x ∷ s) h = ground (arith, split_2-Lacks c s h.1)

pub contains_byte-Lacks : (c : ℕ) (s : Bytes) → contains_byte c s ≡ false → Lacks c s
unfolding contains_byte
contains_byte-Lacks c [] h = tt
contains_byte-Lacks c (x ∷ s) h = (ground arith, contains_byte-Lacks c s (ground arith))

-- Only the last byte can go, and behind a last part only one of that part.
pub trim_suffix-append_cons :
    (c : ℕ) (s : Bytes) (x : ℕ) (t : Bytes)
    → trim_suffix c (s ++ x ∷ t) ≡ s ++ trim_suffix c (x ∷ t)
unfolding trim_suffix
trim_suffix-append_cons c [] x t = refl
trim_suffix-append_cons c (y ∷ []) x t = refl
trim_suffix-append_cons c (y ∷ z ∷ s) x t = ap (◌∷◌ y) (trim_suffix-append_cons c (z ∷ s) x t)

pub trim_suffix_self : (c : ℕ) (s : Bytes) → trim_suffix c (s ++ c ∷ []) ≡ s
unfolding trim_suffix
trim_suffix_self c [] = ground arith
trim_suffix_self c (x ∷ []) = ground arith
trim_suffix_self c (x ∷ y ∷ s) = ap (◌∷◌ x) (trim_suffix_self c (y ∷ s))

-- The parts of a split hold no separator.
push_head-Lacks :
    (c x : ℕ) (ps : List Bytes) → x ≢ c → All (Lacks c) ps → All (Lacks c) (push_head x ps)
push_head-Lacks c x [] ne h = ((ne, tt), tt)
push_head-Lacks c x (p ∷ ps) ne h = ((ne, h.0), h.1)

pub split-Lacks : (c : ℕ) (s : Bytes) → All (Lacks c) (split c s)
unfolding split
split-Lacks c [] = (tt, tt)
split-Lacks c (x ∷ s) = elim (Bool-cases (x == c)) [
  | inl sep ↦ rw sep (tt, split-Lacks c s)
  | inr other ↦ rw other (push_head-Lacks c x (split c s) (ground arith) (split-Lacks c s))
]

split-Lacks_self : (c : ℕ) (p : Bytes) → Lacks c p → split c p ≡ p ∷ []
unfolding split
split-Lacks_self c [] h = refl
split-Lacks_self c (x ∷ p) h = ground (arith, split-Lacks_self c p h.1)

split-append : (c : ℕ) (p r : Bytes) → Lacks c p → split c (p ++ c ∷ r) ≡ p ∷ split c r
unfolding split
split-append c [] r h = ground arith
split-append c (x ∷ p) r h = ground (arith, split-append c p r h.1)

-- Joining and splitting again gives the parts.
pub split-join :
    (c : ℕ) (p : Bytes) (ps : List Bytes)
    → All (Lacks c) (p ∷ ps)
    → split c (join c (p ∷ ps)) ≡ p ∷ ps
unfolding join
split-join c p [] h = split-Lacks_self c p h.0
split-join c p (q ∷ ps) h =
    split-append c p (join c (q ∷ ps)) h.0 ∙ ap (◌∷◌ p) (split-join c q ps h.1)

pub split-cons_sep : (c : ℕ) (s : Bytes) → split c (c ∷ s) ≡ [] ∷ split c s
unfolding split
split-cons_sep c s = ground arith
