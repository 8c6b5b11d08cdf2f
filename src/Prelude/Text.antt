-- ===== src/Prelude/Text.antt =====
-- Byte strings and the functions of Go's package strings that the program calls.
use Prim.Native.Nat.{ℕ, ◌+◌}
use Prim.Native.Char.{code}
use Prim.Native.String.{String}
use mathlib.Core.Path.{◌≡◌, refl}
use mathlib.Core.Logic.{◌↔◌, ◌≢◌}
use mathlib.Core.Bool.{Bool, true, false, ◌&&◌, ◌||◌}
use mathlib.Core.Option.{Option, none, some}
use mathlib.Core.List.{List, [], ◌∷◌, ◌++◌}
use native.Mathlib.Omega.{arith}
use sftp2s.Prelude.Lists.{is_empty}
use sftp2s.Prelude.Tests.{◌==◌, leb, ltb, if◌then◌else◌}

abbrev pub Bytes : Type 0
Bytes = List ℕ

-- The code points of a literal: its bytes, since every literal of the program is ASCII.
abbrev pub codes : String → Bytes
codes String.[] = []
codes (String.◌∷◌ c s) = code c ∷ codes s

-- s == t
unfoldable pub bytes_eq : Bytes → Bytes → Bool
bytes_eq [] [] = true
bytes_eq (x ∷ xs) (y ∷ ys) = x == y && bytes_eq xs ys
bytes_eq _ _ = false

pub bytes_eq_iff : (s t : Bytes) → (bytes_eq s t ≡ true) ↔ (s ≡ t)
unfolding bytes_eq
bytes_eq_iff [] [] = ground arith
bytes_eq_iff [] (y ∷ ys) = ground arith
bytes_eq_iff (x ∷ xs) [] = ground arith
bytes_eq_iff (x ∷ xs) (y ∷ ys) = ground (arith, bytes_eq_iff xs ys)

pub bytes_eq_refl : (s : Bytes) → bytes_eq s s ≡ true
bytes_eq_refl s = (bytes_eq_iff s s).1 refl

-- strings.HasPrefix
unfoldable pub has_prefix : Bytes → Bytes → Bool
has_prefix s [] = true
has_prefix [] (y ∷ p) = false
has_prefix (x ∷ s) (y ∷ p) = x == y && has_prefix s p

-- What is left of `s` behind `p`, or `s` where `p` is no prefix of it: the recursion of TrimPrefix.
unfoldable pub cut_prefix : Bytes → Bytes → Option Bytes
cut_prefix s [] = some s
cut_prefix [] (y ∷ p) = none
cut_prefix (x ∷ s) (y ∷ p) = let rest = cut_prefix s p in if x == y then rest else none

-- strings.TrimPrefix
unfoldable pub trim_prefix : Bytes → Bytes → Bytes
unfolding cut_prefix
trim_prefix s p = elim (cut_prefix s p) [ none ↦ s | some rest ↦ rest ]

-- strings.TrimSuffix(s, c), for a text `c` of one byte
unfoldable pub trim_suffix : ℕ → Bytes → Bytes
trim_suffix c [] = []
trim_suffix c (x ∷ []) = if x == c then [] else x ∷ []
trim_suffix c (x ∷ y ∷ s) = x ∷ trim_suffix c (y ∷ s)

unfoldable pub trim_left : (ℕ → Bool) → Bytes → Bytes
trim_left p [] = []
trim_left p (x ∷ s) = let rest = trim_left p s in if p x then rest else x ∷ s

unfoldable pub trim_right : (ℕ → Bool) → Bytes → Bytes
trim_right p [] = []
trim_right p (x ∷ s) = let rest = trim_right p s in if p x && is_empty rest then [] else x ∷ rest

-- strings.TrimFunc
unfoldable pub trim_by : (ℕ → Bool) → Bytes → Bytes
unfolding trim_left trim_right
trim_by p s = trim_right p (trim_left p s)

-- strings.Trim(s, c), for a cutset of one byte
unfoldable pub trim : ℕ → Bytes → Bytes
unfolding trim_by
trim c = trim_by (λ x. x == c)

-- the blanks of ASCII: \t \n \v \f \r and the space
abbrev pub is_blank : ℕ → Bool
is_blank c = (leb 9 c && leb c 13) || c == 32

-- strings.TrimSpace, on ASCII
unfoldable pub trim_space : Bytes → Bytes
unfolding trim_by
trim_space = trim_by is_blank

abbrev pub push_head : ℕ → List Bytes → List Bytes
push_head x [] = (x ∷ []) ∷ []
push_head x (p ∷ ps) = (x ∷ p) ∷ ps

-- strings.Split(s, c), for a separator of one byte
unfoldable pub split : ℕ → Bytes → List Bytes
split c [] = [] ∷ []
split c (x ∷ s) = let rest = split c s in if x == c then [] ∷ rest else push_head x rest

-- strings.SplitN(s, c, 2): the part before the first separator, and the rest where there is one
unfoldable pub split_2 : ℕ → Bytes → Bytes × Option Bytes
split_2 c [] = ([], none)
split_2 c (x ∷ s) = let rest = split_2 c s in if x == c then ([], some s) else (x ∷ rest.0, rest.1)

-- strings.Contains(s, c), for a text `c` of one byte
unfoldable pub contains_byte : ℕ → Bytes → Bool
contains_byte c [] = false
contains_byte c (x ∷ s) = x == c || contains_byte c s

-- strings.ToLower, on ASCII
unfoldable pub to_lower : Bytes → Bytes
to_lower [] = []
to_lower (c ∷ s) = (if leb b'A' c && leb c b'Z' then c + 32 else c) ∷ to_lower s

-- The parts joined by the separator.
unfoldable pub join : ℕ → List Bytes → Bytes
join c [] = []
join c (p ∷ []) = p
join c (p ∷ q ∷ ps) = p ++ c ∷ join c (q ∷ ps)

abbrev pub Lacks : ℕ → Bytes → Type 0
Lacks c [] = Unit
Lacks c (x ∷ s) = (x ≢ c) × Lacks c s

-- s < t, byte by byte
unfoldable pub bytes_lt : Bytes → Bytes → Bool
bytes_lt s [] = false
bytes_lt [] (y ∷ t) = true
bytes_lt (x ∷ s) (y ∷ t) = ltb x y || (x == y && bytes_lt s t)

-- The text `k` begins with `p`.
abbrev pub StartsWith : Bytes → Bytes → Type 0
StartsWith p k = (rest : Bytes) × (k ≡ p ++ rest)
