-- ===== src/FileInfo/Pages.antt =====
-- fileinfo.go: the pages of a listing that ListAt returns.
use native.Mathlib.Numerals.{unary_clauses}
use sftp2s.Prelude.{
  Bool, ℕ, zero, suc, ◌+◌, ◌-◌, ◌<◌, ◌≤◌, ◌++◌, take-append-drop, List, [], ◌∷◌, Option, none, some,
  take, drop, get_elem?, length, ltb, ◌≡◌, refl, ap, ◌∙◌, sym, arith, if◌then◌else◌, Bool-cases,
  inl, inr, true, false, length-take, length-drop,
}
use sftp2s.Result.{Error, eof}
use sftp2s.FileInfo.{FileInfo, copy_from, list_at}

drop-get_elem :
    (l : List FileInfo) (room offset : ℕ)
    → take (suc room) (drop offset l)
      ≡ elim (get_elem? l offset) [ none ↦ [] | some info ↦ info ∷ take room (drop (suc offset) l) ]
drop-get_elem [] room zero = refl
drop-get_elem [] room (suc offset) = refl
drop-get_elem (x ∷ l) room zero = refl
drop-get_elem (x ∷ l) room (suc offset) = drop-get_elem l room offset

copy_from_lem :
    (l : List FileInfo) (room offset : ℕ) → copy_from l room offset ≡ take room (drop offset l)
unfolding copy_from
copy_from_lem l zero offset = refl
copy_from_lem l (suc room) offset =
    ground (arith, copy_from_lem l room (offset + 1), drop-get_elem l room offset)

-- ListAt returns the entries from the offset on, as many as the list has places, and EOF exactly if
-- they are fewer than that.
pub list_at_lem :
    (l : List FileInfo) (size offset : ℕ)
    → (list_at l size offset
        ≡ (take size (drop offset l), if ltb (length l - offset) size then some eof else none))
unfolding list_at
list_at_lem l size offset =
    rw (copy_from_lem l size offset)
      (ground (arith, length-take size (drop offset l), length-drop offset l))

abbrev is_none : Option Error → Bool
is_none none = true
is_none (some e) = false

abbrev add_page : List FileInfo → Option (List FileInfo) → Option (List FileInfo)
add_page page none = none
add_page page (some rest) = some (page ++ rest)

-- A client that reads a listing in pages of `size` entries until EOF: none if it has not met EOF in
-- `rounds` pages.
unfoldable pub read_pages : List FileInfo → ℕ → ℕ → ℕ → Option (List FileInfo)
read_pages l size offset zero = none
read_pages l size offset (suc rounds) =
    let page = list_at l size offset in
    let rest = read_pages l size (offset + length page.0) rounds in
    if is_none page.1 then add_page page.0 rest else some page.0

take-all : (n : ℕ) (l : List FileInfo) → length l ≤ n → take n l ≡ l
take-all zero [] h = refl
take-all zero (x ∷ l) h = absurd (omega (arith, h))
take-all (suc n) [] h = refl
take-all (suc n) (x ∷ l) h = rw (take-all n l (omega (arith, h)))

drop-drop : (m n : ℕ) (l : List FileInfo) → drop m (drop n l) ≡ drop (n + m) l
drop-drop m zero l = ap (λ k. drop k l) (omega arith)
drop-drop zero (suc n) [] = simp unary_clauses refl
drop-drop (suc m) (suc n) [] = simp unary_clauses refl
drop-drop m (suc n) (x ∷ l) =
    let e : suc (n + m) ≡ suc n + m = omega arith in drop-drop m n l ∙ ap (λ k. drop k (x ∷ l)) e

read_pages-drop :
    (l : List FileInfo) (size offset rounds : ℕ)
    → 0 < size
    → length l - offset < rounds
    → read_pages l size offset rounds ≡ some (drop offset l)
unfolding read_pages
read_pages-drop l size offset zero s h = absurd (omega (arith, h))
read_pages-drop l size offset (suc rounds) s h = elim (Bool-cases (ltb (length l - offset) size)) [
  | inl last ↦
      rw (list_at_lem l size offset, last)
        (ap some (take-all size (drop offset l) (ground (arith, length-drop offset l))))
  | inr more ↦
      rw (list_at_lem l size offset, more)
        (rw (full more) (
          rw (read_pages-drop l size (offset + size) rounds s (ground arith))
            (ap some (rw (sym (drop-drop size offset l)) (take-append-drop size (drop offset l))))))
]
  where
    full : ltb (length l - offset) size ≡ false → length (take size (drop offset l)) ≡ size
    full more = ground (arith, length-take size (drop offset l), length-drop offset l)

-- A client that reads pages of any positive size one behind the other meets EOF in at most one round
-- more than there are entries, and has then read each entry of the listing once, in order.
pub read_pages_all :
    (l : List FileInfo) (size : ℕ) → 0 < size → read_pages l size 0 (length l + 1) ≡ some l
read_pages_all l size s = read_pages-drop l size 0 (length l + 1) s (omega arith)
