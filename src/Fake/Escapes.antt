-- ===== src/Fake/Escapes.antt =====
-- A copy source names the key that it was made from.
use Prim.Native.Nat.{◌/◌, ◌%◌}
use sftp2s.Prelude.{
  ℕ, ◌<◌, true, ◌||◌, Bytes, Lacks, [], ◌∷◌, ◌++◌, some, ◌≡◌, ◌≢◌, refl, Bool-cases, inl, inr, leb,
  trim_prefix, trim_prefix-append, split_2, split_2-append, arith,
}
use sftp2s.Storage.{slash}
use sftp2s.Storage.Operations.{is_plain, hex_digit, path_escape, copy_source}
use sftp2s.Fake.{hex_value, cons_byte, path_unescape, after_bucket}

hex_value-hex_digit : (d : ℕ) → d < 16 → hex_value (hex_digit d) ≡ some d
unfolding hex_value hex_digit
hex_value-hex_digit d h = ground arith

plain_percent : (c : ℕ) → is_plain c ≡ true → c ≢ b'%'
unfolding is_plain
plain_percent c h e = absurd (ground arith)

unescape_plain :
    (c : ℕ) (r s : Bytes)
    → c ≢ b'%'
    → path_unescape r ≡ some s
    → path_unescape (c ∷ r) ≡ some (c ∷ s)
unfolding path_unescape
unescape_plain c [] s h e = ground arith
unescape_plain c (d ∷ []) s h e = ground arith
unescape_plain c (d ∷ x ∷ r) s h e = ground arith

unescape_code :
    (c : ℕ) (r s : Bytes)
    → c < 256
    → path_unescape r ≡ some s
    → path_unescape (b'%' ∷ hex_digit (c / 16) ∷ hex_digit (c % 16) ∷ r) ≡ some (c ∷ s)
unfolding path_unescape cons_byte
unescape_code c r s h e =
    ground (
      arith,
      hex_value-hex_digit (c / 16) (omega arith),
      hex_value-hex_digit (c % 16) (omega arith),
    )

-- PathUnescape undoes PathEscape.
pub unescape-escape : (s : Bytes) → path_unescape (path_escape s) ≡ some s
unfolding path_escape
unescape-escape [] = unfold path_unescape in refl
unescape-escape (c ∷ s) = elim (Bool-cases (is_plain c || leb 256 c)) [
  | inl plain ↦
      rw plain (unescape_plain c _ s (ground (arith, plain_percent c)) (unescape-escape s))
  | inr coded ↦ rw coded (unescape_code c _ s (ground arith) (unescape-escape s))
]

-- The copy source that CopyObject makes of a bucket and a key, parsed as the in-memory service does
-- it, gives the key again, whatever bytes it holds, if the name of the bucket has no slash.
pub copy_source_key :
    (bucket key : Bytes)
    → Lacks slash bucket
    → after_bucket (split_2 slash (trim_prefix (copy_source bucket key) (slash ∷ []))).1 ≡ some key
unfolding copy_source after_bucket
copy_source_key bucket key h =
    rw (trim_prefix-append (slash ∷ []) (bucket ++ slash ∷ path_escape key))
      (rw (split_2-append slash bucket (path_escape key) h) (unescape-escape key))
