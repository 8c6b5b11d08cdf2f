-- ===== src/Storage/Operations.antt =====
-- internal/storage/operations.go, over any S3 client
use Prim.Native.Nat.{◌/◌, ◌%◌}
use sftp2s.Prelude.{
  ℕ, zero, suc, Bool, true, false, ◌||◌, ◌&&◌, not, Bytes, is_empty, List, [], ◌∷◌, ◌++◌, map, none,
  some, leb, take, drop, length, if◌then◌else◌, ◌==◌, ltb, ◌+◌, ◌-◌,
}
use sftp2s.Result.{Error, not_found, no_such_key, out_of_fuel, Result, ok, err}
use sftp2s.Result.Action.{Action, pure, fail, attempt, ◌>>=◌}
use sftp2s.S3.{S3, Head}
use sftp2s.Storage.{Backend, slash}

-- What `errors.As` finds in an error: NotFound or NoSuchKey.
unfoldable pub is_missing : Error → Bool
is_missing not_found = true
is_missing no_such_key = true
is_missing _ = false

-- The bytes that url.PathEscape leaves alone, on ASCII: letters, digits and - _ . ~ $ & + = : @
unfoldable pub is_plain : ℕ → Bool
is_plain c =
    (leb b'a' c && leb c b'z')
    || (leb b'A' c && leb c b'Z')
    || (leb b'0' c && leb c b'9')
    || c == b'-'
    || c == b'_'
    || c == b'.'
    || c == b'~'
    || c == b'$'
    || c == b'&'
    || c == b'+'
    || c == b'='
    || c == b':'
    || c == b'@'

-- An upper-case hexadecimal digit.
unfoldable pub hex_digit : ℕ → ℕ
hex_digit d = if ltb d 10 then b'0' + d else b'A' + (d - 10)

-- url.PathEscape. A number from 256 on is no byte and does not occur; it is left alone.
unfoldable pub path_escape : Bytes → Bytes
unfolding is_plain hex_digit
path_escape [] = []
path_escape (c ∷ s) =
    let rest = path_escape s in
    if is_plain c || leb 256 c
    then c ∷ rest
    else b'%' ∷ hex_digit (c / 16) ∷ hex_digit (c % 16) ∷ rest

-- fmt.Sprintf("/%s/%s", b.Bucket, url.PathEscape(srcKey))
unfoldable pub copy_source : Bytes → Bytes → Bytes
copy_source bucket key = slash ∷ bucket ++ slash ∷ path_escape key

-- for i := 0; i < len(keys); i += 1000 { keys[i:end] … }
unfoldable pub batches : ℕ → List Bytes → List (List Bytes)
batches zero keys = []
batches (suc fuel) [] = []
batches (suc fuel) (k ∷ keys) = take 1000 (k ∷ keys) ∷ batches fuel (drop 1000 (k ∷ keys))

module _ (s3 : S3) where
  open s3 use {Store, Paginator}

  -- Backend.DeleteObject
  unfoldable pub delete_object : Backend → Bytes → Action Store (Unit {0})
  delete_object b key = s3.delete_object b.location key

  -- the loop over the pages, which collects the keys; `fuel` bounds the number of pages
  unfoldable pub collect_keys : ℕ → Paginator → List Bytes → Action Store (List Bytes)
  collect_keys zero p keys = fail out_of_fuel
  collect_keys (suc fuel) p keys = elim (s3.has_more_pages p) [
    | true ↦ s3.next_page p >>= λ r. collect_keys fuel r.1 (keys ++ map (λ o. o.key) r.0.contents)
    | false ↦ pure keys
  ]

  -- the loop over the batches; what the response lists under Errors is not looked at
  unfoldable pub delete_batches : Backend → List (List Bytes) → Action Store (Unit {0})
  delete_batches b [] = pure tt
  delete_batches b (batch ∷ rest) =
      s3.delete_objects b.location batch >>= λ _. delete_batches b rest

  -- Backend.DeletePrefix
  unfoldable pub delete_prefix : ℕ → Backend → Bytes → Action Store (Unit {0})
  delete_prefix fuel b prefix = do
    keys ← collect_keys fuel (s3.new_paginator b.location prefix none) []
    delete_batches b (batches (length keys) keys)

  unfoldable pub after_head : Result Head → Action Store Bool
  after_head (ok out) = pure true
  after_head (err e) = if is_missing e then pure false else fail e

  -- Backend.ObjectExists
  unfoldable pub object_exists : Backend → Bytes → Action Store Bool
  unfolding after_head is_missing
  object_exists b key = do r ← attempt (s3.head_object b.location key); after_head r

  -- Backend.CopyObject
  unfoldable pub copy_object : Backend → Bytes → Bytes → Action Store (Unit {0})
  unfolding copy_source path_escape
  copy_object b src_key dst_key =
      s3.copy_object b.location (copy_source b.location.bucket src_key) dst_key

  -- Backend.PrefixHasEntries
  unfoldable pub prefix_has_entries : Backend → Bytes → Action Store Bool
  prefix_has_entries b prefix = do
    out ← s3.list_objects b.location prefix (some slash) 1
    pure (not (is_empty out.common_prefixes) || not (is_empty out.contents))
