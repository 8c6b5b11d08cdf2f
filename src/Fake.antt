-- ===== src/Fake.antt =====
-- internal/storagetest/fake.go: the in-memory S3 service of the tests, as the S3 client sees it. The
-- XML and the HTTP headers are not modelled. A fake serves one client and looks at no bucket name,
-- so a state of the service is a fake for each location.
pub mod Frames
pub mod Answers
pub mod Listings
pub mod Service
pub mod Escapes
pub mod Lawful
use sftp2s.Prelude.{
  ℕ, zero, suc, ◌+◌, ◌-◌, ◌*◌, Bool, true, false, not, ◌&&◌, ◌||◌, Bytes, bytes_eq, has_prefix,
  trim_prefix, split_2, is_empty, Dict, lookup, put, delete, List, [], ◌∷◌, ◌++◌, map, Option, none,
  some, ltb, leb, ◌==◌, length, take, drop, if◌then◌else◌,
}
use sftp2s.Result.{Error, not_found, no_such_key, failed, Result, ok, err}
use sftp2s.S3.{S3, Location, Head, Listed, Page, Stream, Object, Uploaded}
use sftp2s.Storage.{slash}

-- FakeS3
pub record FakeS3 : Type 0 where
  pub objects : Dict Bytes
  pub fail : Bool

-- http.Response: the status, or the status with the content
pub data Response {ℓ} (A : Type ℓ) : Type ℓ where
  status : ℕ → Response A
  content : A → Response A

-- FakeS3.headObject and FakeS3.getObject
unfoldable pub get_object : FakeS3 → Bytes → Response Bytes
get_object f key = elim (lookup key f.objects) [ none ↦ status 404 | some bytes ↦ content bytes ]

-- the case DELETE of FakeS3.Do
unfoldable pub delete_object : FakeS3 → Bytes → FakeS3
delete_object f key = record f { objects = delete key f.objects }

-- FakeS3.deleteObjects
unfoldable pub delete_objects : FakeS3 → List Bytes → FakeS3
unfolding delete_object
delete_objects f [] = f
delete_objects f (key ∷ keys) = delete_objects (delete_object f key) keys

-- the case PUT of FakeS3.Do, without a copy source
unfoldable pub put_object : FakeS3 → Bytes → Bytes → FakeS3
put_object f key bytes = record f { objects = put key bytes f.objects }

-- The value of a hexadecimal digit.
unfoldable pub hex_value : ℕ → Option ℕ
hex_value c =
    if leb b'0' c && leb c b'9'
    then some (c - b'0')
    else if leb b'A' c && leb c b'F'
    then some (c - b'A' + 10)
    else if leb b'a' c && leb c b'f'
    then some (c - b'a' + 10)
    else none

unfoldable pub cons_byte : Option ℕ → Option ℕ → Option Bytes → Option Bytes
cons_byte (some hi) (some lo) (some rest) = some ((hi * 16 + lo) ∷ rest)
cons_byte _ _ _ = none

-- url.PathUnescape
unfoldable pub path_unescape : Bytes → Option Bytes
unfolding hex_value cons_byte
path_unescape [] = some []
path_unescape (c ∷ []) = if c == b'%' then none else some (c ∷ [])
path_unescape (c ∷ d ∷ []) = if c == b'%' || d == b'%' then none else some (c ∷ d ∷ [])
path_unescape (c ∷ d ∷ e ∷ s) =
    let plain : Option Bytes = elim (path_unescape (d ∷ e ∷ s)) [
      | none ↦ none
      | some rest ↦ some (c ∷ rest)
    ] in
    let escaped = cons_byte (hex_value d) (hex_value e) (path_unescape s) in
    if c == b'%' then escaped else plain

unfoldable pub copy_from : FakeS3 → Bytes → Option Bytes → Response Bytes
copy_from f dst none = status 400
copy_from f dst (some src) = get_object f src

-- FakeS3.copyObject: the answer, and the new state
unfoldable pub copied : FakeS3 → Bytes → Response Bytes → Response (Unit {0}) × FakeS3
copied f dst (status n) = (status n, f)
copied f dst (content bytes) = (content tt, put_object f dst bytes)

unfoldable pub after_bucket : Option Bytes → Option Bytes
after_bucket none = none
after_bucket (some rest) = path_unescape rest

unfoldable pub copy_object : FakeS3 → Bytes → Bytes → Response (Unit {0}) × FakeS3
unfolding copy_from copied after_bucket get_object put_object
copy_object f src dst =
    copied f dst (copy_from f dst (after_bucket (split_2 slash (trim_prefix src (slash ∷ []))).1))

-- suffix[:idx+len(delimiter)], where the delimiter occurs
unfoldable pub up_to : ℕ → Bytes → Option Bytes
up_to c [] = none
up_to c (x ∷ s) =
    let rest : Option Bytes = elim (up_to c s) [ none ↦ none | some dir ↦ some (x ∷ dir) ] in
    if x == c then some (x ∷ []) else rest

unfoldable pub has_seen : List Bytes → Bytes → Bool
has_seen [] name = false
has_seen (n ∷ seen) name = bytes_eq n name || has_seen seen name

abbrev pub add_dir : Bytes → Page → Page
add_dir dir page =
    if has_seen page.common_prefixes dir
    then page
    else record page { common_prefixes = page.common_prefixes ++ dir ∷ [] }

-- 2024-01-01T00:00:00Z
abbrev pub new_year : ℕ
new_year = 1704067200

abbrev pub add_key : Bytes → Bytes → Page → Page
add_key key bytes page = record page {
  contents =
      page.contents ++ (record { key = key; size = length bytes; last_modified = new_year }) ∷ [];
}

-- the body of the loop of FakeS3.listResponse
unfoldable pub list_one : Bytes → Option ℕ → Page → Bytes → Bytes → Page
unfolding up_to has_seen
list_one prefix delimiter page key bytes =
    if not (has_prefix key prefix) then page else elim delimiter [
      | none ↦ add_key key bytes page
      | some c ↦ elim (up_to c (trim_prefix key prefix)) [
        | none ↦ add_key key bytes page
        | some dir ↦ add_dir (prefix ++ dir) page
      ]
    ]

-- FakeS3.listResponse
unfoldable pub list_objects : Bytes → Option ℕ → Page → Dict Bytes → Page
unfolding list_one
list_objects prefix delimiter page [] = page
list_objects prefix delimiter page ((key, bytes) ∷ objects) =
    list_objects prefix delimiter (list_one prefix delimiter page key bytes) objects
