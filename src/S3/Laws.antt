-- ===== src/S3/Laws.antt =====
-- The documented behaviour of S3 that the program relies on, over what a client can observe: the
-- content of each object, and the keys that a listing under way has still to return. A call may
-- fail at any time; a law about a call that fails says only what it leaves alone.
use sftp2s.Prelude.{
  ℕ, ◌<◌, true, false, Bytes, List, map, Option, none, some, ◌≡◌, ◌≢◌, ◌⊎◌, length, In, StartsWith,
  Lacks, is_empty,
}
use sftp2s.Result.{not_found, no_such_key, ok, err}
use sftp2s.S3.{S3, Location, Page, Head, Stream}
use sftp2s.Storage.{slash}
use sftp2s.Storage.Operations.{copy_source}

-- Another object: in another bucket, or under another key.
abbrev pub Apart : Location → Bytes → Location → Bytes → Type 0
Apart loc key l j = (l ≢ loc) ⊎ (j ≢ key)

pub record S3Laws (s3 : S3) : Type 0 where
  pub object : s3.Store → Location → Bytes → Option Bytes
  pub location_of : s3.Paginator → Location
  pub prefix_of : s3.Paginator → Bytes
  -- The keys that the pages to come list, and how many pages there are at most.
  pub pending : s3.Paginator → s3.Store → List Bytes
  pub pages_left : s3.Paginator → s3.Store → ℕ
  -- Reading changes no object.
  pub head_frame :
      (loc : Location) (key : Bytes) (s : s3.Store) (l : Location) (j : Bytes)
      → object (s3.head_object loc key s).1 l j ≡ object s l j
  pub get_frame :
      (loc : Location) (key : Bytes) (range : Option (ℕ × ℕ)) (s : s3.Store) (l : Location)
      (j : Bytes)
      → object (s3.get_object loc key range s).1 l j ≡ object s l j
  pub list_frame :
      (loc : Location) (prefix : Bytes) (d : Option ℕ) (n : ℕ) (s : s3.Store) (l : Location)
      (j : Bytes)
      → object (s3.list_objects loc prefix d n s).1 l j ≡ object s l j
  pub page_frame :
      (p : s3.Paginator) (s : s3.Store) (l : Location) (j : Bytes)
      → object (s3.next_page p s).1 l j ≡ object s l j
  -- Writing one object changes no other.
  pub put_frame :
      (loc : Location) (key body : Bytes) (s : s3.Store) (l : Location) (j : Bytes)
      → Apart loc key l j
      → object (s3.put_object loc key body s).1 l j ≡ object s l j
  pub upload_frame :
      (loc : Location) (key : Bytes) (body : Stream) (s : s3.Store) (l : Location) (j : Bytes)
      → Apart loc key l j
      → object (s3.upload loc key body s).1 l j ≡ object s l j
  pub copy_frame :
      (loc : Location) (source key : Bytes) (s : s3.Store) (l : Location) (j : Bytes)
      → Apart loc key l j
      → object (s3.copy_object loc source key s).1 l j ≡ object s l j
  pub delete_frame :
      (loc : Location) (key : Bytes) (s : s3.Store) (l : Location) (j : Bytes)
      → Apart loc key l j
      → object (s3.delete_object loc key s).1 l j ≡ object s l j
  pub delete_all_frame :
      (loc : Location) (keys : List Bytes) (s : s3.Store) (l : Location) (j : Bytes)
      → (l ≢ loc) ⊎ (¬ In j keys)
      → object (s3.delete_objects loc keys s).1 l j ≡ object s l j
  -- What an answer says.
  pub head_ok :
      (loc : Location) (key : Bytes) (s : s3.Store) (out : Head)
      → (s3.head_object loc key s).0 ≡ ok out
      → (c : Bytes) × (object s loc key ≡ some c) × (out.content_length ≡ length c)
  pub head_not_found :
      (loc : Location) (key : Bytes) (s : s3.Store)
      → (s3.head_object loc key s).0 ≡ err not_found
      → object s loc key ≡ none
  pub head_no_such_key :
      (loc : Location) (key : Bytes) (s : s3.Store)
      → (s3.head_object loc key s).0 ≡ err no_such_key
      → object s loc key ≡ none
  pub copy_ok :
      (loc : Location) (src dst : Bytes) (s : s3.Store)
      → Lacks slash loc.bucket
      → (s3.copy_object loc (copy_source loc.bucket src) dst s).0 ≡ ok tt
      → object (s3.copy_object loc (copy_source loc.bucket src) dst s).1 loc dst ≡ object s loc src
  pub delete_ok :
      (loc : Location) (key : Bytes) (s : s3.Store)
      → (s3.delete_object loc key s).0 ≡ ok tt
      → object (s3.delete_object loc key s).1 loc key ≡ none
  pub put_ok :
      (loc : Location) (key body : Bytes) (s : s3.Store)
      → (s3.put_object loc key body s).0 ≡ ok tt
      → object (s3.put_object loc key body s).1 loc key ≡ some body
  pub upload_ok :
      (loc : Location) (key bytes : Bytes) (s : s3.Store)
      → (s3.upload loc key (record { bytes = bytes; read_error = none }) s).0.result ≡ ok tt
      → object (s3.upload loc key (record { bytes = bytes; read_error = none }) s).1 loc key
        ≡ some bytes
  -- A key is gone, or stays under the errors of the response.
  pub delete_all_ok :
      (loc : Location) (keys failed : List Bytes) (s : s3.Store) (j : Bytes)
      → (s3.delete_objects loc keys s).0 ≡ ok failed
      → In j keys
      → (object (s3.delete_objects loc keys s).1 loc j ≡ none) ⊎ In j failed
  pub list_empty :
      (loc : Location) (prefix : Bytes) (d : Option ℕ) (s : s3.Store) (page : Page) (j : Bytes)
      → (s3.list_objects loc prefix d 1 s).0 ≡ ok page
      → is_empty page.common_prefixes ≡ true
      → is_empty page.contents ≡ true
      → StartsWith prefix j
      → object s loc j ≡ none
  -- A listing without a delimiter returns the keys under the prefix that hold an object. It stays
  -- the same while no object under the prefix changes.
  pub new_location :
      (loc : Location) (prefix : Bytes) → location_of (s3.new_paginator loc prefix none) ≡ loc
  pub new_prefix :
      (loc : Location) (prefix : Bytes) → prefix_of (s3.new_paginator loc prefix none) ≡ prefix
  pub new_complete :
      (loc : Location) (prefix : Bytes) (s : s3.Store) (j c : Bytes)
      → StartsWith prefix j
      → object s loc j ≡ some c
      → In j (pending (s3.new_paginator loc prefix none) s)
  pub pending_prefix :
      (p : s3.Paginator) (s : s3.Store) (j : Bytes)
      → In j (pending p s)
      → StartsWith (prefix_of p) j
  pub pending_stable :
      (p : s3.Paginator) (s t : s3.Store)
      → ((j : Bytes)
          → StartsWith (prefix_of p) j
          → object t (location_of p) j ≡ object s (location_of p) j)
      → ((j : Bytes) → In j (pending p s) → In j (pending p t)) × (pages_left p t ≡ pages_left p s)
  pub no_more_pages :
      (p : s3.Paginator) (s : s3.Store) (j : Bytes)
      → s3.has_more_pages p ≡ false
      → ¬ In j (pending p s)
  pub next_page_ok :
      (p q : s3.Paginator) (s : s3.Store) (page : Page)
      → s3.has_more_pages p ≡ true
      → (s3.next_page p s).0 ≡ ok (page, q)
      → ((j : Bytes) → In j (map (λ o. o.key) page.contents) → In j (pending p s))
        × ((j : Bytes)
            → In j (pending p s)
            → In j (map (λ o. o.key) page.contents) ⊎ In j (pending q s))
        × (pages_left q s < pages_left p s)
        × (location_of q ≡ location_of p)
        × (prefix_of q ≡ prefix_of p)
