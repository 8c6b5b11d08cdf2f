-- ===== src/Fake/Listings.antt =====
-- The listings of the fakes: which keys a page holds.
use sftp2s.Prelude.{
  ℕ, Bool, true, false, ◌&&◌, Bytes, bytes_eq, bytes_eq_iff, has_prefix, has_prefix→StartsWith,
  has_prefix-append, trim_prefix, Dict, lookup, List, [], ◌∷◌, ◌++◌, map, Option, none, some, ◌≡◌,
  ◌≢◌, ◌⊎◌, inl, inr, refl, sym, subst, In, In-append_left, In-append_right, In-append_cases,
  StartsWith, Bool-cases, Option-cases, is_empty, length, arith, if◌then◌else◌,
}
use mathlib.Core.List.{map-append}
use sftp2s.S3.{Page, Listed}
use sftp2s.Fake.{list_one, list_objects, up_to, has_seen, add_key, add_dir, new_year}

abbrev pub keys_of : Page → List Bytes
keys_of page = map (λ o. o.key) page.contents

-- The key is listed under Contents.
pub listed : Bytes → Option ℕ → Bytes → Bool
listed prefix none key = has_prefix key prefix
listed prefix (some c) key =
    has_prefix key prefix
    && elim (up_to c (trim_prefix key prefix)) [ none ↦ true | some d ↦ false ]

add_key-keys :
    (key bytes : Bytes) (page : Page) → keys_of (add_key key bytes page) ≡ keys_of page ++ key ∷ []
add_key-keys key bytes page = map-append (λ (o : Listed). o.key) page.contents _

add_dir-keys : (dir : Bytes) (page : Page) → keys_of (add_dir dir page) ≡ keys_of page
add_dir-keys dir page = elim (Bool-cases (has_seen page.common_prefixes dir)) [
  | inl old ↦ rw old refl
  | inr new ↦ rw new refl
]

list_one-keys :
    (prefix : Bytes) (d : Option ℕ) (page : Page) (key bytes : Bytes)
    → keys_of (list_one prefix d page key bytes)
      ≡ (if listed prefix d key then keys_of page ++ key ∷ [] else keys_of page)
unfolding list_one listed
list_one-keys prefix none page key bytes = elim (Bool-cases (has_prefix key prefix)) [
  | inl yes' ↦ rw yes' (add_key-keys key bytes page)
  | inr no' ↦ rw no' refl
]
list_one-keys prefix (some c) page key bytes = elim (Bool-cases (has_prefix key prefix)) [
  | inr no' ↦ rw no' refl
  | inl yes' ↦ rw yes' (elim (Option-cases (up_to c (trim_prefix key prefix))) [
    | inl direct ↦ rw direct (add_key-keys key bytes page)
    | inr (dir, below) ↦ rw below (add_dir-keys (prefix ++ dir) page)
  ])
]

module _ (prefix : Bytes) (d : Option ℕ) (page : Page) (key bytes : Bytes) where
  list_one-listed :
      listed prefix d key ≡ true
      → keys_of (list_one prefix d page key bytes) ≡ keys_of page ++ key ∷ []
  list_one-listed h = ground (arith, list_one-keys prefix d page key bytes)

  list_one-unlisted :
      listed prefix d key ≡ false → keys_of (list_one prefix d page key bytes) ≡ keys_of page
  list_one-unlisted h = ground (arith, list_one-keys prefix d page key bytes)

-- The keys that a listing adds: those of the objects that are listed.
pub list_objects_sound :
    (prefix : Bytes) (d : Option ℕ) (page : Page) (objects : Dict Bytes) (j : Bytes)
    → In j (keys_of (list_objects prefix d page objects))
    → In j (keys_of page) ⊎ ((listed prefix d j ≡ true) × (lookup j objects ≢ none))
unfolding list_objects lookup
list_objects_sound prefix d page [] j i = inl i
list_objects_sound prefix d page ((key, bytes) ∷ objects) j i =
    elim (list_objects_sound prefix d (list_one prefix d page key bytes) objects j i) [
      | inr (l, found) ↦ inr (l, ground arith)
      | inl before ↦ elim (Bool-cases (listed prefix d key)) [
        | inr out ↦ inl (subst (In j) (list_one-unlisted prefix d page key bytes out) before)
        | inl new ↦
            elim (In-append_cases j (keys_of page) (key ∷ [])
              (subst (In j) (list_one-listed prefix d page key bytes new) before)) [
                | inl old ↦ inl old
                | inr (inl e) ↦ inr (
                  subst (λ x. listed prefix d x ≡ true) (sym e) new,
                  ground (arith, bytes_eq_iff key j),
                )
                | inr (inr h) ↦ absurd h
              ]
      ]
    ]

pub list_objects_complete :
    (prefix : Bytes) (d : Option ℕ) (page : Page) (objects : Dict Bytes) (j : Bytes)
    → In j (keys_of page) ⊎ ((listed prefix d j ≡ true) × (lookup j objects ≢ none))
    → In j (keys_of (list_objects prefix d page objects))
unfolding list_objects lookup
list_objects_complete prefix d page [] j (inl i) = i
list_objects_complete prefix d page [] j (inr (l, found)) = absurd (found refl)
list_objects_complete prefix d page ((key, bytes) ∷ objects) j i =
    list_objects_complete prefix d (list_one prefix d page key bytes) objects j (elim i [
      | inl old ↦ inl (kept old)
      | inr (l, found) ↦ elim (Bool-cases (bytes_eq key j)) [
        | inl hit ↦ inl (added l ((bytes_eq_iff key j).0 hit))
        | inr miss ↦ inr (l, ground arith)
      ]
    ])
  where
    kept : In j (keys_of page) → In j (keys_of (list_one prefix d page key bytes))
    kept h = elim (Bool-cases (listed prefix d key)) [
      | inl new ↦
          subst (In j) (sym (list_one-listed prefix d page key bytes new))
            (In-append_left j (keys_of page) (key ∷ []) h)
      | inr out ↦ subst (In j) (sym (list_one-unlisted prefix d page key bytes out)) h
    ]

    added : listed prefix d j ≡ true → key ≡ j → In j (keys_of (list_one prefix d page key bytes))
    added l e =
        subst (In j)
          (sym (
            list_one-listed prefix d page key bytes
              (subst (λ x. listed prefix d x ≡ true) (sym e) l)))
          (In-append_right j (keys_of page) (key ∷ []) (inl (sym e)))

pub listed-StartsWith :
    (prefix : Bytes) (d : Option ℕ) (j : Bytes) → listed prefix d j ≡ true → StartsWith prefix j
unfolding listed
listed-StartsWith prefix none j h = has_prefix→StartsWith j prefix h
listed-StartsWith prefix (some c) j h = has_prefix→StartsWith j prefix (ground arith)

pub StartsWith-listed : (prefix j : Bytes) → StartsWith prefix j → listed prefix none j ≡ true
unfolding listed
StartsWith-listed prefix j (r, e) = rw e (has_prefix-append prefix r)

abbrev pub no_entries : Page → Bool
no_entries page = is_empty page.common_prefixes && is_empty page.contents

append-not_empty {ℓ} : {A : Type ℓ} (xs : List A) (a : A) → is_empty (xs ++ a ∷ []) ≡ false
append-not_empty [] a = refl
append-not_empty (x ∷ xs) a = refl

add_key-entries : (key bytes : Bytes) (page : Page) → no_entries (add_key key bytes page) ≡ false
add_key-entries key bytes page = ground (
  arith,
  append-not_empty page.contents
      (record { key = key; size = length bytes; last_modified = new_year }),
)

has_seen-not_empty :
    (seen : List Bytes) (n : Bytes) → has_seen seen n ≡ true → is_empty seen ≡ false
unfolding has_seen
has_seen-not_empty [] n h = absurd (ground arith)
has_seen-not_empty (x ∷ seen) n h = refl

add_dir-entries : (dir : Bytes) (page : Page) → no_entries (add_dir dir page) ≡ false
add_dir-entries dir page = elim (Bool-cases (has_seen page.common_prefixes dir)) [
  | inl old ↦ rw old (ground (arith, has_seen-not_empty page.common_prefixes dir old))
  | inr new ↦ rw new (ground (arith, append-not_empty page.common_prefixes dir))
]

pub StartsWith-has_prefix : (prefix j : Bytes) → StartsWith prefix j → has_prefix j prefix ≡ true
StartsWith-has_prefix prefix j (r, e) = rw e (has_prefix-append prefix r)

-- A key under the prefix leaves an entry on the page.
list_one-entries :
    (prefix : Bytes) (d : Option ℕ) (page : Page) (key bytes : Bytes)
    → no_entries (list_one prefix d page key bytes) ≡ true
    → (no_entries page ≡ true) × (has_prefix key prefix ≡ false)
unfolding list_one
list_one-entries prefix none page key bytes h = ground (arith, add_key-entries key bytes page)
list_one-entries prefix (some c) page key bytes h =
    elim (Option-cases (up_to c (trim_prefix key prefix))) [
      | inl direct ↦ ground (arith, add_key-entries key bytes page)
      | inr (dir, below) ↦ ground (arith, add_dir-entries (prefix ++ dir) page)
    ]

pub list_objects-entries :
    (prefix : Bytes) (d : Option ℕ) (page : Page) (objects : Dict Bytes) (j : Bytes)
    → no_entries (list_objects prefix d page objects) ≡ true
    → StartsWith prefix j
    → (no_entries page ≡ true) × (lookup j objects ≡ none)
unfolding list_objects lookup
list_objects-entries prefix d page [] j h s = (h, refl)
list_objects-entries prefix d page ((key, bytes) ∷ objects) j h s =
    let rest = list_objects-entries prefix d (list_one prefix d page key bytes) objects j h s in
    let one = list_one-entries prefix d page key bytes rest.0 in
    (one.0, ground (arith, rest.1, one.1, StartsWith-has_prefix prefix j s, bytes_eq_iff key j))
