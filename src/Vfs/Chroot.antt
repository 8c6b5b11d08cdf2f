-- ===== src/Vfs/Chroot.antt =====
-- The backends of a session: those that the user may use, each with its prefix extended.
use sftp2s.Prelude.{
  Bool, true, false, Bytes, bytes_eq, bytes_eq_iff, is_empty, trim, Dict, lookup, lookup-put, List,
  [], ◌∷◌, ◌++◌, Option, none, some, ◌≡◌, ◌⊎◌, inl, inr, refl, sym, subst, ap, ◌∙◌, Bool-cases,
  arith, if◌then◌else◌,
}
use sftp2s.Storage.{Backend, slash}
use sftp2s.Storage.Keys.{NormalPrefix}
use sftp2s.Vfs.{
  Vfs, filter, filter_from, keep_backend, extend, extend_all, prefix_for, with_backend_prefixes,
}

-- VFS.Filter

lookup-keep_backend :
    (vfs filtered : Vfs) (name j : Bytes)
    → lookup j (keep_backend name (lookup name vfs) filtered) ≡ (
        if bytes_eq name j
        then elim (lookup j vfs) [ none ↦ lookup j filtered | some b ↦ some b ]
        else lookup j filtered)
unfolding keep_backend
lookup-keep_backend vfs filtered name j = elim (Bool-cases (bytes_eq name j)) [
  | inl same ↦
      let e = (bytes_eq_iff name j).0 same in
      rw same (
        subst
          (λ n.
            lookup j (keep_backend n (lookup n vfs) filtered)
            ≡ elim (lookup j vfs) [ none ↦ lookup j filtered | some b ↦ some b ])
          (sym e) (self (lookup j vfs)))
  | inr other ↦ rw other (miss other (lookup name vfs))
]
  where
    self :
        (o : Option Backend)
        → lookup j (keep_backend j o filtered)
          ≡ elim o [ none ↦ lookup j filtered | some b ↦ some b ]
    self none = refl
    self (some b) = ground (arith, lookup-put j j b filtered, bytes_eq_iff j j)

    miss :
        bytes_eq name j ≡ false
        → (o : Option Backend) → lookup j (keep_backend name o filtered) ≡ lookup j filtered
    miss h none = refl
    miss h (some b) = ground (arith, lookup-put name j b filtered)

-- The names of the list.
pub names_have : List Bytes → Bytes → Bool
names_have [] j = false
names_have (n ∷ names) j = if bytes_eq n j then true else names_have names j

lookup-filter_from :
    (vfs filtered : Vfs) (names : List Bytes) (j : Bytes)
    → lookup j (filter_from vfs filtered names) ≡ (
        if names_have names j
        then elim (lookup j vfs) [ none ↦ lookup j filtered | some b ↦ some b ]
        else lookup j filtered)
unfolding filter_from names_have
lookup-filter_from vfs filtered [] j = refl
lookup-filter_from vfs filtered (n ∷ names) j = ground (
  arith,
  lookup-filter_from vfs (keep_backend n (lookup n vfs) filtered) names j,
  lookup-keep_backend vfs filtered n j,
)

-- A filtered VFS holds a backend under a name exactly if the name is on the list and the VFS holds
-- that backend under it; the empty list filters nothing.
pub lookup-filter :
    (vfs : Vfs) (names : List Bytes) (j : Bytes)
    → lookup j (filter vfs names)
      ≡ (if is_empty names then lookup j vfs else if names_have names j then lookup j vfs else none)
unfolding filter lookup
lookup-filter vfs [] j = refl
lookup-filter vfs (n ∷ names) j = lookup-filter_from vfs [] (n ∷ names) j ∙ ground arith

-- VFS.WithBackendPrefixes

-- How a backend of the session comes from one of the server: only the prefix differs, and it is the
-- old one extended by `p` less the slashes around it.
pub record Extends (p : Bytes) (b c : Backend) : Type 0 where
  pub name : c.name ≡ b.name
  pub location : c.location ≡ b.location
  pub prefix :
      c.prefix
      ≡ (if is_empty (trim slash p) then b.prefix else b.prefix ++ trim slash p ++ slash ∷ [])

trim-nil : is_empty (trim slash []) ≡ true
unfolding trim
trim-nil = refl

extend-Extends : (p : Bytes) (b : Backend) → Extends p b (extend p b)
unfolding extend
extend-Extends [] b = record { name = refl; location = refl; prefix = ground (arith, trim-nil) }
extend-Extends (x ∷ p) b = record {
  name = ground arith;
  location = ground arith;
  prefix = ground arith;
}

extend-nil : (b : Backend) → extend [] b ≡ b
unfolding extend
extend-nil b = refl

abbrev pub map_option {ℓ} : {A : Type ℓ} → (A → A) → Option A → Option A
map_option f none = none
map_option f (some a) = some (f a)

pub lookup-extend_all :
    (prefixes : Dict Bytes) (vfs : Vfs) (j : Bytes)
    → lookup j (extend_all prefixes vfs)
      ≡ map_option (extend (prefix_for prefixes j)) (lookup j vfs)
unfolding extend_all lookup
lookup-extend_all prefixes [] j = refl
lookup-extend_all prefixes ((name, b) ∷ vfs) j = elim (Bool-cases (bytes_eq name j)) [
  | inl same ↦
      rw same (ap (λ n. some (extend (prefix_for prefixes n) b)) ((bytes_eq_iff name j).0 same))
  | inr other ↦ rw other (lookup-extend_all prefixes vfs j)
]

no_prefixes : (o : Option Backend) → o ≡ map_option (extend []) o
no_prefixes none = refl
no_prefixes (some b) = ap some (sym (extend-nil b))

-- In a VFS with prefixes, the backend under each name is the one under that name before, with the
-- prefix for that name.
pub lookup-with_backend_prefixes :
    (vfs : Vfs) (prefixes : Dict Bytes) (j : Bytes)
    → lookup j (with_backend_prefixes vfs prefixes)
      ≡ map_option (extend (prefix_for prefixes j)) (lookup j vfs)
unfolding with_backend_prefixes
lookup-with_backend_prefixes vfs [] j = unfold prefix_for lookup in no_prefixes (lookup j vfs)
lookup-with_backend_prefixes vfs (p ∷ prefixes) j = lookup-extend_all (p ∷ prefixes) vfs j

-- The VFS that handleConn builds for a session.
abbrev pub session : Vfs → List Bytes → Dict Bytes → Vfs
session vfs allowed prefixes = with_backend_prefixes (filter vfs allowed) prefixes

map_option-some :
    {f : Backend → Backend} (o : Option Backend) {c : Backend}
    → map_option f o ≡ some c
    → (b : Backend) × (o ≡ some b) × (f b ≡ c)
map_option-some none h = absurd (ground arith)
map_option-some (some b) h = (b, refl, ground arith)

-- A backend of a session is a backend of the server that the user is allowed (every one, if the list
-- of allowed names is empty), under the same name and in the same bucket, with the prefix for that
-- name behind the server's own prefix.
pub session_backend :
    (vfs : Vfs) (allowed : List Bytes) (prefixes : Dict Bytes) (j : Bytes) (c : Backend)
    → lookup j (session vfs allowed prefixes) ≡ some c
    → (b : Backend) × (lookup j vfs ≡ some b)
      × ((allowed ≡ []) ⊎ (names_have allowed j ≡ true))
      × Extends (prefix_for prefixes j) b c
session_backend vfs allowed prefixes j c h =
    let (b, e, f) =
      map_option-some (lookup j (filter vfs allowed))
        (sym (lookup-with_backend_prefixes (filter vfs allowed) prefixes j) ∙ h) in
    let g : (if is_empty allowed
          then lookup j vfs
          else if names_have allowed j
          then lookup j vfs
          else none)
        ≡ some b =
      sym (lookup-filter vfs allowed j) ∙ e in
    (
      b,
      ground arith,
      member allowed g,
      subst (Extends (prefix_for prefixes j) b) f (extend-Extends (prefix_for prefixes j) b),
    )
  where
    member :
        (names : List Bytes) {b : Backend}
        → (if is_empty names
            then lookup j vfs
            else if names_have names j
            then lookup j vfs
            else none)
          ≡ some b
        → (names ≡ []) ⊎ (names_have names j ≡ true)
    member [] q = inl refl
    member (n ∷ names) q = inr (ground arith)

-- Its prefix is in normal form, if that of the server is.
pub Extends-NormalPrefix :
    (p : Bytes) (b c : Backend) → Extends p b c → NormalPrefix b.prefix → NormalPrefix c.prefix
Extends-NormalPrefix p b c e n = elim (Bool-cases (is_empty (trim slash p))) [
  | inl bare ↦ subst NormalPrefix (sym (e.prefix ∙ rw bare refl)) n
  | inr set ↦ inr (b.prefix ++ trim slash p, e.prefix ∙ rw set refl)
]
