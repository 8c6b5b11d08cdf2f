-- ===== src/Vfs/Regular.antt =====
-- The backends that NewVFS makes, and those of a session: each name once, each prefix in normal form.
use sftp2s.Prelude.{
  ℕ, Bytes, bytes_eq, is_empty, Dict, lookup, lookup-put, put, Distinct, put-Distinct, List, [],
  ◌∷◌, Option, none, some, ◌≡◌, subst, ap, ◌∙◌, inl, inr, Bool-cases, arith, if◌then◌else◌,
}
use sftp2s.Result.{Result, ok, >>=-eq-ok, ok-injective}
use sftp2s.Storage.{Backend, BackendConfig, new_backend, default_timeout}
use sftp2s.Storage.Keys.{NormalPrefix, normal_prefix-NormalPrefix}
use sftp2s.Vfs.{
  Vfs, new_vfs, new_vfs_from, filter, filter_from, keep_backend, extend_all, with_backend_prefixes,
}
use sftp2s.Vfs.Chroot.{
  session, session_backend, Extends-NormalPrefix, map_option, lookup-extend_all,
}

pub record Regular (vfs : Vfs) : Type 0 where
  pub distinct : Distinct vfs
  pub normal : (j : Bytes) (b : Backend) → lookup j vfs ≡ some b → NormalPrefix b.prefix

module _ (parse_duration : Bytes → Result ℕ) (load_config : BackendConfig → Result (Unit {0})) where
  new_backend-NormalPrefix :
      (bc : BackendConfig) (b : Backend)
      → new_backend parse_duration load_config bc ≡ ok b
      → NormalPrefix b.prefix
  unfolding new_backend
  new_backend-NormalPrefix bc b h =
      let (timeout, _, rest) =
        >>=-eq-ok (if is_empty bc.timeout then ok default_timeout else parse_duration bc.timeout) _
          h in
      let (_, _, made) = >>=-eq-ok (load_config bc) _ rest in
      subst NormalPrefix (ap (λ c. c.prefix) (ok-injective made))
        (normal_prefix-NormalPrefix bc.prefix)

  put-Regular :
      (name : Bytes) (b : Backend) (vfs : Vfs)
      → NormalPrefix b.prefix
      → Regular vfs
      → Regular (put name b vfs)
  put-Regular name b vfs n r = record {
    distinct = put-Distinct name b vfs r.distinct;
    normal = λ j c e. elim (Bool-cases (bytes_eq name j)) [
      | inl same ↦
          let kept : b ≡ c = ground (arith, lookup-put name j b vfs, e, same) in
          subst (λ (d : Backend). NormalPrefix d.prefix) kept n
      | inr other ↦ r.normal j c (ground (arith, lookup-put name j b vfs, e, other))
    ];
  }

  new_vfs_from-Regular :
      (configs : List BackendConfig) (vfs out : Vfs)
      → Regular vfs
      → new_vfs_from (new_backend parse_duration load_config) vfs configs ≡ ok out
      → Regular out
  unfolding new_vfs_from
  new_vfs_from-Regular [] vfs out r h = subst Regular (ok-injective h) r
  new_vfs_from-Regular (bc ∷ rest) vfs out r h =
      let (b, made, later) = >>=-eq-ok (new_backend parse_duration load_config bc) _ h in
      new_vfs_from-Regular rest (put bc.name b vfs) out
        (put-Regular bc.name b vfs (new_backend-NormalPrefix bc b made) r) later

  pub new_vfs-Regular :
      (configs : List BackendConfig) (vfs : Vfs)
      → new_vfs (new_backend parse_duration load_config) configs ≡ ok vfs
      → Regular vfs
  unfolding new_vfs lookup
  new_vfs-Regular configs vfs h =
      new_vfs_from-Regular configs [] vfs
        (record { distinct = tt; normal = λ j b e. absurd (ground arith) }) h

keep_backend-Distinct :
    (name : Bytes) (o : Option Backend) (filtered : Vfs)
    → Distinct filtered
    → Distinct (keep_backend name o filtered)
unfolding keep_backend
keep_backend-Distinct name none filtered d = d
keep_backend-Distinct name (some b) filtered d = put-Distinct name b filtered d

filter_from-Distinct :
    (vfs filtered : Vfs) (names : List Bytes)
    → Distinct filtered
    → Distinct (filter_from vfs filtered names)
unfolding filter_from
filter_from-Distinct vfs filtered [] d = d
filter_from-Distinct vfs filtered (name ∷ names) d =
    filter_from-Distinct vfs (keep_backend name (lookup name vfs) filtered) names
      (keep_backend-Distinct name (lookup name vfs) filtered d)

filter-Distinct : (vfs : Vfs) (names : List Bytes) → Distinct vfs → Distinct (filter vfs names)
unfolding filter
filter-Distinct vfs [] d = d
filter-Distinct vfs (name ∷ names) d = filter_from-Distinct vfs [] (name ∷ names) tt

extend_all-Distinct :
    (prefixes : Dict Bytes) (vfs : Vfs) → Distinct vfs → Distinct (extend_all prefixes vfs)
unfolding extend_all
extend_all-Distinct prefixes [] d = tt
extend_all-Distinct prefixes ((name, b) ∷ vfs) d = (
  lookup-extend_all prefixes vfs name ∙ ap (map_option _) d.0,
  extend_all-Distinct prefixes vfs d.1,
)

session-Distinct :
    (vfs : Vfs) (allowed : List Bytes) (prefixes : Dict Bytes)
    → Distinct vfs
    → Distinct (session vfs allowed prefixes)
unfolding with_backend_prefixes
session-Distinct vfs allowed [] d = filter-Distinct vfs allowed d
session-Distinct vfs allowed (p ∷ prefixes) d =
    extend_all-Distinct (p ∷ prefixes) (filter vfs allowed) (filter-Distinct vfs allowed d)

pub session-Regular :
    (vfs : Vfs) (allowed : List Bytes) (prefixes : Dict Bytes)
    → Regular vfs
    → Regular (session vfs allowed prefixes)
session-Regular vfs allowed prefixes r = record {
  distinct = session-Distinct vfs allowed prefixes r.distinct;
  normal = λ j c e.
      let (b, found, _, x) = session_backend vfs allowed prefixes j c e in
      Extends-NormalPrefix _ b c x (r.normal j b found);
}
