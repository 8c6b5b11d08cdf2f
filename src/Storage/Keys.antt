-- ===== src/Storage/Keys.antt =====
-- Where the keys of a backend lie: under its prefix, if that is in the form that NewBackend gives it.
use sftp2s.Prelude.{
  Bytes, [], ◌∷◌, ◌++◌, ◌≡◌, refl, ap, ◌⊎◌, inl, inr, append_assoc, append-nil, StartsWith,
  trim_suffix, trim_suffix_self, trim_suffix-append_cons, arith, trim, Bool-cases, is_empty,
  is_empty→nil,
}
use sftp2s.Storage.{Backend, slash, object_key, dir_prefix, normal_prefix, add_slash}

-- "" or a text that ends in a slash
abbrev pub NormalPrefix : Bytes → Type 0
NormalPrefix p = (p ≡ []) ⊎ ((q : Bytes) × (p ≡ q ++ slash ∷ []))

add_slash-NormalPrefix : (p : Bytes) → NormalPrefix (add_slash p)
add_slash-NormalPrefix [] = inl refl
add_slash-NormalPrefix (c ∷ s) = inr (c ∷ s, refl)

pub normal_prefix-NormalPrefix : (p : Bytes) → NormalPrefix (normal_prefix p)
unfolding normal_prefix
normal_prefix-NormalPrefix p = add_slash-NormalPrefix (trim slash p)

pub object_key_lem : (b : Backend) (rel : Bytes) → object_key b rel ≡ b.prefix ++ rel
unfolding object_key
object_key_lem b rel = ground arith

pub object_key-StartsWith : (b : Backend) (rel : Bytes) → StartsWith b.prefix (object_key b rel)
object_key-StartsWith b rel = (rel, object_key_lem b rel)

-- Behind a normal prefix only the relative path can lose its last slash.
trim_under :
    (p rel : Bytes)
    → NormalPrefix p
    → (p ≡ []) ⊎ StartsWith p (trim_suffix slash (p ++ rel) ++ slash ∷ [])
trim_under p rel (inl e) = inl e
trim_under p [] (inr (q, e)) =
    inr ([], rw (append-nil p) (rw e (ap (λ s. s ++ slash ∷ []) (trim_suffix_self slash q))))
trim_under p (x ∷ t) (inr h) = inr (
  trim_suffix slash (x ∷ t) ++ slash ∷ [],
  rw (trim_suffix-append_cons slash p x t)
      (append_assoc p (trim_suffix slash (x ∷ t)) (slash ∷ [])),
)

StartsWith-nil : (p k : Bytes) → p ≡ [] → StartsWith p k
StartsWith-nil p k e = (k, rw e)

-- A directory of the backend lies under its prefix.
pub dir_prefix-StartsWith :
    (b : Backend) (rel : Bytes) → NormalPrefix b.prefix → StartsWith b.prefix (dir_prefix b rel)
unfolding dir_prefix
dir_prefix-StartsWith b rel n = elim (Bool-cases (is_empty b.prefix)) [
  | inl bare ↦ StartsWith-nil b.prefix _ (is_empty→nil b.prefix bare)
  | inr set ↦ elim (trim_under b.prefix rel n) [
    | inl e ↦ StartsWith-nil b.prefix _ e
    | inr (rest, e) ↦ (rest, ground (arith, object_key_lem b rel))
  ]
]
