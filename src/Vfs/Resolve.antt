-- ===== src/Vfs/Resolve.antt =====
-- What Resolve returns.
use sftp2s.Prelude.{
  Bytes, bytes_eq, lookup, [], ◌∷◌, ◌≡◌, subst, Option, some, Option-cases, Bool-cases, inl, inr,
  All, is_empty, trim, split_2, arith,
}
use sftp2s.Result.{ok}
use sftp2s.Storage.{Backend, slash}
use sftp2s.Vfs.{Vfs, at, resolve, find_backend}

-- A predicate of all backends holds of one that is found.
pub lookup-All :
    (P : Backend → Type 0) (name : Bytes) (vfs : Vfs) (b : Backend)
    → All (λ e. P e.1) vfs
    → lookup name vfs ≡ some b
    → P b
unfolding lookup
lookup-All P name [] b h e = absurd (ground arith)
lookup-All P name ((j, c) ∷ vfs) b h e = elim (Bool-cases (bytes_eq j name)) [
  | inl hit ↦ subst P (ground arith) h.0
  | inr miss ↦ lookup-All P name vfs b h.1 (ground arith)
]

find_backend-All :
    (P : Backend → Type 0) (vfs : Vfs) (name : Bytes) (rest : Option Bytes) (b : Backend)
    (key : Bytes)
    → All (λ e. P e.1) vfs
    → find_backend (lookup name vfs) rest ≡ ok (at b key)
    → P b
unfolding find_backend
find_backend-All P vfs name rest b key h e = elim (Option-cases (lookup name vfs)) [
  | inl missing ↦ absurd (ground arith)
  | inr (c, found) ↦ lookup-All P name vfs b h (ground arith)
]

-- The backend of a resolved path is one of the backends.
pub resolve-All :
    (P : Backend → Type 0) (vfs : Vfs) (p : Bytes) (b : Backend) (key : Bytes)
    → All (λ e. P e.1) vfs
    → resolve vfs p ≡ ok (at b key)
    → P b
unfolding resolve
resolve-All P vfs p b key h e = elim (Bool-cases (is_empty (trim slash p))) [
  | inl bare ↦ absurd (ground arith)
  | inr set ↦
      find_backend-All P vfs (split_2 slash (trim slash p)).0 (split_2 slash (trim slash p)).1 b key
        h (ground arith)
]
