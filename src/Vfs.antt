-- ===== src/Vfs.antt =====
-- internal/vfs/vfs.go: the backends by name, and the map from SFTP paths to backends and keys.
pub mod Chroot
pub mod Resolve
pub mod Paths
pub mod Regular
use sftp2s.Prelude.{
  ℕ, Bool, Bytes, codes, is_empty, trim, split_2, Dict, lookup, put, List, [], ◌∷◌, ◌++◌, Option,
  none, some, if◌then◌else◌,
}
use sftp2s.Result.{Error, not_exist, Result, ok, err, ◌>>=◌}
use sftp2s.Storage.{Backend, BackendConfig, new_backend, slash}

-- VFS.Backends
abbrev pub Vfs : Type 0
Vfs = Dict Backend

unfoldable pub new_vfs_from :
    (BackendConfig → Result Backend) → Vfs → List BackendConfig → Result Vfs
new_vfs_from new vfs [] = ok vfs
new_vfs_from new vfs (bc ∷ rest) = do b ← new bc; new_vfs_from new (put bc.name b vfs) rest

-- NewVFS; `new` is NewBackend at what it takes from the libraries
unfoldable pub new_vfs : (BackendConfig → Result Backend) → List BackendConfig → Result Vfs
unfolding new_vfs_from
new_vfs new configs = new_vfs_from new [] configs

keep_backend : Bytes → Option Backend → Vfs → Vfs
keep_backend name none filtered = filtered
keep_backend name (some b) filtered = put name b filtered

filter_from : Vfs → Vfs → List Bytes → Vfs
unfolding keep_backend
filter_from vfs filtered [] = filtered
filter_from vfs filtered (name ∷ names) =
    filter_from vfs (keep_backend name (lookup name vfs) filtered) names

-- VFS.Filter
unfoldable pub filter : Vfs → List Bytes → Vfs
unfolding filter_from
filter vfs [] = vfs
filter vfs (name ∷ names) = filter_from vfs [] (name ∷ names)

abbrev pub star : Bytes
star = b'*' ∷ []

abbrev or_empty : Option Bytes → Bytes
or_empty none = []
or_empty (some p) = p

-- the prefix for a backend: its own entry, or that of "*", or ""
unfoldable pub prefix_for : Dict Bytes → Bytes → Bytes
prefix_for prefixes name = elim (lookup name prefixes) [
  | none ↦ or_empty (lookup star prefixes)
  | some p ↦ p
]

-- the body of the loop: `nb := *b; nb.Prefix = b.Prefix + p + "/"`, unless there is nothing to add
unfoldable pub extend : Bytes → Backend → Backend
extend p b =
    if is_empty p
    then b
    else if is_empty (trim slash p)
    then b
    else record b { prefix = b.prefix ++ trim slash p ++ slash ∷ [] }

unfoldable pub extend_all : Dict Bytes → Vfs → Vfs
unfolding prefix_for extend
extend_all prefixes [] = []
extend_all prefixes ((name, b) ∷ rest) =
    (name, extend (prefix_for prefixes name) b) ∷ extend_all prefixes rest

-- VFS.WithBackendPrefixes
unfoldable pub with_backend_prefixes : Vfs → Dict Bytes → Vfs
unfolding extend_all
with_backend_prefixes vfs [] = vfs
with_backend_prefixes vfs (p ∷ prefixes) = extend_all (p ∷ prefixes) vfs

-- VFS.WithUserPrefix
unfoldable pub with_user_prefix : Vfs → Bytes → Vfs
unfolding with_backend_prefixes
with_user_prefix vfs user_prefix =
    if is_empty user_prefix
    then vfs
    else if is_empty (trim slash user_prefix)
    then vfs
    else with_backend_prefixes vfs ((star, trim slash user_prefix) ∷ [])

-- What Resolve returns: `root` is a nil backend.
pub data Target : Type 0 where
  root : Target
  at : Backend → Bytes → Target

unfoldable pub find_backend : Option Backend → Option Bytes → Result Target
find_backend none rest = err not_exist
find_backend (some b) none = ok (at b [])
find_backend (some b) (some key) = ok (at b key)

-- VFS.Resolve
unfoldable pub resolve : Vfs → Bytes → Result Target
unfolding find_backend
resolve vfs p =
    let parts = split_2 slash (trim slash p) in
    if is_empty (trim slash p) then ok root else find_backend (lookup parts.0 vfs) parts.1
