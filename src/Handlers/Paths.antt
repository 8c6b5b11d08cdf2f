-- ===== src/Handlers/Paths.antt =====
-- handlers.go: what S3Handlers.resolve makes of a path that a client sends.
use sftp2s.Prelude.{◌≡◌, true, Bytes, List, [], ◌∷◌, All, lookup, join}
use sftp2s.Result.{Result, ok}
use sftp2s.Path.{slash, is_rooted, sanitize_path}
use sftp2s.Path.Clean.{Names, rooted}
use sftp2s.Path.Walk.{followed, followed-Names, sanitize_path-followed}
use sftp2s.Vfs.{Vfs, Target, root}
use sftp2s.Vfs.Paths.{found_at, resolve-root, resolve-rooted}
use sftp2s.Handlers.{Handlers, resolve}

-- What stands at the end of some segments: the root, or the backend of the first one, with the other
-- segments joined by slashes for the key.
abbrev pub reached : Vfs → List Bytes → Result Target
reached vfs [] = ok root
reached vfs (name ∷ ps) = found_at (lookup name vfs) (join slash ps)

resolve-reached :
    (h : Handlers) (p : Bytes) (ps : List Bytes)
    → All Names ps
    → sanitize_path p ≡ ok (rooted ps)
    → resolve h p ≡ reached h.vfs ps
unfolding resolve
resolve-reached h p [] names e = rw (e, resolve) (resolve-root h.vfs)
resolve-reached h p (name ∷ ps) names e = rw (e, resolve) (resolve-rooted h.vfs name ps names)

-- A path that begins with a slash is followed from the root, segment by segment: an empty one and `.`
-- stay, `..` goes up (and stays at the root), any other goes down. If it ends at the root, it leads to
-- the root of the session; else it leads to the backend that the session holds under the first segment,
-- with the other segments joined by slashes for the key, or to an error if there is none.
pub resolve_path :
    (h : Handlers) (p : Bytes) → is_rooted p ≡ true → resolve h p ≡ reached h.vfs (followed p)
resolve_path h p r =
    resolve-reached h p (followed p) (followed-Names p) (sanitize_path-followed p r)
