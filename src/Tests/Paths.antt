-- ===== src/Tests/Paths.antt =====
-- Paths, backends and pages at concrete inputs.
use sftp2s.Prelude.{
  codes, [], ◌∷◌, some, none, ◌≡◌, refl, Bytes, lookup, ◌+◌, ◌-◌, ◌⊎◌, List, All, is_empty,
  if◌then◌else◌, join, true, arith, take, drop, length, ltb, bytes_eq, Dict, put, trim, split,
}
use sftp2s.Result.{ok, eof}
use sftp2s.Path.{is_rooted, sanitize_path}
use sftp2s.Path.Clean.{Names, rooted, sanitize_path-rooted}
use sftp2s.Vfs.{at, filter, with_backend_prefixes, prefix_for, extend, star}
use sftp2s.Vfs.Chroot.{names_have, lookup-filter, session_backend, Extends}
use sftp2s.Storage.{Backend}
use sftp2s.Handlers.{resolve}
use sftp2s.Handlers.Paths.{resolve_path}
use sftp2s.Path.Walk.{walk}
use sftp2s.FileInfo.{FileInfo, new_dir_info, list_at}
use sftp2s.FileInfo.Pages.{list_at_lem, read_pages, read_pages_all}
use sftp2s.Tests.Fixtures.{docs, docs_vfs, alice}

sanitize_path-rooted_example :
    (ps : List Bytes) × All Names ps × (sanitize_path (codes "/docs/../../etc//x") ≡ ok (rooted ps))
unfolding is_rooted
sanitize_path-rooted_example = sanitize_path-rooted (codes "/docs/../../etc//x") refl

resolve_path_example : resolve alice (codes "/docs/a/../b.txt") ≡ ok (at docs (codes "b.txt"))
unfolding is_rooted walk split lookup bytes_eq join
resolve_path_example = resolve_path alice (codes "/docs/a/../b.txt") refl

abbrev names : List Bytes
names = codes "docs" ∷ codes "logs" ∷ []

lookup-filter_example : lookup (codes "docs") (filter docs_vfs names) ≡ (
    if is_empty names
    then lookup (codes "docs") docs_vfs
    else if names_have names (codes "docs")
    then lookup (codes "docs") docs_vfs
    else none)
lookup-filter_example = lookup-filter docs_vfs names (codes "docs")

abbrev prefixes : Dict Bytes
prefixes = (star, codes "/team/") ∷ []

abbrev team : Backend
team = record docs { prefix = codes "alice/team/" }

session_backend_example :
    (b : Backend) × (lookup (codes "docs") docs_vfs ≡ some b)
    × ((names ≡ []) ⊎ (names_have names (codes "docs") ≡ true))
    × Extends (prefix_for prefixes (codes "docs")) b team
unfolding filter with_backend_prefixes prefix_for extend lookup bytes_eq put trim
session_backend_example = session_backend docs_vfs names prefixes (codes "docs") team refl

abbrev infos : List FileInfo
infos = new_dir_info 0 (codes "a") ∷ new_dir_info 0 (codes "b") ∷ new_dir_info 0 (codes "c") ∷ []

list_at_lem_example :
    list_at infos 2 2 ≡ (take 2 (drop 2 infos), if ltb (length infos - 2) 2 then some eof else none)
list_at_lem_example = list_at_lem infos 2 2

read_pages_all_example : read_pages infos 2 0 (length infos + 1) ≡ some infos
read_pages_all_example = read_pages_all infos 2 (omega arith)
