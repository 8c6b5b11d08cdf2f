-- ===== src/Tests/Handlers.antt =====
-- The commands of a session at concrete inputs.
use sftp2s.Prelude.{
  some, [], put, ◌∷◌, trim_prefix, split, join, trim, lookup, split_2, trim_suffix, has_prefix,
  bytes_eq, codes, ◌≡◌, refl, Bytes, inr, arith,
}
use sftp2s.Result.{ok}
use sftp2s.Result.Action.{◌>>=◌}
use sftp2s.Permissions.{require_delete}
use sftp2s.Path.{clean}
use sftp2s.Storage.Operations
use sftp2s.Fake
use sftp2s.Vfs
use sftp2s.Storage.{object_key, dir_prefix}
use sftp2s.Vfs.{Target}
use sftp2s.Fake.Service.{fake_s3}
use sftp2s.Fake.Lawful.{fake_laws}
use sftp2s.Handlers.{
  resolve, object_exists, timed_s3_op, prefix_has_entries, delete_object, copy_object,
}
use sftp2s.Handlers.Commands.{filecmd, remove_key, command_of}
use sftp2s.Handlers.Commands.Guards.{Refused, filecmd_guarded}
use sftp2s.Handlers.Commands.Removal.{RemovedAt, filecmd_removes}
use sftp2s.Handlers.Copy.{copy_tree, same_backend_copy, same_backend_rename}
use sftp2s.Handlers.Copy.Files.{Renamed, rename_file}
use sftp2s.Handlers.Transfer.{close, write_at}
use sftp2s.Handlers.Transfer.Writes.{write_all, new_writer}
use sftp2s.Handlers.Transfer.Uploads.{in_order, joined, upload_stores}
use sftp2s.Handlers.Confinement.{Fenced}
use sftp2s.Handlers.Confinement.Requests.{filecmd_confined}
use sftp2s.Tests.Fixtures.{docs, docs_location, alice, reader_only, world, removal}
use sftp2s.Tests.Storage.{fake-DeletesAll}

abbrev bobs : Bytes
bobs = codes "bob/b.txt"

docs-Fenced : Fenced docs_location bobs docs
docs-Fenced = record { normal = inr (codes "alice", refl); away = inr (λ u. absurd (ground arith)) }

filecmd_confined_example :
    fake_laws.object (filecmd fake_s3 3 alice removal world).1.store docs_location bobs
    ≡ fake_laws.object world.store docs_location bobs
filecmd_confined_example =
    filecmd_confined fake_s3 fake_laws 3 alice removal world docs_location bobs (docs-Fenced, tt)

filecmd_guarded_example : Refused (filecmd fake_s3 3 reader_only removal) world
unfolding command_of bytes_eq
filecmd_guarded_example = filecmd_guarded fake_s3 3 reader_only removal world refl

removal_ok : (filecmd fake_s3 3 alice removal world).0 ≡ ok tt
unfolding filecmd bytes_eq ◌>>=◌ require_delete resolve split clean join Vfs.resolve trim lookup
    split_2 remove_key object_exists timed_s3_op Operations.object_exists Fake.get_object object_key
    prefix_has_entries Operations.prefix_has_entries dir_prefix trim_suffix Fake.list_objects
    has_prefix delete_object Operations.delete_object
removal_ok = refl

filecmd_removes_example :
    (t : Target) × (resolve alice removal.filepath ≡ ok t)
    × RemovedAt fake_s3 fake_laws fake-DeletesAll 3 alice t
        (filecmd fake_s3 3 alice removal world).1
unfolding command_of bytes_eq
filecmd_removes_example =
    filecmd_removes fake_s3 fake_laws fake-DeletesAll 3 alice removal world refl removal_ok

rename_ok : (same_backend_rename fake_s3 3 alice docs (codes "a.txt") (codes "c") world).0 ≡ ok tt
unfolding same_backend_rename copy_tree ◌>>=◌ object_exists timed_s3_op Operations.object_exists
    Fake.get_object object_key delete_object Operations.delete_object copy_object
    Operations.copy_object Operations.copy_source Operations.path_escape lookup bytes_eq
    Fake.copy_object Fake.after_bucket Fake.path_unescape Fake.cons_byte trim_prefix split_2
    same_backend_copy put
rename_ok = refl

rename_file_example :
    Renamed fake_s3 fake_laws 3 alice docs
      (object_key docs (codes "a.txt"))
      (object_key docs (codes "c"))
      (codes "hello")
      world
      (same_backend_rename fake_s3 3 alice docs (codes "a.txt") (codes "c") world).1
unfolding object_key lookup bytes_eq
rename_file_example =
    rename_file fake_s3 fake_laws 3 alice docs (codes "a.txt") (codes "c") (codes "hello") world
      (ground arith) refl (λ e. absurd (ground arith)) rename_ok

uploaded_ok :
    (close fake_s3
      (ok tt)
      (write_all (new_writer docs (codes "k") alice) (in_order 0 (codes "he" ∷ codes "llo" ∷ [])))
      world).0.0
    ≡ ok tt
unfolding close write_all in_order write_at
uploaded_ok = refl

upload_stores_example :
    fake_laws.object
      (close fake_s3
        (ok tt)
        (write_all (new_writer docs (codes "k") alice) (in_order 0 (codes "he" ∷ codes "llo" ∷ [])))
        world).0.1.store
      docs.location
      (codes "k")
    ≡ some (joined (codes "he" ∷ codes "llo" ∷ []))
upload_stores_example =
    upload_stores fake_s3 fake_laws docs (codes "k") alice (codes "he" ∷ codes "llo" ∷ []) world
      (inr (omega arith)) uploaded_ok
