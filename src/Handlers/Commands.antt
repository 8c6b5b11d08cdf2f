-- ===== src/Handlers/Commands.antt =====
-- handlers.go: Filecmd, the requests that change the tree
pub mod Guards
pub mod Removal
use sftp2s.Prelude.{
  ℕ, Bool, true, false, ◌&&◌, ◌||◌, not, Bytes, bytes_eq, is_empty, codes, if◌then◌else◌, [],
}
use sftp2s.Result.{message, not_exist, op_unsupported}
use sftp2s.Result.Action.{Action, pure, fail, lift, ◌>>=◌, ◌>>◌}
use sftp2s.Permissions.{require_read, require_write, require_delete}
use sftp2s.S3.{S3}
use sftp2s.Storage.{Backend, object_key, dir_prefix}
use sftp2s.Vfs.{Target, root, at}
use sftp2s.Handlers.{
  Handlers, Request, World, resolve, timed_s3_op, object_exists, prefix_has_entries, delete_object,
  delete_prefix,
}
use sftp2s.Handlers.Copy.{handle_rename, handle_copy}

-- if b { return action }, as a step that may be left out
unfoldable pub when : {W : Type 0} → Bool → Action W (Unit {0}) → Action W (Unit {0})
unfolding pure
when b m = if b then m else pure tt

-- the cases of the switch in Filecmd
pub data Command : Type 0 where
  set_stat renames copies removes mkdirs unknown : Command

unfoldable pub command_of : Bytes → Command
command_of method =
    if bytes_eq method (codes "Setstat")
    then set_stat
    else if bytes_eq method (codes "Rename")
    then renames
    else if bytes_eq method (codes "Copy")
    then copies
    else if bytes_eq method (codes "Rmdir") || bytes_eq method (codes "Remove")
    then removes
    else if bytes_eq method (codes "Mkdir")
    then mkdirs
    else unknown

module _ (s3 : S3) (fuel : ℕ) (h : Handlers) where
  open s3 use {Store}

  -- the case "Rmdir", "Remove" behind the checks
  unfoldable pub remove_key : Backend → Bytes → Action (World Store) (Unit {0})
  unfolding when
  remove_key b key = do
    exists ← object_exists s3 fuel h b (object_key b key)
    has_children ← prefix_has_entries s3 fuel h b (dir_prefix b key)
    if not exists && not has_children then fail not_exist else do
      when exists (delete_object s3 fuel h b (object_key b key))
      when has_children (delete_prefix s3 fuel h b (dir_prefix b key))

  unfoldable pub remove_target : Target → Action (World Store) (Unit {0})
  remove_target root = fail (message "cannot remove root")
  remove_target (at b key) =
      if is_empty key then fail (message "cannot remove root") else remove_key b key

  -- the case "Rmdir", "Remove"
  unfoldable pub remove : Bytes → Action (World Store) (Unit {0})
  unfolding remove_target
  remove filepath = do
    require_delete h.perms
    target ← lift (resolve h filepath)
    remove_target target

  unfoldable pub mkdir_target : Target → Action (World Store) (Unit {0})
  mkdir_target root = fail (message "cannot create top-level folders")
  mkdir_target (at b key) =
      if is_empty key
      then pure tt
      else timed_s3_op h (codes "PutObject") b (s3.put_object b.location (dir_prefix b key) [])

  -- the case "Mkdir"
  unfoldable pub mkdir : Bytes → Action (World Store) (Unit {0})
  unfolding mkdir_target
  mkdir filepath = do require_write h.perms; target ← lift (resolve h filepath); mkdir_target target

  -- the case "Copy"
  unfoldable pub copy : Bytes → Bytes → Action (World Store) (Unit {0})
  copy src_path dst_path = do
    require_read h.perms
    require_write h.perms
    handle_copy s3 fuel h src_path dst_path

  unfoldable pub run_command : Command → Request → Action (World Store) (Unit {0})
  unfolding remove mkdir copy
  run_command set_stat r = pure tt
  run_command renames r = handle_rename s3 fuel h r.filepath r.target
  run_command copies r = copy r.filepath r.target
  run_command removes r = remove r.filepath
  run_command mkdirs r = mkdir r.filepath
  run_command unknown r = fail op_unsupported

  -- S3Handlers.Filecmd
  unfoldable pub filecmd : Request → Action (World Store) (Unit {0})
  unfolding run_command command_of
  filecmd r = run_command (command_of r.method) r
