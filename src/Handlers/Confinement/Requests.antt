-- ===== src/Handlers/Confinement/Requests.antt =====
-- The requests write nothing outside the prefixes of the backends of the session.
use sftp2s.Prelude.{ℕ, Bytes, bytes_eq, is_empty, ◌≡◌, All}
use sftp2s.Result.{
  Error, Result, ok, err, out_of_fuel, not_exist, op_unsupported, message, permission_denied,
}
use sftp2s.Result
use sftp2s.Result.Action.{Action}
use sftp2s.Result.Action.Moves.{
  IsPreorder, Moves, Moves-pure, Moves-fail, Moves-if, Moves-bind, Moves-after_lift, Moves-require,
}
use sftp2s.Permissions.{require_read, require_write, require_delete}
use sftp2s.S3.{S3, Location}
use sftp2s.S3.Laws.{S3Laws}
use sftp2s.Storage.{Backend}
use sftp2s.Path.{sanitize_path}
use sftp2s.Vfs
use sftp2s.Vfs.{Vfs, Target, root, at}
use sftp2s.Vfs.Resolve.{resolve-All}
use sftp2s.Handlers.{Handlers, Request, World, resolve}
use sftp2s.Handlers.Copy.{
  same_backend_rename, cross_backend_rename, handle_rename, handle_copy, rename_between,
  copy_between,
}
use sftp2s.Handlers.Commands.{
  remove_target, remove, mkdir_target, mkdir, copy, filecmd, Command, set_stat, renames, copies,
  removes, mkdirs, unknown, command_of, run_command,
}
use sftp2s.Handlers.Confinement.Copies
use sftp2s.Handlers.Confinement.{Fenced, SameObject, SameObject-order}

module _ (s3 : S3) (laws : S3Laws s3) (fuel : ℕ) (h : Handlers) (l : Location) (k : Bytes) where
  abbrev Stays : {A : Type 0} → Action (World s3.Store) A → Type 0
  Stays m = Moves (SameObject s3 laws l k) m

  abbrev order : IsPreorder (SameObject s3 laws l k)
  order = SameObject-order s3 laws l k

  rename-Stays :
      (old : Backend) (old_key : Bytes) (new : Backend) (new_key : Bytes)
      → Fenced l k old
      → Fenced l k new
      → Stays (rename_between s3 fuel h (at old old_key) (at new new_key))
  unfolding rename_between require_delete require_write require_read same_backend_rename
      cross_backend_rename
  rename-Stays old old_key new new_key fo fn = Moves-bind order _ _ (Moves-require order _ _) λ _.
      Moves-bind order _ _ (Moves-require order _ _) λ _.
        Moves-if order (bytes_eq old.name new.name) _ _
          (λ _.
            Moves-bind order _ _ (Copies.same_copy-Stays s3 laws fuel h l k old fo old_key new_key)
              (λ _. Copies.remove_source-Stays s3 laws fuel h l k old fo old_key))
          (λ _. Moves-bind order _ _ (Moves-require order _ _) λ _.
            Moves-bind order _ _
              (Copies.cross_copy-Stays s3 laws fuel h l k new fn old old_key new_key)
              (λ _. Copies.remove_source-Stays s3 laws fuel h l k old fo old_key))

  module _ (fenced : All (λ e. Fenced l k e.1) h.vfs) where
    resolved : (p : Bytes) (b : Backend) (key : Bytes) → resolve h p ≡ ok (at b key) → Fenced l k b
    unfolding resolve
    resolved p b key e =
        let (q, _, found) = Result.>>=-eq-ok (sanitize_path p) (Vfs.resolve h.vfs) e in
        resolve-All (Fenced l k) h.vfs q b key fenced found

    rename_targets-Stays :
        (old_path new_path : Bytes) (old new : Target)
        → resolve h old_path ≡ ok old
        → resolve h new_path ≡ ok new
        → Stays (rename_between s3 fuel h old new)
    unfolding rename_between
    rename_targets-Stays op np root root eo en = Moves-fail order _
    rename_targets-Stays op np root (at b key) eo en = Moves-fail order _
    rename_targets-Stays op np (at b key) root eo en = Moves-fail order _
    rename_targets-Stays op np (at b key) (at c key') eo en =
        rename-Stays b key c key' (resolved op b key eo) (resolved np c key' en)

    copy_targets-Stays :
        (src_path dst_path : Bytes) (src dst : Target)
        → resolve h src_path ≡ ok src
        → resolve h dst_path ≡ ok dst
        → Stays (copy_between s3 fuel h src dst)
    unfolding copy_between
    copy_targets-Stays sp dp root root es ed = Moves-fail order _
    copy_targets-Stays sp dp root (at b key) es ed = Moves-fail order _
    copy_targets-Stays sp dp (at b key) root es ed = Moves-fail order _
    copy_targets-Stays sp dp (at b key) (at c key') es ed =
        Moves-if order (bytes_eq b.name c.name) _ _
          (λ _. Copies.same_copy-Stays s3 laws fuel h l k b (resolved sp b key es) key key')
          (λ _. Copies.cross_copy-Stays s3 laws fuel h l k c (resolved dp c key' ed) b key key')

    rename_request-Stays : (old new : Bytes) → Stays (handle_rename s3 fuel h old new)
    unfolding handle_rename
    rename_request-Stays old new =
        Moves-after_lift order _ _
          λ t e. Moves-after_lift order _ _ λ u d. rename_targets-Stays old new t u e d

    copy_request-Stays : (src dst : Bytes) → Stays (copy s3 fuel h src dst)
    unfolding copy require_read require_write handle_copy
    copy_request-Stays src dst = Moves-bind order _ _ (Moves-require order _ _) λ _.
        Moves-bind order _ _ (Moves-require order _ _) λ _.
          Moves-after_lift order _ _
            λ t e. Moves-after_lift order _ _ λ u d. copy_targets-Stays src dst t u e d

    remove_target-Stays :
        (p : Bytes) (t : Target) → resolve h p ≡ ok t → Stays (remove_target s3 fuel h t)
    unfolding remove_target
    remove_target-Stays p root e = Moves-fail order _
    remove_target-Stays p (at b key) e =
        Moves-if order (is_empty key) _ _ (λ _. Moves-fail order _)
          (λ _. Copies.remove_key-Stays s3 laws fuel h l k b (resolved p b key e) key)

    mkdir_target-Stays :
        (p : Bytes) (t : Target) → resolve h p ≡ ok t → Stays (mkdir_target s3 fuel h t)
    unfolding mkdir_target
    mkdir_target-Stays p root e = Moves-fail order _
    mkdir_target-Stays p (at b key) e =
        Copies.mkdir-Stays s3 laws fuel h l k b (resolved p b key e) key

    remove_request-Stays : (p : Bytes) → Stays (remove s3 fuel h p)
    unfolding remove require_delete
    remove_request-Stays p =
        Moves-bind order _ _ (Moves-require order _ _)
          λ _. Moves-after_lift order _ _ (remove_target-Stays p)

    mkdir_request-Stays : (p : Bytes) → Stays (mkdir s3 fuel h p)
    unfolding mkdir require_write
    mkdir_request-Stays p =
        Moves-bind order _ _ (Moves-require order _ _)
          λ _. Moves-after_lift order _ _ (mkdir_target-Stays p)

    run_command-Stays : (c : Command) (r : Request) → Stays (run_command s3 fuel h c r)
    unfolding run_command
    run_command-Stays set_stat r = Moves-pure order tt
    run_command-Stays renames r = rename_request-Stays r.filepath r.target
    run_command-Stays copies r = copy_request-Stays r.filepath r.target
    run_command-Stays removes r = remove_request-Stays r.filepath
    run_command-Stays mkdirs r = mkdir_request-Stays r.filepath
    run_command-Stays unknown r = Moves-fail order op_unsupported

-- With a service that follows S3.Laws, a command of a session leaves an object as it was, whatever
-- the service answers and whether the command succeeds, if the object lies in no backend of the
-- session: for each of them it is in another bucket, or its key does not begin with the prefix of
-- the backend (which is empty or ends in a slash).
pub filecmd_confined :
    (s3 : S3) (laws : S3Laws s3) (fuel : ℕ) (h : Handlers) (r : Request) (w : World s3.Store)
    (l : Location) (k : Bytes)
    → All (λ e. Fenced l k e.1) h.vfs
    → laws.object (filecmd s3 fuel h r w).1.store l k ≡ laws.object w.store l k
unfolding filecmd
filecmd_confined s3 laws fuel h r w l k fenced =
    (run_command-Stays s3 laws fuel h l k fenced (command_of r.method) r).move w
