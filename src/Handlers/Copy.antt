-- ===== src/Handlers/Copy.antt =====
-- handlers.go: copies and renames, within one backend by CopyObject and between two by streaming.
pub mod Files
use sftp2s.Prelude.{
  ℕ, zero, suc, true, false, ◌&&◌, Bytes, bytes_eq, codes, trim_prefix, List, [], ◌∷◌, ◌++◌, Option,
  none, some, if◌then◌else◌,
}
use sftp2s.Result.{Error, message, not_exist, out_of_fuel, Result, ok, err}
use sftp2s.Result.Action.{Action, pure, fail, lift, ◌>>=◌, ◌>>◌}
use sftp2s.Metrics.{Metrics, add_upload_bytes, add_download_bytes}
use sftp2s.Permissions.{require_read, require_write, require_delete}
use sftp2s.S3.{S3, Listed, Object, Uploaded}
use sftp2s.Storage.{Backend, object_key, dir_prefix}
use sftp2s.Vfs.{Target, at}
use sftp2s.Handlers.{
  Handlers, World, resolve, record_s3_op, object_exists, prefix_has_entries, delete_object,
  delete_prefix, copy_object, next_list_page, succeeded,
}
use sftp2s.Prelude.{length}

-- what a write to the pipe returns behind pr.CloseWithError: io.ErrClosedPipe for a nil error
pipe_error : Result (Unit {0}) → Option Error
pipe_error (ok _) = some (message "io: read/write on closed pipe")
pipe_error (err e) = some e

-- What io.Copy into the pipe returns: where the upload stops early, its error comes back through
-- the pipe, or that of a closed pipe if it has none; else the error of reading the source.
unfoldable pub copy_error : Object → Uploaded → Option Error
unfolding pipe_error
copy_error out up = if up.drained then out.body.read_error else pipe_error up.result

copy_result : Option Error → Result (Unit {0})
copy_result none = ok tt
copy_result (some e) = err e

-- The error of copying goes before that of the upload.
unfoldable pub stream_result : Option Error → Uploaded → Result (Unit {0})
stream_result (some e) up = err e
stream_result none up = up.result

module _ (h : Handlers) where
  -- `if h.metrics != nil`, behind the upload and behind the copy
  meter_upload : Backend → Object → Uploaded → Metrics → Metrics
  meter_upload dst out up m =
      let m' = record_s3_op h (codes "PutObject") dst up.result m in
      if h.metered && succeeded up.result then add_upload_bytes out.content_length m' else m'

  meter_copy : Backend → Object → Option Error → Metrics → Metrics
  meter_copy src out e m =
      let m' = record_s3_op h (codes "GetObject") src (copy_result e) m in
      if h.metered && succeeded (copy_result e)
      then add_download_bytes (length out.body.bytes) m'
      else m'

module _ (s3 : S3) (h : Handlers) where
  open s3 use {Store}

  stream_upload : Backend → Backend → Bytes → Object → Action (World Store) (Unit {0})
  unfolding copy_error stream_result copy_result meter_upload meter_copy
  stream_upload src dst dst_key out w =
      let u = s3.upload dst.location dst_key out.body w.store in
      let e = copy_error out u.0 in
      (
        stream_result e u.0,
        record w {
          store = u.1;
          metrics = meter_copy h src out e (meter_upload h dst out u.0 w.metrics);
        },
      )

  get_whole : Backend → Bytes → Action (World Store) Object
  get_whole b key w =
      let r = s3.get_object b.location key none w.store in (r.0, record w { store = r.1 })

  -- S3Handlers.streamCopyObject
  unfoldable pub stream_copy_object :
      Backend → Bytes → Backend → Bytes → Action (World Store) (Unit {0})
  unfolding get_whole stream_upload
  stream_copy_object src src_key dst dst_key = do
    out ← get_whole src src_key
    stream_upload src dst dst_key out

-- How one object is copied: by CopyObject, or by streaming.
abbrev pub CopyOne : Type 0 → Type 0
CopyOne Store = Bytes → Bytes → Action (World Store) (Unit {0})

-- for _, obj := range page.Contents
unfoldable pub copy_listed :
    {Store : Type 0} → CopyOne Store → Bytes → Bytes → List Listed → Action (World Store) (Unit {0})
copy_listed copy old_prefix new_prefix [] = pure tt
copy_listed copy old_prefix new_prefix (obj ∷ objs) =
    copy obj.key (new_prefix ++ trim_prefix obj.key old_prefix) >>= λ _.
    copy_listed copy old_prefix new_prefix objs

module _ (s3 : S3) (fuel : ℕ) (h : Handlers) where
  open s3 use {Store, Paginator}

  -- for paginator.HasMorePages()
  unfoldable pub copy_pages :
      ℕ → CopyOne Store → Backend → Bytes → Bytes → Paginator → Action (World Store) (Unit {0})
  unfolding copy_listed
  copy_pages zero copy b old_prefix new_prefix p = fail out_of_fuel
  copy_pages (suc rounds) copy b old_prefix new_prefix p = elim (s3.has_more_pages p) [
    | true ↦ next_list_page s3 fuel h p b >>= λ r.
        copy_listed copy old_prefix new_prefix r.0.contents >>= λ _.
        copy_pages rounds copy b old_prefix new_prefix r.1
    | false ↦ pure tt
  ]

  -- The common body of sameBackendCopy and crossBackendCopy: `src` is the backend that is read, `copy`
  -- copies one object, and the other arguments are the keys and prefixes on both sides.
  unfoldable pub copy_tree :
      CopyOne Store → Backend → Bytes → Bytes → Bytes → Bytes → Action (World Store) (Unit {0})
  unfolding copy_pages
  copy_tree copy src old_key old_prefix new_key new_prefix = do
    is_file ← object_exists s3 fuel h src old_key
    if is_file then copy old_key new_key else do
      has_children ← prefix_has_entries s3 fuel h src old_prefix
      if has_children
          then copy_pages fuel copy src old_prefix new_prefix
              (s3.new_paginator src.location old_prefix none)
          else do
            exists ← object_exists s3 fuel h src old_prefix
            if exists then copy old_prefix new_prefix else fail not_exist

  -- S3Handlers.sameBackendCopy
  unfoldable pub same_backend_copy : Backend → Bytes → Bytes → Action (World Store) (Unit {0})
  unfolding copy_tree
  same_backend_copy b old_key new_key =
      copy_tree (copy_object s3 fuel h b) b (object_key b old_key) (dir_prefix b old_key)
        (object_key b new_key) (dir_prefix b new_key)

  -- S3Handlers.crossBackendCopy
  unfoldable pub cross_backend_copy :
      Backend → Bytes → Backend → Bytes → Action (World Store) (Unit {0})
  unfolding copy_tree
  cross_backend_copy src src_key dst dst_key =
      copy_tree (λ key key'. stream_copy_object s3 h src key dst key') src (object_key src src_key)
        (dir_prefix src src_key) (object_key dst dst_key) (dir_prefix dst dst_key)

  -- what both renames do behind the copy
  unfoldable pub remove_source : Backend → Bytes → Action (World Store) (Unit {0})
  remove_source b old_key = do
    is_file ← object_exists s3 fuel h b (object_key b old_key)
    if is_file
        then delete_object s3 fuel h b (object_key b old_key)
        else delete_prefix s3 fuel h b (dir_prefix b old_key)

  -- S3Handlers.sameBackendRename
  unfoldable pub same_backend_rename : Backend → Bytes → Bytes → Action (World Store) (Unit {0})
  unfolding remove_source
  same_backend_rename b old_key new_key = do
    same_backend_copy b old_key new_key
    remove_source b old_key

  -- S3Handlers.crossBackendRename
  unfoldable pub cross_backend_rename :
      Backend → Bytes → Backend → Bytes → Action (World Store) (Unit {0})
  unfolding remove_source
  cross_backend_rename src src_key dst dst_key = do
    cross_backend_copy src src_key dst dst_key
    remove_source src src_key

  unfoldable pub rename_between : Target → Target → Action (World Store) (Unit {0})
  rename_between (at old old_key) (at new new_key) = do
    require_delete h.perms
    require_write h.perms
    if bytes_eq old.name new.name
        then same_backend_rename old old_key new_key
        else do require_read h.perms; cross_backend_rename old old_key new new_key
  rename_between _ _ = fail (message "cannot rename root")

  -- S3Handlers.handleRename
  unfoldable pub handle_rename : Bytes → Bytes → Action (World Store) (Unit {0})
  unfolding rename_between
  handle_rename old_path new_path = do
    old ← lift (resolve h old_path)
    new ← lift (resolve h new_path)
    rename_between old new

  unfoldable pub copy_between : Target → Target → Action (World Store) (Unit {0})
  copy_between (at src src_key) (at dst dst_key) =
      if bytes_eq src.name dst.name
      then same_backend_copy src src_key dst_key
      else cross_backend_copy src src_key dst dst_key
  copy_between _ _ = fail (message "cannot copy root")

  -- S3Handlers.handleCopy
  unfoldable pub handle_copy : Bytes → Bytes → Action (World Store) (Unit {0})
  unfolding copy_between
  handle_copy src_path dst_path = do
    src ← lift (resolve h src_path)
    dst ← lift (resolve h dst_path)
    copy_between src dst
