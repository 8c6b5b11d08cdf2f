-- ===== src/Handlers/Listing.antt =====
-- handlers.go: Filelist, the requests that read the tree
use sftp2s.Prelude.{
  ℕ, zero, suc, Bool, true, false, ◌||◌, not, Bytes, bytes_eq, is_empty, codes, trim_prefix,
  trim_suffix, contains_byte, List, [], ◌∷◌, ◌++◌, map, some, if◌then◌else◌,
}
use sftp2s.Result.{not_exist, op_unsupported, out_of_fuel, Result, ok, err}
use sftp2s.Result.Action.{Action, pure, fail, lift, attempt, ◌>>=◌, ◌>>◌}
use sftp2s.Permissions.{require_read}
use sftp2s.FileInfo.{FileInfo, new_dir_info, new_file_info, sort_infos}
use sftp2s.S3.{S3, Page, Listed, Head}
use sftp2s.Storage.{Backend, slash, object_key, dir_prefix}
use sftp2s.Storage.Operations.{is_missing}
use sftp2s.Path.{base}
use sftp2s.Vfs.{Target, root, at}
use sftp2s.Handlers.{Handlers, Request, World, resolve, prefix_has_entries, next_list_page}

-- `seen` holds the names of `infos`, which stand in the order of discovery.
pub record Listing : Type 0 where
  pub seen : List Bytes
  pub infos : List FileInfo

abbrev pub empty_listing : Listing
empty_listing = record { seen = []; infos = [] }

unfoldable pub has_seen : List Bytes → Bytes → Bool
has_seen [] name = false
has_seen (n ∷ seen) name = bytes_eq n name || has_seen seen name

abbrev note : Listing → FileInfo → Listing
note l info = record { seen = info.name ∷ l.seen; infos = l.infos ++ info ∷ [] }

-- one of page.CommonPrefixes; `dp` is the prefix of the directory
unfoldable pub add_prefix : ℕ → Bytes → Listing → Bytes → Listing
unfolding has_seen
add_prefix now dp l cp =
    let name = trim_suffix slash (trim_prefix cp dp) in
    if is_empty name || has_seen l.seen name then l else note l (new_dir_info now name)

-- one of page.Contents
unfoldable pub add_object : ℕ → Bytes → Listing → Listed → Listing
unfolding has_seen
add_object now dp l obj =
    let name = trim_prefix obj.key dp in
    if bytes_eq obj.key dp
    then l
    else if contains_byte slash name || has_seen l.seen name
    then l
    else note l (new_file_info now name obj.size obj.last_modified)

unfoldable pub add_prefixes : ℕ → Bytes → Listing → List Bytes → Listing
add_prefixes now dp l [] = l
add_prefixes now dp l (cp ∷ cps) = add_prefixes now dp (add_prefix now dp l cp) cps

unfoldable pub add_objects : ℕ → Bytes → Listing → List Listed → Listing
add_objects now dp l [] = l
add_objects now dp l (obj ∷ objs) = add_objects now dp (add_object now dp l obj) objs

unfoldable pub add_page : ℕ → Bytes → Listing → Page → Listing
unfolding add_prefixes add_objects
add_page now dp l page =
    add_objects now dp (add_prefixes now dp l page.common_prefixes) page.contents

module _ (s3 : S3) (fuel : ℕ) (h : Handlers) where
  open s3 use {Store, Paginator}

  now : Action (World Store) ℕ
  now w = (ok w.now, w)

  -- for paginator.HasMorePages()
  unfoldable pub list_pages :
      ℕ → Backend → Bytes → Listing → Paginator → Action (World Store) (List FileInfo)
  unfolding now
  list_pages zero b dp l p = fail out_of_fuel
  list_pages (suc rounds) b dp l p = elim (s3.has_more_pages p) [
    | true ↦ next_list_page s3 fuel h p b >>= λ r.
        now >>= λ t. list_pages rounds b dp (add_page t dp l r.0) r.1
    | false ↦ pure (sort_infos l.infos)
  ]

  -- S3Handlers.listRoot
  unfoldable pub list_root : Action (World Store) (List FileInfo)
  unfolding now
  list_root = do t ← now; pure (sort_infos (map (λ e. new_dir_info t e.0) h.vfs))

  list_target : Target → Action (World Store) (List FileInfo)
  list_target root = list_root
  list_target (at b key) =
      list_pages fuel b (dir_prefix b key) empty_listing
        (s3.new_paginator b.location (dir_prefix b key) (some slash))

  -- S3Handlers.listDirectory
  unfoldable pub list_directory : Bytes → Action (World Store) (List FileInfo)
  unfolding list_target
  list_directory p = do target ← lift (resolve h p); list_target target

  head_untimed : Backend → Bytes → Action (World Store) Head
  head_untimed b key w =
      let r = s3.head_object b.location key w.store in (r.0, record w { store = r.1 })

  -- what statPath does with the answer of HeadObject
  stat_answer : Backend → Bytes → Result Head → Action (World Store) (List FileInfo)
  unfolding now
  stat_answer b key (ok out) = do
    t ← now
    pure (new_file_info t (base key) out.content_length out.last_modified ∷ [])
  stat_answer b key (err e) = if not (is_missing e) then fail e else do
    has_children ← prefix_has_entries s3 fuel h b (dir_prefix b key)
    if has_children then (do t ← now; pure (new_dir_info t (base key) ∷ [])) else fail not_exist

  stat_target : Target → Action (World Store) (List FileInfo)
  unfolding now head_untimed stat_answer is_missing
  stat_target root = do t ← now; pure (new_dir_info t (codes "/") ∷ [])
  stat_target (at b key) =
      if is_empty key
      then (do t ← now; pure (new_dir_info t b.name ∷ []))
      else (do r ← attempt (head_untimed b (object_key b key)); stat_answer b key r)

  -- S3Handlers.statPath
  unfoldable pub stat_path : Bytes → Action (World Store) (List FileInfo)
  unfolding stat_target
  stat_path p = do target ← lift (resolve h p); stat_target target

  -- S3Handlers.Filelist
  unfoldable pub filelist : Request → Action (World Store) (List FileInfo)
  filelist r = do
    require_read h.perms
    if bytes_eq r.method (codes "List")
        then list_directory r.filepath
        else if bytes_eq r.method (codes "Stat") || bytes_eq r.method (codes "Lstat")
        then stat_path r.filepath
        else fail op_unsupported
