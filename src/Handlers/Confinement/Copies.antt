-- ===== src/Handlers/Confinement/Copies.antt =====
-- Copies, removals and new directories, on backends that do not hold the key `k` of the bucket `l`.
use sftp2s.Prelude.{
  ℕ, zero, suc, Bytes, codes, is_empty, List, [], ◌∷◌, none, refl, inl, inr, StartsWith,
  StartsWith-trans, Bool-cases, trim_prefix,
}
use sftp2s.Result.{out_of_fuel, not_exist}
use sftp2s.Result.Action.{Action, pure}
use sftp2s.Result.Action.Moves.{IsPreorder, Moves, Moves-pure, Moves-fail, Moves-if, Moves-bind}
use sftp2s.S3.{S3, Location, Listed}
use sftp2s.S3.Laws.{S3Laws}
use sftp2s.Storage.{Backend, dir_prefix}
use sftp2s.Storage.Keys.{object_key-StartsWith, dir_prefix-StartsWith}
use sftp2s.Vfs.{at}
use sftp2s.Handlers.{
  Handlers, World, object_exists, prefix_has_entries, delete_object, delete_prefix, copy_object,
  next_list_page, timed_s3_op,
}
use sftp2s.Handlers.Copy.{
  CopyOne, copy_listed, copy_pages, copy_tree, stream_copy_object, same_backend_copy,
  cross_backend_copy, remove_source,
}
use sftp2s.Handlers.Commands.{when, remove_key, mkdir_target}
use sftp2s.Storage.Frames.{
  Beyond-Apart, Beyond-longer, copy-Moves, delete-Moves, delete_prefix-Moves,
}
use sftp2s.Handlers.Confinement
use sftp2s.Handlers.Confinement.{Away, Fenced, SameObject, SameObject-order, timed-Moves}

module _ (s3 : S3) (laws : S3Laws s3) (fuel : ℕ) (h : Handlers) (l : Location) (k : Bytes) where
  open s3 use {Store, Paginator}

  abbrev pub Stays : {A : Type 0} → Action (World Store) A → Type 0
  Stays m = Moves (SameObject s3 laws l k) m

  abbrev pub order : IsPreorder (SameObject s3 laws l k)
  order = SameObject-order s3 laws l k

  exists-Stays : (b : Backend) (key : Bytes) → Stays (object_exists s3 fuel h b key)
  exists-Stays = Confinement.exists-Stays s3 laws l k fuel h

  entries-Stays : (b : Backend) (prefix : Bytes) → Stays (prefix_has_entries s3 fuel h b prefix)
  entries-Stays = Confinement.entries-Stays s3 laws l k fuel h

  stream-Stays :
      (src : Backend) (src_key : Bytes) (dst : Backend) (dst_key : Bytes)
      → Away l k dst
      → StartsWith dst.prefix dst_key
      → Stays (stream_copy_object s3 h src src_key dst dst_key)
  unfolding stream_copy_object
  stream-Stays src src_key dst dst_key away under =
      Moves-bind order _ _
        (record { move = λ w. laws.get_frame src.location src_key none w.store l k })
        (λ out. record {
          move = λ w.
              laws.upload_frame dst.location dst_key out.body w.store l k
                (Beyond-Apart l k dst.location dst.prefix dst_key away under);
        })

  module _ (copy : CopyOne Store) (base : Bytes)
      (copy-Stays : (src dst : Bytes) → StartsWith base dst → Stays (copy src dst)) where
    copy_listed-Stays :
        (old new : Bytes) (objs : List Listed)
        → StartsWith base new
        → Stays (copy_listed copy old new objs)
    unfolding copy_listed
    copy_listed-Stays old new [] under = Moves-pure order tt
    copy_listed-Stays old new (obj ∷ objs) under =
        Moves-bind order _ _
          (copy-Stays obj.key _ (StartsWith-trans base new _ under (trim_prefix obj.key old, refl)))
          (λ _. copy_listed-Stays old new objs under)

    copy_pages-Stays :
        (rounds : ℕ) (b : Backend) (old new : Bytes) (p : Paginator)
        → StartsWith base new
        → Stays (copy_pages s3 fuel h rounds copy b old new p)
    unfolding copy_pages next_list_page
    copy_pages-Stays zero b old new p under = Moves-fail order out_of_fuel
    copy_pages-Stays (suc rounds) b old new p under = elim (Bool-cases (s3.has_more_pages p)) [
      | inl more ↦
          rw (more, copy_pages)
            (Moves-bind order (next_list_page s3 fuel h p b) _
              (timed-Moves s3 laws l k h (codes "ListObjectsV2") b _
                (record { move = λ s. laws.page_frame p s l k }))
              (λ r.
                Moves-bind order _ _ (copy_listed-Stays old new r.0.contents under)
                  (λ _. copy_pages-Stays rounds b old new r.1 under)))
      | inr done ↦ rw (done, copy_pages) (Moves-pure order tt)
    ]

    copy_tree-Stays :
        (src : Backend) (old_key old new_key new : Bytes)
        → StartsWith base new_key
        → StartsWith base new
        → Stays (copy_tree s3 fuel h copy src old_key old new_key new)
    unfolding copy_tree
    copy_tree-Stays src old_key old new_key new under_key under =
        Moves-bind order _ _ (exists-Stays src old_key) λ is_file.
          Moves-if order is_file _ _ (λ _. copy-Stays old_key new_key under_key)
            λ _. Moves-bind order _ _ (entries-Stays src old) λ has_children.
              Moves-if order has_children _ _ (λ _. copy_pages-Stays fuel src old new _ under)
                λ _. Moves-bind order _ _ (exists-Stays src old) λ exists.
                  Moves-if order exists _ _ (λ _. copy-Stays old new under)
                    (λ _. Moves-fail order not_exist)

  module _ (b : Backend) (fenced : Fenced l k b) where
    pub same_copy-Stays : (old new : Bytes) → Stays (same_backend_copy s3 fuel h b old new)
    unfolding same_backend_copy copy_object
    same_copy-Stays old new =
        copy_tree-Stays (copy_object s3 fuel h b) b.prefix
          (λ src dst under. timed-Moves s3 laws l k h _ b _ (
            copy-Moves s3 laws l k b src dst
              (Beyond-Apart l k b.location b.prefix dst fenced.away under)))
          b _ _ _ _ (object_key-StartsWith b new) (dir_prefix-StartsWith b new fenced.normal)

    pub cross_copy-Stays :
        (src : Backend) (old new : Bytes) → Stays (cross_backend_copy s3 fuel h src old b new)
    unfolding cross_backend_copy
    cross_copy-Stays src old new =
        copy_tree-Stays (λ key key'. stream_copy_object s3 h src key b key') b.prefix
          (λ key key' under. stream-Stays src key b key' fenced.away under) src _ _ _ _
          (object_key-StartsWith b new) (dir_prefix-StartsWith b new fenced.normal)

    delete-Stays : (key : Bytes) → StartsWith b.prefix key → Stays (delete_object s3 fuel h b key)
    unfolding delete_object
    delete-Stays key under = timed-Moves s3 laws l k h _ b _ (
        delete-Moves s3 laws l k b key (Beyond-Apart l k b.location b.prefix key fenced.away under))

    delete_prefix-Stays :
        (prefix : Bytes) → StartsWith b.prefix prefix → Stays (delete_prefix s3 fuel h b prefix)
    unfolding delete_prefix
    delete_prefix-Stays prefix under = timed-Moves s3 laws l k h _ b _ (
        delete_prefix-Moves s3 laws l k fuel b prefix
          (Beyond-longer l k b.location b.prefix prefix fenced.away under))

    pub remove_source-Stays : (old : Bytes) → Stays (remove_source s3 fuel h b old)
    unfolding remove_source
    remove_source-Stays old = Moves-bind order _ _ (exists-Stays b _) λ is_file.
        Moves-if order is_file _ _ (λ _. delete-Stays _ (object_key-StartsWith b old))
          (λ _. delete_prefix-Stays _ (dir_prefix-StartsWith b old fenced.normal))

    pub remove_key-Stays : (key : Bytes) → Stays (remove_key s3 fuel h b key)
    unfolding remove_key when
    remove_key-Stays key = Moves-bind order _ _ (exists-Stays b _) λ exists.
        Moves-bind order _ _ (entries-Stays b _) λ has_children.
          Moves-if order _ _ _ (λ _. Moves-fail order not_exist)
            λ _.
              Moves-bind order _ _
                (Moves-if order exists _ _ (λ _. delete-Stays _ (object_key-StartsWith b key))
                  (λ _. Moves-pure order tt))
                λ _.
                  Moves-if order has_children _ _
                    (λ _. delete_prefix-Stays _ (dir_prefix-StartsWith b key fenced.normal))
                    (λ _. Moves-pure order tt)

    pub mkdir-Stays : (key : Bytes) → Stays (mkdir_target s3 fuel h (at b key))
    unfolding mkdir_target
    mkdir-Stays key =
        Moves-if order (is_empty key) (pure tt)
          (timed_s3_op h (codes "PutObject") b (s3.put_object b.location (dir_prefix b key) []))
          (λ _. Moves-pure order tt)
          (λ _. timed-Moves s3 laws l k h (codes "PutObject") b _ (record {
            move = λ s. laws.put_frame b.location (dir_prefix b key) [] s l k (
                Beyond-Apart l k b.location b.prefix _ fenced.away
                  (dir_prefix-StartsWith b key fenced.normal));
          }))
