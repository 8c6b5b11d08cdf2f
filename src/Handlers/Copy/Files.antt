-- ===== src/Handlers/Copy/Files.antt =====
-- handlers.go: the rename and the copy of a file in one backend.
use sftp2s.Prelude.{
  ℕ, Bool, true, false, Bytes, Lacks, Option, none, some, ◌≡◌, ◌≢◌, refl, sym, ◌∙◌, inr, arith,
}
use sftp2s.Result.{ok}
use sftp2s.Result.Action.Inversion.{>>=-eq-ok}
use sftp2s.S3.{S3}
use sftp2s.S3.Laws.{S3Laws}
use sftp2s.Storage.{Backend, slash, object_key}
use sftp2s.Storage.Operations
use sftp2s.Storage.Frames.{exists-Moves}
use sftp2s.Storage.Presence.{object_exists_no}
use sftp2s.Handlers.{Handlers, World, timed_s3_op, object_exists, delete_object, copy_object}
use sftp2s.Handlers.Copy.{copy_tree, same_backend_copy, remove_source, same_backend_rename}

module _ (s3 : S3) (laws : S3Laws s3) (fuel : ℕ) (h : Handlers) (b : Backend) where
  open s3 use {Store}
  open laws use {object}

  abbrev at_key : World Store → Bytes → Option Bytes
  at_key w j = object w.store b.location j

  -- `dst` holds what `src` held, and nothing else changed in the bucket.
  pub record Copied (src dst : Bytes) (v w : World Store) : Type 0 where
    pub content : at_key w dst ≡ at_key v src
    pub others : (j : Bytes) → j ≢ dst → at_key w j ≡ at_key v j

  -- `src` holds nothing, and nothing else changed in the bucket.
  pub record Cleared (src : Bytes) (v w : World Store) : Type 0 where
    pub gone : at_key w src ≡ none
    pub others : (j : Bytes) → j ≢ src → at_key w j ≡ at_key v j

  found :
      (key c : Bytes) (w : World Store) (exists : Bool)
      → at_key w key ≡ some c
      → (object_exists s3 fuel h b key w).0 ≡ ok exists
      → exists ≡ true
  unfolding object_exists timed_s3_op
  found key c w true there e = refl
  found key c w false there e =
      let absent = object_exists_no s3 laws b key w.store e in
      absurd (ground (arith, absent, there))

  looked :
      (key j : Bytes) (w : World Store) → at_key (object_exists s3 fuel h b key w).1 j ≡ at_key w j
  unfolding object_exists timed_s3_op
  looked key j w = (exists-Moves s3 laws b.location j b key).move w.store

  copy_object-Copied :
      (src dst : Bytes) (w : World Store)
      → Lacks slash b.location.bucket
      → (copy_object s3 fuel h b src dst w).0 ≡ ok tt
      → Copied src dst w (copy_object s3 fuel h b src dst w).1
  unfolding copy_object timed_s3_op Operations.copy_object
  copy_object-Copied src dst w lacks e = record {
    content = laws.copy_ok b.location src dst w.store lacks e;
    others = λ j n. laws.copy_frame b.location _ dst w.store b.location j (inr n);
  }

  delete_object-Cleared :
      (src : Bytes) (w : World Store)
      → (delete_object s3 fuel h b src w).0 ≡ ok tt
      → Cleared src w (delete_object s3 fuel h b src w).1
  unfolding delete_object timed_s3_op Operations.delete_object
  delete_object-Cleared src w e = record {
    gone = laws.delete_ok b.location src w.store e;
    others = λ j n. laws.delete_frame b.location src w.store b.location j (inr n);
  }

  same_backend_copy-Copied :
      (old_key new_key c : Bytes) (w : World Store)
      → Lacks slash b.location.bucket
      → at_key w (object_key b old_key) ≡ some c
      → (same_backend_copy s3 fuel h b old_key new_key w).0 ≡ ok tt
      → Copied
          (object_key b old_key)
          (object_key b new_key)
          w
          (same_backend_copy s3 fuel h b old_key new_key w).1
  unfolding same_backend_copy copy_tree
  same_backend_copy-Copied old_key new_key c w lacks there e =
      let old = object_key b old_key in
      let step = >>=-eq-ok (object_exists s3 fuel h b old) _ w e in
      let is_file = found old c w step.value there step.first in
      let one =
        copy_object-Copied old (object_key b new_key) (object_exists s3 fuel h b old w).1 lacks
          (simp is_file at step.second) in
      rw step.state (
        rw is_file (record {
          content = one.content ∙ looked old old w;
          others = λ j n. one.others j n ∙ looked old j w;
        }))

  remove_source-Cleared :
      (old_key c : Bytes) (w : World Store)
      → at_key w (object_key b old_key) ≡ some c
      → (remove_source s3 fuel h b old_key w).0 ≡ ok tt
      → Cleared (object_key b old_key) w (remove_source s3 fuel h b old_key w).1
  unfolding remove_source
  remove_source-Cleared old_key c w there e =
      let old = object_key b old_key in
      let step = >>=-eq-ok (object_exists s3 fuel h b old) _ w e in
      let is_file = found old c w step.value there step.first in
      let one =
        delete_object-Cleared old (object_exists s3 fuel h b old w).1
          (simp is_file at step.second) in
      rw step.state
        (rw is_file (record { gone = one.gone; others = λ j n. one.others j n ∙ looked old j w }))

  -- The new key holds the content, the old one nothing, and every other key is as it was.
  pub record Renamed (old new c : Bytes) (v w : World Store) : Type 0 where
    pub content : at_key w new ≡ some c
    pub gone : at_key w old ≡ none
    pub others : (j : Bytes) → j ≢ old → j ≢ new → at_key w j ≡ at_key v j

  -- With a service that follows S3.Laws: if the rename of a file to another key of its backend
  -- reports success, the new key holds the content of the file, the old key holds nothing, and
  -- every other key of the bucket is as it was (the name of the bucket has no slash).
  pub rename_file :
      (old_key new_key c : Bytes) (w : World Store)
      → Lacks slash b.location.bucket
      → object w.store b.location (object_key b old_key) ≡ some c
      → object_key b new_key ≢ object_key b old_key
      → (same_backend_rename s3 fuel h b old_key new_key w).0 ≡ ok tt
      → Renamed
          (object_key b old_key)
          (object_key b new_key)
          c
          w
          (same_backend_rename s3 fuel h b old_key new_key w).1
  unfolding same_backend_rename
  rename_file old_key new_key c w lacks there differ e =
      let old = object_key b old_key in
      let step = >>=-eq-ok (same_backend_copy s3 fuel h b old_key new_key) _ w e in
      let first = same_backend_copy-Copied old_key new_key c w lacks there step.first in
      let kept = first.others old (λ q. differ (sym q)) ∙ there in
      let second = remove_source-Cleared old_key c _ kept step.second in
      rw step.state (record {
        content = second.others (object_key b new_key) differ ∙ (first.content ∙ there);
        gone = second.gone;
        others = λ j o n. second.others j o ∙ first.others j n;
      })
