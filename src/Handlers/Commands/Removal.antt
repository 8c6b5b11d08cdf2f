-- ===== src/Handlers/Commands/Removal.antt =====
-- handlers.go: what is left behind the case "Rmdir", "Remove" of Filecmd.
use sftp2s.Prelude.{
  ℕ, Bool, true, false, not, ◌&&◌, Bytes, [], ◌∷◌, bytes_eq, bytes_eq_iff, none, ◌≡◌, refl, sym, ap,
  subst, ◌∙◌, StartsWith, Bool-cases, inl, inr, arith, if◌then◌else◌,
}
use sftp2s.Result.{Result, ok, err, not_exist, permission_denied}
use sftp2s.Result.Action.{Action, pure, fail, lift, require, ◌>>=◌, ◌>>◌}
use sftp2s.Result.Action.Inversion.{>>=-eq-ok}
use sftp2s.Permissions.{require_delete}
use sftp2s.S3.{S3}
use sftp2s.S3.Laws.{S3Laws}
use sftp2s.Storage.{Backend, object_key, dir_prefix}
use sftp2s.Storage.Operations
use sftp2s.Storage.Frames.{exists-Moves, entries-Moves}
use sftp2s.Storage.Deletion.{DeletesAll, delete_prefix_gone, delete_prefix_absent}
use sftp2s.Storage.Presence.{object_exists_no, prefix_has_entries_no}
use sftp2s.Handlers.{
  Handlers, Request, resolve, World, timed_s3_op, object_exists, prefix_has_entries, delete_object,
  delete_prefix,
}
use sftp2s.Vfs.{Target, root, at}
use sftp2s.Handlers.Commands.{
  when, remove_key, remove_target, remove, removes, command_of, run_command, filecmd,
}

module _ (s3 : S3) (laws : S3Laws s3) (whole : DeletesAll s3) (fuel : ℕ) (h : Handlers)
    (b : Backend) where
  open s3 use {Store}
  open laws use {object}

  -- No object is left under the key, and none under the directory.
  pub record Gone (key dir : Bytes) (w : World Store) : Type 0 where
    pub file : object w.store b.location key ≡ none
    pub tree : (j : Bytes) → StartsWith dir j → object w.store b.location j ≡ none

  -- What is known of the two before the removal.
  record Known (key dir : Bytes) (exists children : Bool) (w : World Store) : Type 0 where
    file : exists ≡ false → object w.store b.location key ≡ none
    tree : children ≡ false → (j : Bytes) → StartsWith dir j → object w.store b.location j ≡ none

  delete_one :
      (key dir : Bytes) (children : Bool) (w : World Store)
      → Known key dir true children w
      → (delete_object s3 fuel h b key w).0 ≡ ok tt
      → Known key dir false children (delete_object s3 fuel h b key w).1
  unfolding delete_object timed_s3_op Operations.delete_object
  delete_one key dir children w k e = record {
    file = λ _. laws.delete_ok b.location key w.store e;
    tree = λ c j u. elim (Bool-cases (bytes_eq j key)) [
      | inl same ↦
          subst (λ i. object (s3.delete_object b.location key w.store).1 b.location i ≡ none)
            (sym ((bytes_eq_iff j key).0 same)) (laws.delete_ok b.location key w.store e)
      | inr other ↦
          laws.delete_frame b.location key w.store b.location j
            (inr (λ q. absurd (ground (arith, bytes_eq_iff j key))))
          ∙ k.tree c j u
    ];
  }

  delete_tree :
      (key dir : Bytes) (w : World Store)
      → object w.store b.location key ≡ none
      → (delete_prefix s3 fuel h b dir w).0 ≡ ok tt
      → Gone key dir (delete_prefix s3 fuel h b dir w).1
  unfolding delete_prefix timed_s3_op
  delete_tree key dir w absent e = record {
    file = delete_prefix_absent s3 laws whole fuel b dir w.store key e absent;
    tree = λ j u. delete_prefix_gone s3 laws whole fuel b dir w.store j e u;
  }

  delete_rest :
      (key dir : Bytes) (children : Bool) (w : World Store)
      → Known key dir false children w
      → (when children (delete_prefix s3 fuel h b dir) w).0 ≡ ok tt
      → Gone key dir (when children (delete_prefix s3 fuel h b dir) w).1
  unfolding when pure
  delete_rest key dir true w k e = delete_tree key dir w (k.file refl) e
  delete_rest key dir false w k e = record { file = k.file refl; tree = k.tree refl }

  deletions : (key dir : Bytes) (exists children : Bool) → Action (World Store) (Unit {0})
  deletions key dir exists children = when exists (delete_object s3 fuel h b key) >>= λ _.
      when children (delete_prefix s3 fuel h b dir)

  delete_both :
      (key dir : Bytes) (exists children : Bool) (w : World Store)
      → Known key dir exists children w
      → (deletions key dir exists children w).0 ≡ ok tt
      → Gone key dir (deletions key dir exists children w).1
  unfolding deletions when pure ◌>>=◌
  delete_both key dir false children w k e = delete_rest key dir children w k e
  delete_both key dir true children w k e =
      let step =
        >>=-eq-ok (delete_object s3 fuel h b key)
          (λ _. when children (delete_prefix s3 fuel h b dir)) w e in
      rw step.state
        (delete_rest key dir children _ (delete_one key dir children w k step.first) step.second)

  checked :
      (key dir : Bytes) (exists children : Bool) (w : World Store)
      → Known key dir exists children w
      → ((if not exists && not children then fail not_exist else deletions key dir exists children)
          w).0
        ≡ ok tt
      → Gone key dir
          ((if not exists && not children
              then fail not_exist
              else deletions key dir exists children)
            w).1
  unfolding fail
  checked key dir true children w k e = delete_both key dir true children w k e
  checked key dir false true w k e = delete_both key dir false true w k e
  checked key dir false false w k e = absurd (ground arith)

  known :
      (key dir : Bytes) (exists children : Bool) (w : World Store)
      → (object_exists s3 fuel h b key w).0 ≡ ok exists
      → (prefix_has_entries s3 fuel h b dir (object_exists s3 fuel h b key w).1).0 ≡ ok children
      → Known key dir exists children
          (prefix_has_entries s3 fuel h b dir (object_exists s3 fuel h b key w).1).1
  unfolding object_exists prefix_has_entries timed_s3_op
  known key dir exists children w e f =
      let v = (Operations.object_exists s3 b key w.store).1 in
      record {
        file = λ no.
            (entries-Moves s3 laws b.location key b dir).move v
            ∙ ((exists-Moves s3 laws b.location key b key).move w.store
                ∙ object_exists_no s3 laws b key w.store (e ∙ ap ok no));
        tree = λ no j u.
            (entries-Moves s3 laws b.location j b dir).move v
            ∙ prefix_has_entries_no s3 laws b dir j v (f ∙ ap ok no) u;
      }

  remove_key-Gone :
      (key : Bytes) (w : World Store)
      → (remove_key s3 fuel h b key w).0 ≡ ok tt
      → Gone (object_key b key) (dir_prefix b key) (remove_key s3 fuel h b key w).1
  unfolding remove_key deletions
  remove_key-Gone key w e =
      let k = object_key b key in
      let d = dir_prefix b key in
      let first = >>=-eq-ok (object_exists s3 fuel h b k) _ w e in
      let second = >>=-eq-ok (prefix_has_entries s3 fuel h b d) _ _ first.second in
      rw (first.state, second.state)
        (checked k d first.value second.value _ (known k d _ _ w first.first second.first)
          second.second)

module _ (s3 : S3) (laws : S3Laws s3) (whole : DeletesAll s3) (fuel : ℕ) (h : Handlers) where
  open s3 use {Store}

  -- Where a path leads, and that nothing is left there.
  pub record RemovedAt (t : Target) (w : World Store) : Type 0 where
    pub backend : Backend
    pub key : Bytes
    pub found : t ≡ at backend key
    pub gone : Gone s3 laws whole fuel h backend (object_key backend key) (dir_prefix backend key) w

  remove_target-RemovedAt :
      (t : Target) (w : World Store)
      → (remove_target s3 fuel h t w).0 ≡ ok tt
      → RemovedAt t (remove_target s3 fuel h t w).1
  unfolding remove_target fail
  remove_target-RemovedAt root w e = absurd (ground arith)
  remove_target-RemovedAt (at b []) w e = absurd (ground arith)
  remove_target-RemovedAt (at b (c ∷ key)) w e = record {
    backend = b;
    key = c ∷ key;
    found = refl;
    gone = remove_key-Gone s3 laws whole fuel h b (c ∷ key) w e;
  }

  after_checks :
      (allowed : Bool) (r : Result Target) (w : World Store)
      → ((require allowed permission_denied >> (lift r >>= remove_target s3 fuel h)) w).0 ≡ ok tt
      → (t : Target) × (r ≡ ok t)
        × RemovedAt t
            ((require allowed permission_denied >> (lift r >>= remove_target s3 fuel h)) w).1
  unfolding require ◌>>=◌
  after_checks false r w e = absurd (ground arith)
  after_checks true (err x) w e = absurd (ground arith)
  after_checks true (ok t) w e = (t, refl, remove_target-RemovedAt t w e)

  -- With a service that follows S3.Laws: if a removal reports success, its path leads to a backend
  -- and a key, and no object is left under the key, and none under the key followed by a slash,
  -- provided that the service lists no key under the errors of a response to DeleteObjects.
  pub filecmd_removes :
      (r : Request) (w : World Store)
      → command_of r.method ≡ removes
      → (filecmd s3 fuel h r w).0 ≡ ok tt
      → (t : Target) × (resolve h r.filepath ≡ ok t) × RemovedAt t (filecmd s3 fuel h r w).1
  unfolding filecmd run_command remove require_delete
  filecmd_removes r w c e = rw c (after_checks h.perms.delete (resolve h r.filepath) w (rw c at e))
