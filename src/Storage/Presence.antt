-- ===== src/Storage/Presence.antt =====
-- ObjectExists and PrefixHasEntries: what a negative answer says.
use sftp2s.Prelude.{false, Bytes, none, some, ◌≡◌, refl, StartsWith, arith}
use sftp2s.Result.{Result, ok, err, not_found, no_such_key, ok-injective}
use sftp2s.Result.Action.{pure, fail, attempt, ◌>>=◌}
use sftp2s.Result.Action.Inversion.{>>=-eq-ok}
use sftp2s.S3.{S3, Head}
use sftp2s.S3.Laws.{S3Laws}
use sftp2s.Storage.{Backend, slash}
use sftp2s.Storage.Operations.{is_missing, after_head, object_exists, prefix_has_entries}

module _ (s3 : S3) (laws : S3Laws s3) where
  open s3 use {Store}
  open laws use {object}

  missing :
      (b : Backend) (key : Bytes) (s t : Store) (r : Result Head)
      → (s3.head_object b.location key s).0 ≡ r
      → (after_head s3 r t).0 ≡ ok false
      → object s b.location key ≡ none
  unfolding after_head is_missing pure fail
  missing b key s t (ok out) e h = absurd (ground arith)
  missing b key s t (err not_found) e h = laws.head_not_found b.location key s e
  missing b key s t (err no_such_key) e h = laws.head_no_such_key b.location key s e
  missing b key s t (err x) e h = absurd (ground arith)

  -- If ObjectExists says no, there was no object under the key.
  pub object_exists_no :
      (b : Backend) (key : Bytes) (s : Store)
      → (object_exists s3 b key s).0 ≡ ok false
      → object s b.location key ≡ none
  unfolding object_exists attempt ◌>>=◌
  object_exists_no b key s h = missing b key s _ (s3.head_object b.location key s).0 refl h

  -- If PrefixHasEntries says no, there was no object under the prefix.
  pub prefix_has_entries_no :
      (b : Backend) (prefix j : Bytes) (s : Store)
      → (prefix_has_entries s3 b prefix s).0 ≡ ok false
      → StartsWith prefix j
      → object s b.location j ≡ none
  unfolding prefix_has_entries pure
  prefix_has_entries_no b prefix j s h u =
      let step = >>=-eq-ok (s3.list_objects b.location prefix (some slash) 1) _ s h in
      let e = ok-injective step.second in
      laws.list_empty b.location prefix (some slash) s step.value j step.first (ground arith)
        (ground arith) u
