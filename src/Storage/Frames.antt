-- ===== src/Storage/Frames.antt =====
-- What the S3 operations of a backend leave alone, whatever the service answers.
use sftp2s.Prelude.{
  ℕ, zero, suc, true, false, Bytes, List, [], ◌∷◌, ◌++◌, map, some, ◌≡◌, refl, sym, ◌∙◌, ◌⊎◌, inl,
  inr, ◌≢◌, subst, All, All-In, In, StartsWith, StartsWith-trans, Bool-cases, length,
}
use sftp2s.Result.{Result, ok, err, out_of_fuel}
use sftp2s.Result.Action.{pure, fail}
use sftp2s.Result.Action.Moves.{
  IsPreorder, Moves, Moves-pure, Moves-fail, Moves-attempt, Moves-if, Moves-bind, Moves-bind_with,
}
use sftp2s.S3.{S3, Location, Head}
use sftp2s.S3.Laws.{S3Laws, Apart}
use sftp2s.Storage.{Backend, slash}
use sftp2s.Storage.Collect.{collect_keys-All, batches-All}
use sftp2s.Storage.Operations.{
  delete_object, collect_keys, delete_batches, delete_prefix, is_missing, after_head, object_exists,
  copy_object, prefix_has_entries,
}

-- The key `k` of the bucket `l` is not under the prefix in the other bucket.
abbrev pub Beyond : Location → Bytes → Location → Bytes → Type 0
Beyond l k loc prefix = (l ≢ loc) ⊎ (¬ StartsWith prefix k)

pub Beyond-Apart :
    (l : Location) (k : Bytes) (loc : Location) (prefix j : Bytes)
    → Beyond l k loc prefix
    → StartsWith prefix j
    → Apart loc j l k
Beyond-Apart l k loc prefix j (inl far) s = inl far
Beyond-Apart l k loc prefix j (inr far) s = inr (λ e. far (subst (StartsWith prefix) (sym e) s))

pub Beyond-longer :
    (l : Location) (k : Bytes) (loc : Location) (p q : Bytes)
    → Beyond l k loc p
    → StartsWith p q
    → Beyond l k loc q
Beyond-longer l k loc p q (inl far) s = inl far
Beyond-longer l k loc p q (inr far) s = inr (λ u. far (StartsWith-trans p q k s u))

module _ (s3 : S3) (laws : S3Laws s3) (l : Location) (k : Bytes) where
  open s3 use {Store, Paginator}
  open laws use {object}

  abbrev pub SameStore : Store → Store → Type 0
  SameStore s t = object t l k ≡ object s l k

  pub SameStore-order : IsPreorder SameStore
  SameStore-order = record { same = λ s. refl; chain = λ s t u p q. q ∙ p }

  after_head-Moves : (r : Result Head) → Moves SameStore (after_head s3 r)
  unfolding after_head
  after_head-Moves (ok out) = Moves-pure SameStore-order true
  after_head-Moves (err e) =
      Moves-if SameStore-order (is_missing e) (pure false) (fail e)
        (λ _. Moves-pure SameStore-order false) (λ _. Moves-fail SameStore-order e)

  pub exists-Moves : (b : Backend) (key : Bytes) → Moves SameStore (object_exists s3 b key)
  unfolding object_exists
  exists-Moves b key =
      Moves-bind SameStore-order _ _
        (Moves-attempt SameStore-order (s3.head_object b.location key)
          (record { move = λ s. laws.head_frame b.location key s l k }))
        after_head-Moves

  pub entries-Moves :
      (b : Backend) (prefix : Bytes) → Moves SameStore (prefix_has_entries s3 b prefix)
  unfolding prefix_has_entries
  entries-Moves b prefix =
      Moves-bind SameStore-order _ _
        (record { move = λ s. laws.list_frame b.location prefix (some slash) 1 s l k })
        (λ out. Moves-pure SameStore-order _)

  pub copy-Moves :
      (b : Backend) (src dst : Bytes)
      → Apart b.location dst l k
      → Moves SameStore (copy_object s3 b src dst)
  unfolding copy_object
  copy-Moves b src dst apart = record { move = λ s. laws.copy_frame b.location _ dst s l k apart }

  pub delete-Moves :
      (b : Backend) (key : Bytes)
      → Apart b.location key l k
      → Moves SameStore (delete_object s3 b key)
  unfolding delete_object
  delete-Moves b key apart = record { move = λ s. laws.delete_frame b.location key s l k apart }

  -- A batch of keys under a prefix does not hold a key that is not.
  batch-apart :
      (loc : Location) (prefix : Bytes) (keys : List Bytes)
      → Beyond l k loc prefix
      → All (StartsWith prefix) keys
      → (l ≢ loc) ⊎ (¬ In k keys)
  batch-apart loc prefix keys (inl far) h = inl far
  batch-apart loc prefix keys (inr far) h = inr (λ i. far (All-In (StartsWith prefix) k keys h i))

  delete_batches-Moves :
      (b : Backend) (prefix : Bytes) (parts : List (List Bytes))
      → Beyond l k b.location prefix
      → All (All (StartsWith prefix)) parts
      → Moves SameStore (delete_batches s3 b parts)
  unfolding delete_batches
  delete_batches-Moves b prefix [] beyond h = Moves-pure SameStore-order tt
  delete_batches-Moves b prefix (part ∷ parts) beyond h =
      Moves-bind SameStore-order _ _
        (record {
          move = λ s.
              laws.delete_all_frame b.location part s l k
                (batch-apart b.location prefix part beyond h.0);
        })
        (λ _. delete_batches-Moves b prefix parts beyond h.1)

  pub collect_keys-Moves :
      (fuel : ℕ) (p : Paginator) (keys : List Bytes) → Moves SameStore (collect_keys s3 fuel p keys)
  unfolding collect_keys
  collect_keys-Moves zero p keys = Moves-fail SameStore-order out_of_fuel
  collect_keys-Moves (suc fuel) p keys = elim (Bool-cases (s3.has_more_pages p)) [
    | inl more ↦
        rw (more, collect_keys)
          (Moves-bind SameStore-order (s3.next_page p) _
            (record { move = λ s. laws.page_frame p s l k })
            (λ r. collect_keys-Moves fuel r.1 (keys ++ map (λ o. o.key) r.0.contents)))
    | inr done ↦ rw (done, collect_keys) (Moves-pure SameStore-order keys)
  ]

  pub delete_prefix-Moves :
      (fuel : ℕ) (b : Backend) (prefix : Bytes)
      → Beyond l k b.location prefix
      → Moves SameStore (delete_prefix s3 fuel b prefix)
  unfolding delete_prefix
  delete_prefix-Moves fuel b prefix beyond =
      Moves-bind_with SameStore-order _ _ (collect_keys-Moves fuel _ []) (λ s keys e.
        delete_batches-Moves b prefix _ beyond (
          batches-All (StartsWith prefix) (length keys) keys (
            collect_keys-All s3 laws (StartsWith prefix) fuel _ [] keys s
              (λ j u. subst (λ x. StartsWith x j) (laws.new_prefix b.location prefix) u) tt e)))
