-- ===== src/Storage/Deletion.antt =====
-- DeletePrefix: what is left behind it, and that it ends.
use sftp2s.Prelude.{
  ℕ, Bytes, bytes_eq, bytes_eq_iff, List, [], ◌∷◌, none, ◌≡◌, sym, subst, ◌∙◌, ◌⊎◌, inl, inr, In,
  In-append_cases, StartsWith, Bool-cases, Option-cases, arith,
}
use sftp2s.Result.{ok}
use sftp2s.Result.Action.{pure}
use sftp2s.Result.Action.Inversion.{>>=-eq-ok}
use sftp2s.S3.{S3, Location}
use sftp2s.S3.Laws.{S3Laws}
use sftp2s.Storage.{Backend}
use sftp2s.Storage.Operations.{collect_keys, delete_batches, delete_prefix}
use sftp2s.Storage.Collect.{collect_keys_complete}
use sftp2s.Storage.Frames.{collect_keys-Moves}
use sftp2s.Storage.Batches.{concat, batches-concat}

In-cases : (j : Bytes) (keys : List Bytes) → In j keys ⊎ (¬ In j keys)
In-cases j [] = inr (λ i. i)
In-cases j (k ∷ keys) = elim (In-cases j keys) [
  | inl i ↦ inl (inr i)
  | inr n ↦ elim (Bool-cases (bytes_eq j k)) [
    | inl same ↦ inl (inl ((bytes_eq_iff j k).0 same))
    | inr other ↦
        inr (λ i. elim i [ inl e ↦ absurd (ground (arith, bytes_eq_iff j k)) | inr i' ↦ n i' ])
  ]
]

-- The service lists no key under the errors of a response to DeleteObjects.
abbrev pub DeletesAll : (s3 : S3) → Type 0
DeletesAll s3 =
    (loc : Location) (keys failed : List Bytes) (s : s3.Store)
    → (s3.delete_objects loc keys s).0 ≡ ok failed
    → failed ≡ []

module _ (s3 : S3) (laws : S3Laws s3) (whole : DeletesAll s3) where
  open s3 use {Store, Paginator}
  open laws use {object}

  -- A request that succeeds leaves a key gone that it names, and one that was gone before.
  delete_batch_gone :
      (loc : Location) (batch failed : List Bytes) (s : Store) (j : Bytes)
      → (s3.delete_objects loc batch s).0 ≡ ok failed
      → (object s loc j ≡ none) ⊎ In j batch
      → object (s3.delete_objects loc batch s).1 loc j ≡ none
  delete_batch_gone loc batch failed s j e h = elim (In-cases j batch) [
    | inl i ↦ elim (laws.delete_all_ok loc batch failed s j e i) [
      | inl gone ↦ gone
      | inr listed ↦ absurd (subst (In j) (whole loc batch failed s e) listed)
    ]
    | inr n ↦ elim h [
      | inl gone ↦ laws.delete_all_frame loc batch s loc j (inr n) ∙ gone
      | inr i ↦ absurd (n i)
    ]
  ]

  delete_batches_gone :
      (b : Backend) (bs : List (List Bytes)) (s : Store) (j : Bytes)
      → (delete_batches s3 b bs s).0 ≡ ok tt
      → (object s b.location j ≡ none) ⊎ In j (concat bs)
      → object (delete_batches s3 b bs s).1 b.location j ≡ none
  unfolding delete_batches pure
  delete_batches_gone b [] s j e (inl gone) = gone
  delete_batches_gone b [] s j e (inr i) = absurd i
  delete_batches_gone b (batch ∷ bs) s j e h =
      let step = >>=-eq-ok (s3.delete_objects b.location batch) _ s e in
      rw step.state (
        delete_batches_gone b bs _ j step.second (elim (In-cases j (concat bs)) [
          | inl later ↦ inr later
          | inr not_later ↦ inl (
              delete_batch_gone b.location batch step.value s j step.first (elim h [
                | inl gone ↦ inl gone
                | inr i ↦ elim (In-append_cases j batch (concat bs) i) [
                  | inl now ↦ inr now
                  | inr later ↦ absurd (not_later later)
                ]
              ]))
        ]))

  -- A key that the listing finds is collected; one that has no object then is left without one.
  collected :
      (fuel : ℕ) (loc : Location) (prefix : Bytes) (keys : List Bytes) (s : Store) (j : Bytes)
      → (collect_keys s3 fuel (s3.new_paginator loc prefix none) [] s).0 ≡ ok keys
      → StartsWith prefix j
      → (object (collect_keys s3 fuel (s3.new_paginator loc prefix none) [] s).1 loc j ≡ none)
        ⊎ In j keys
  collected fuel loc prefix keys s j e u = elim (Option-cases (object s loc j)) [
    | inl absent ↦ inl (
        (collect_keys-Moves s3 laws loc j fuel (s3.new_paginator loc prefix none) []).move s
        ∙ absent)
    | inr (c, found) ↦ inr (
        collect_keys_complete s3 laws fuel (s3.new_paginator loc prefix none) [] keys s j e
          (inr (laws.new_complete loc prefix s j c u found)))
  ]

  -- With a service that follows S3.Laws: if DeletePrefix reports success, no object is left under
  -- the prefix, provided that the service lists no key under the errors of a response to
  -- DeleteObjects, which the code does not look at. A key under the prefix that has no object has
  -- none afterwards either.
  pub delete_prefix_gone :
      (fuel : ℕ) (b : Backend) (prefix : Bytes) (s : Store) (j : Bytes)
      → (delete_prefix s3 fuel b prefix s).0 ≡ ok tt
      → StartsWith prefix j
      → object (delete_prefix s3 fuel b prefix s).1 b.location j ≡ none
  unfolding delete_prefix
  delete_prefix_gone fuel b prefix s j e u =
      let step =
        >>=-eq-ok (collect_keys s3 fuel (s3.new_paginator b.location prefix none) []) _ s e in
      rw step.state (
        delete_batches_gone b _ _ j step.second
          (elim (collected fuel b.location prefix step.value s j step.first u) [
            | inl absent ↦ inl absent
            | inr i ↦ inr (subst (In j) (sym (batches-concat step.value).0) i)
          ]))

  -- A key without an object has none behind a DeletePrefix that succeeds.
  pub delete_prefix_absent :
      (fuel : ℕ) (b : Backend) (prefix : Bytes) (s : Store) (j : Bytes)
      → (delete_prefix s3 fuel b prefix s).0 ≡ ok tt
      → object s b.location j ≡ none
      → object (delete_prefix s3 fuel b prefix s).1 b.location j ≡ none
  unfolding delete_prefix
  delete_prefix_absent fuel b prefix s j e absent =
      let p = s3.new_paginator b.location prefix none in
      let step = >>=-eq-ok (collect_keys s3 fuel p []) _ s e in
      rw step.state (
        delete_batches_gone b _ _ j step.second
          (inl ((collect_keys-Moves s3 laws b.location j fuel p []).move s ∙ absent)))
