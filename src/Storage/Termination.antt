-- ===== src/Storage/Termination.antt =====
-- DeletePrefix: the rounds of its loops.
use sftp2s.Prelude.{
  ℕ, zero, suc, ◌<◌, true, Bytes, List, [], ◌∷◌, none, ◌≡◌, ◌≢◌, refl, ap, inl, inr, Bool-cases,
  arith,
}
use sftp2s.Result.{Result, ok, err, out_of_fuel}
use sftp2s.Result.Action.{Action, pure, continue, ◌>>=◌}
use sftp2s.S3.{S3, Location, Page}
use sftp2s.S3.Laws.{S3Laws}
use sftp2s.Storage.{Backend}
use sftp2s.Storage.Operations.{collect_keys, delete_batches, delete_prefix}

-- The service does not answer with the error that stands for a loop that is cut off.
pub record Answers (s3 : S3) : Type 0 where
  pub page : (p : s3.Paginator) (s : s3.Store) → (s3.next_page p s).0 ≢ err out_of_fuel
  pub delete :
      (loc : Location) (keys : List Bytes) (s : s3.Store)
      → (s3.delete_objects loc keys s).0 ≢ err out_of_fuel

module _ {W A B : Type 0} where
  continue-ends :
      (r : Result A) (f : A → Action W B) (v : W)
      → r ≢ err out_of_fuel
      → ((a : A) → r ≡ ok a → (f a v).0 ≢ err out_of_fuel)
      → (continue r f v).0 ≢ err out_of_fuel
  continue-ends (ok a) f v hr hf e = hf a refl e
  continue-ends (err x) f v hr hf e = hr (ap again e)
    where
      again : Result B → Result A
      again (ok b) = err x
      again (err y) = err y

  -- If neither part is cut off, the whole is not.
  bind-ends :
      (m : Action W A) (f : A → Action W B) (w : W)
      → (m w).0 ≢ err out_of_fuel
      → ((a : A) → (m w).0 ≡ ok a → (f a (m w).1).0 ≢ err out_of_fuel)
      → ((m >>= f) w).0 ≢ err out_of_fuel
  unfolding ◌>>=◌
  bind-ends m f w hm hf = continue-ends (m w).0 f (m w).1 hm hf

module _ (s3 : S3) (laws : S3Laws s3) (answers : Answers s3) where
  open s3 use {Store, Paginator}

  page_shrinks :
      (p : Paginator) (s : Store) (r : Page × Paginator)
      → s3.has_more_pages p ≡ true
      → (s3.next_page p s).0 ≡ ok r
      → laws.pages_left r.1 (s3.next_page p s).1 < laws.pages_left p s
  page_shrinks p s (page, q) more e =
      let n = laws.next_page_ok p q s page more e in
      let same =
        (laws.pending_stable q s (s3.next_page p s).1 (λ x _. laws.page_frame p s _ x)).1 in
      omega (arith, n.2, same)

  collect_keys_ends :
      (fuel : ℕ) (p : Paginator) (keys : List Bytes) (s : Store)
      → laws.pages_left p s < fuel
      → (collect_keys s3 fuel p keys s).0 ≢ err out_of_fuel
  unfolding collect_keys pure
  collect_keys_ends zero p keys s h = absurd (omega (arith, h))
  collect_keys_ends (suc fuel) p keys s h = elim (Bool-cases (s3.has_more_pages p)) [
    | inl more ↦
        rw (more, collect_keys)
          (bind-ends (s3.next_page p) _ s (answers.page p s)
            λ r e. collect_keys_ends fuel r.1 _ _ (omega (arith, page_shrinks p s r more e, h)))
    | inr done ↦ rw (done, collect_keys) (λ e. absurd (ground arith))
  ]

  delete_batches_ends :
      (b : Backend) (bs : List (List Bytes)) (s : Store)
      → (delete_batches s3 b bs s).0 ≢ err out_of_fuel
  unfolding delete_batches pure
  delete_batches_ends b [] s = λ e. absurd (ground arith)
  delete_batches_ends b (batch ∷ bs) s =
      bind-ends (s3.delete_objects b.location batch) _ s (answers.delete b.location batch s)
        (λ r e. delete_batches_ends b bs _)

  -- DeletePrefix ends, with a service that follows S3.Laws and has no such error of its own: it is
  -- never cut off, if it may take more rounds than the listing of the prefix has pages.
  pub delete_prefix_ends :
      (fuel : ℕ) (b : Backend) (prefix : Bytes) (s : Store)
      → laws.pages_left (s3.new_paginator b.location prefix none) s < fuel
      → (delete_prefix s3 fuel b prefix s).0 ≢ err out_of_fuel
  unfolding delete_prefix
  delete_prefix_ends fuel b prefix s h =
      bind-ends (collect_keys s3 fuel (s3.new_paginator b.location prefix none) []) _ s
        (collect_keys_ends fuel _ [] s h) (λ keys e. delete_batches_ends b _ _)
