-- ===== src/Storage/Collect.antt =====
-- DeletePrefix: the keys that are collected over the pages of a listing, and the batches.
use sftp2s.Prelude.{
  ℕ, zero, suc, Bytes, List, [], ◌∷◌, map, ◌≡◌, subst, ◌⊎◌, inl, inr, All, All-append, All-of_In,
  All-take, All-drop, In, In-append_left, In-append_right, StartsWith, Bool-cases, arith,
}
use sftp2s.Result.{ok, ok-injective}
use sftp2s.Result.Action.{pure, fail}
use sftp2s.Result.Action.Inversion.{>>=-eq-ok}
use sftp2s.S3.{S3}
use sftp2s.S3.Laws.{S3Laws}
use sftp2s.Storage.Operations.{collect_keys, batches}

module _ (s3 : S3) (laws : S3Laws s3) where
  open s3 use {Store, Paginator}

  -- Only keys under the prefix of the listing are collected.
  pub collect_keys-All :
      (P : Bytes → Type 0) (fuel : ℕ) (p : Paginator) (keys out : List Bytes) (s : Store)
      → ((j : Bytes) → StartsWith (laws.prefix_of p) j → P j)
      → All P keys
      → (collect_keys s3 fuel p keys s).0 ≡ ok out
      → All P out
  unfolding collect_keys pure fail
  collect_keys-All P zero p keys out s under h e = absurd (ground arith)
  collect_keys-All P (suc fuel) p keys out s under h e = elim (Bool-cases (s3.has_more_pages p)) [
    | inl more ↦
        let step = >>=-eq-ok (s3.next_page p) _ s (rw (more, collect_keys) at e) in
        let (page, q) = step.value in
        let n = laws.next_page_ok p q s page more step.first in
        let listed : All P (map (λ o. o.key) page.contents) =
          All-of_In P _ (λ j i. under j (laws.pending_prefix p s j (n.0 j i))) in
        collect_keys-All P fuel q _ out _ (λ j u. under j (subst (λ x. StartsWith x j) n.4 u))
          (All-append P keys _ h listed) step.second
    | inr done ↦ subst (All P) (ok-injective (rw (done, collect_keys) at e)) h
  ]

  -- What was collected before stays, and every key that the listing had still to return is added.
  pub collect_keys_complete :
      (fuel : ℕ) (p : Paginator) (keys out : List Bytes) (s : Store) (j : Bytes)
      → (collect_keys s3 fuel p keys s).0 ≡ ok out
      → In j keys ⊎ In j (laws.pending p s)
      → In j out
  unfolding collect_keys pure fail
  collect_keys_complete zero p keys out s j e i = absurd (ground arith)
  collect_keys_complete (suc fuel) p keys out s j e i = elim (Bool-cases (s3.has_more_pages p)) [
    | inl more ↦
        let step = >>=-eq-ok (s3.next_page p) _ s (rw (more, collect_keys) at e) in
        let (page, q) = step.value in
        let n = laws.next_page_ok p q s page more step.first in
        let later : In j (laws.pending q s) → In j (laws.pending q (s3.next_page p s).1) =
          (laws.pending_stable q s _ (λ x _. laws.page_frame p s _ x)).0 j in
        collect_keys_complete fuel q _ out _ j step.second (elim i [
          | inl before ↦ inl (In-append_left j keys _ before)
          | inr waiting ↦ elim (n.1 j waiting) [
            | inl now ↦ inl (In-append_right j keys _ now)
            | inr more' ↦ inr (later more')
          ]
        ])
    | inr done ↦ subst (In j) (ok-injective (rw (done, collect_keys) at e)) (elim i [
      | inl before ↦ before
      | inr waiting ↦ absurd (laws.no_more_pages p s j done waiting)
    ])
  ]

-- A predicate of all keys holds in every batch.
pub batches-All :
    (P : Bytes → Type 0) (fuel : ℕ) (keys : List Bytes)
    → All P keys
    → All (All P) (batches fuel keys)
unfolding batches
batches-All P zero keys h = tt
batches-All P (suc fuel) [] h = tt
batches-All P (suc fuel) (k ∷ keys) h =
    (All-take P 1000 (k ∷ keys) h, batches-All P fuel _ (All-drop P 1000 (k ∷ keys) h))
