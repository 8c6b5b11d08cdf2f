-- ===== src/Storage/Batches.antt =====
-- DeletePrefix: the batches of the keys.
use sftp2s.Prelude.{
  ℕ, zero, suc, ◌<◌, ◌≤◌, Bytes, List, [], ◌∷◌, ◌++◌, ◌≡◌, refl, All, length, drop,
  take-append-drop, length-take, length-drop, arith,
}
use sftp2s.Storage.Operations.{batches}

abbrev pub concat : List (List Bytes) → List Bytes
concat [] = []
concat (b ∷ bs) = b ++ concat bs

-- What S3 takes in one request.
pub record FitsRequest (keys : List Bytes) : Type 0 where
  pub some_key : 0 < length keys
  pub at_most_1000 : length keys ≤ 1000

batches-concat_upto :
    (fuel : ℕ) (keys : List Bytes)
    → length keys ≤ fuel
    → (concat (batches fuel keys) ≡ keys) × All FitsRequest (batches fuel keys)
unfolding batches
batches-concat_upto zero [] h = (refl, tt)
batches-concat_upto zero (k ∷ keys) h = absurd (omega (arith, h))
batches-concat_upto (suc fuel) [] h = (refl, tt)
batches-concat_upto (suc fuel) (k ∷ keys) h =
    let rest =
      batches-concat_upto fuel (drop 1000 (k ∷ keys))
        (omega (arith, h, length-drop 1000 (k ∷ keys))) in
    (
      rw rest.0 (take-append-drop 1000 (k ∷ keys)),
      (
        record {
          some_key = omega (arith, length-take 1000 (k ∷ keys));
          at_most_1000 = omega (arith, length-take 1000 (k ∷ keys));
        },
        rest.1,
      ),
    )

-- The batches are the keys, each once and in order, and no batch is empty or has more than 1000 keys.
-- As many rounds as there are keys are enough.
pub batches-concat :
    (keys : List Bytes)
    → (concat (batches (length keys) keys) ≡ keys) × All FitsRequest (batches (length keys) keys)
batches-concat keys = batches-concat_upto (length keys) keys (omega arith)
