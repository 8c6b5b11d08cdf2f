-- ===== src/Config/Bcrypt.antt =====
-- The form of a bcrypt hash, for isValidBcryptHash.
use sftp2s.Prelude.{ℕ, true, Bytes, has_prefix, length, [], ◌∷◌, ◌≡◌, ◌⊎◌, refl, arith}
use sftp2s.Result.{Result, ok, err}
use sftp2s.Config.{is_ok, is_valid_bcrypt_hash}

-- What bcrypt prints: `$2`, a version, `$` and the rest, 60 bytes in all, with a cost that bcrypt reads.
pub record BcryptHash (cost : Bytes → Result ℕ) (s : Bytes) : Type 0 where
  pub version : ℕ
  pub rest : Bytes
  pub form : s ≡ b'$' ∷ b'2' ∷ version ∷ b'$' ∷ rest
  pub known : (version ≡ b'a') ⊎ ((version ≡ b'b') ⊎ (version ≡ b'y'))
  pub size : length s ≡ 60
  pub price : ℕ
  pub priced : cost s ≡ ok price

cost_of : (r : Result ℕ) → is_ok r ≡ true → (n : ℕ) × (r ≡ ok n)
cost_of (ok n) h = (n, refl)
cost_of (err e) h = absurd (ground (arith, h))

pub hash→BcryptHash :
    (cost : Bytes → Result ℕ) (s : Bytes) → is_valid_bcrypt_hash cost s ≡ true → BcryptHash cost s
unfolding is_valid_bcrypt_hash has_prefix
hash→BcryptHash cost (a ∷ b ∷ version ∷ d ∷ rest) h =
    let (price, priced) = cost_of (cost (a ∷ b ∷ version ∷ d ∷ rest)) (ground (arith, h)) in
    record {
      version = version;
      rest = rest;
      form = ground (arith, h);
      known = ground (arith, h);
      size = ground (arith, h);
      price = price;
      priced = priced;
    }
hash→BcryptHash cost [] h = absurd (ground (arith, h))
hash→BcryptHash cost (a ∷ []) h = absurd (ground (arith, h))
hash→BcryptHash cost (a ∷ b ∷ []) h = absurd (ground (arith, h))
hash→BcryptHash cost (a ∷ b ∷ c ∷ []) h = absurd (ground (arith, h))

pub BcryptHash→hash :
    (cost : Bytes → Result ℕ) (s : Bytes) → BcryptHash cost s → is_valid_bcrypt_hash cost s ≡ true
unfolding is_valid_bcrypt_hash has_prefix
BcryptHash→hash cost s b = ground (arith, b.form, b.known, b.size, b.priced)
