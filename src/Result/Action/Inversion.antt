-- ===== src/Result/Action/Inversion.antt =====
-- What a call that returned went through.
use sftp2s.Prelude.{◌≡◌, refl, arith}
use sftp2s.Result.{Result, ok, err}
use sftp2s.Result.Action.{Action, continue, ◌>>=◌}

-- The first part returned, and the second ran from the state that it left.
pub record Returned {W A B : Type 0} (m : Action W A) (f : A → Action W B) (w : W) (b : B)
    : Type 0 where
  pub value : A
  pub first : (m w).0 ≡ ok value
  pub second : (f value (m w).1).0 ≡ ok b
  pub state : ((m >>= f) w).1 ≡ (f value (m w).1).1

module _ {W A B : Type 0} where
  continue-eq-ok :
      (r : Result A) (f : A → Action W B) (v : W) {b : B}
      → (continue r f v).0 ≡ ok b
      → (a : A) × (r ≡ ok a) × ((f a v).0 ≡ ok b) × ((continue r f v).1 ≡ (f a v).1)
  continue-eq-ok (ok a) f v h = (a, refl, h, refl)
  continue-eq-ok (err e) f v h = absurd (ground arith)

  pub >>=-eq-ok :
      (m : Action W A) (f : A → Action W B) (w : W) {b : B}
      → ((m >>= f) w).0 ≡ ok b
      → Returned m f w b
  unfolding ◌>>=◌
  >>=-eq-ok m f w h =
      let (a, p, q, r) = continue-eq-ok (m w).0 f (m w).1 h in
      record { value = a; first = p; second = q; state = r }
