-- ===== src/Result/Action.antt =====
-- Calls that change a state and may return an error. What was written before the error stays
-- written, so the state comes back beside it.
pub mod Moves
pub mod Inversion
use sftp2s.Prelude.{Bool, true, false}
use sftp2s.Result.{Error, Result, ok, err}

abbrev pub Action : Type 0 → Type 0 → Type 0
Action W A = W → Result A × W

module _ {W A : Type 0} where
  unfoldable pub pure : A → Action W A
  pure a w = (ok a, w)

  unfoldable pub fail : Error → Action W A
  fail e w = (err e, w)

  unfoldable pub lift : Result A → Action W A
  lift r w = (r, w)

  -- The error is a value: the caller looks at it.
  unfoldable pub attempt : Action W A → Action W (Result A)
  attempt m w = (ok (m w).0, (m w).1)

module _ {W A B : Type 0} where
  abbrev pub continue : Result A → (A → Action W B) → Action W B
  continue (ok a) f w = f a w
  continue (err e) f w = (err e, w)

  infixl 10 ◌>>=◌ ◌>>◌
  -- Opening this opens the other ways to build an action too.
  unfoldable pub ◌>>=◌ : Action W A → (A → Action W B) → Action W B
  unfolding pure fail lift attempt
  ◌>>=◌ m f w = continue (m w).0 f (m w).1

  abbrev pub ◌>>◌ : Action W A → Action W B → Action W B
  m >> n = m >>= λ _. n

-- if !b { return err }
unfoldable pub require : {W : Type 0} → Bool → Error → Action W (Unit {0})
unfolding pure fail
require true e = pure tt
require false e = fail e
