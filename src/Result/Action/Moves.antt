-- ===== src/Result/Action/Moves.antt =====
-- How an action may change the state: a preorder that holds between the state before and the state
-- after, whatever the action returns. One rule for each way to build an action.
use sftp2s.Prelude.{Bool, true, false, ◌≡◌, refl, if◌then◌else◌}
use sftp2s.Result.{Error, Result, ok, err}
use sftp2s.Result.Action.{Action, pure, fail, lift, attempt, require, ◌>>=◌}

pub record IsPreorder {W : Type 0} (R : W → W → Type 0) : Type 0 where
  pub same : (w : W) → R w w
  pub chain : (u v w : W) → R u v → R v w → R u w

pub record Moves {W A : Type 0} (R : W → W → Type 0) (m : Action W A) : Type 0 where
  pub move : (w : W) → R w (m w).1

module _ {W : Type 0} {R : W → W → Type 0} (order : IsPreorder R) where
  pub Moves-require : (b : Bool) (e : Error) → Moves R (require b e)
  unfolding require pure fail
  Moves-require true e = record { move = order.same }
  Moves-require false e = record { move = order.same }

  module _ {A : Type 0} where
    pub Moves-pure : (a : A) → Moves R (pure a)
    unfolding pure
    Moves-pure a = record { move = order.same }

    pub Moves-fail : (e : Error) → Moves R (fail {A = A} e)
    unfolding fail
    Moves-fail e = record { move = order.same }

    pub Moves-lift : (r : Result A) → Moves R (lift r)
    unfolding lift
    Moves-lift r = record { move = order.same }

    pub Moves-attempt : (m : Action W A) → Moves R m → Moves R (attempt m)
    unfolding attempt
    Moves-attempt m h = record { move = h.move }

    pub Moves-if :
        (b : Bool) (m n : Action W A)
        → (b ≡ true → Moves R m)
        → (b ≡ false → Moves R n)
        → Moves R (if b then m else n)
    Moves-if true m n hm hn = hm refl
    Moves-if false m n hm hn = hn refl

  module _ {A B : Type 0} where
    -- What follows a pure result may use that it is no error.
    pub Moves-after_lift :
        (r : Result A) (f : A → Action W B)
        → ((a : A) → r ≡ ok a → Moves R (f a))
        → Moves R (lift r >>= f)
    unfolding ◌>>=◌
    Moves-after_lift (ok a) f h = h a refl
    Moves-after_lift (err e) f h = Moves-fail e

    -- What follows an action may use what its results have in common.
    pub Moves-bind_with :
        (m : Action W A) (f : A → Action W B)
        → Moves R m
        → ((w : W) (a : A) → (m w).0 ≡ ok a → Moves R (f a))
        → Moves R (m >>= f)
    unfolding ◌>>=◌
    Moves-bind_with m f hm hf = record {
      move = λ w.
          order.chain w (m w).1 _ (hm.move w) ((Moves-after_lift (m w).0 f (hf w)).move (m w).1);
    }

    pub Moves-bind :
        (m : Action W A) (f : A → Action W B)
        → Moves R m
        → ((a : A) → Moves R (f a))
        → Moves R (m >>= f)
    Moves-bind m f hm hf = Moves-bind_with m f hm (λ w a _. hf a)

pub ruleset move_rules =
    (Moves-require, Moves-pure, Moves-fail, Moves-lift, Moves-attempt, Moves-if, Moves-bind)
