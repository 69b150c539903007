-- ===== src/Controller/Logic.antt =====
-- Rules for the controller's actions: what they keep of the node, that they do not throw, and
-- what a success of a chain says of its parts. Used with `search` over the sets at the end.
use ros2_dispatcher.Prelude.{
  Bool, true, false, Option, none, some, ◌≡◌, refl, arith, String, if◌then◌else◌,
}
use ros2_dispatcher.Controller.Types.{Controller}
use ros2_dispatcher.Controller.World.{
  Log, Call, Sys, Outcome, ok, fail, thrown, Action, pure, fails, continue, ◌>>=◌, gets, modify,
  ask, settle, attempt,
}
use ros2_dispatcher.Controller.Services.{or_timeout, require}
use ros2_dispatcher.Controller.Selection.{ignore_failure}
use ros2_dispatcher.Controller.Apply.{or_fail, lift}

-- `m` keeps `P` of the node, however it ends.
pub record Keeps {A : Type 0} (P : Controller → Type 0) (m : Action A) : Type 0 where
  pub at : (s : Sys) → P s.node → P (m s).1.node

abbrev pub Returns : {A : Type 0} → Outcome A → Type 0
Returns (ok a) = Unit {0}
Returns (fail e) = Unit {0}
Returns (thrown e) = ⊥

-- `m` does not throw.
pub record NoThrow {A : Type 0} (m : Action A) : Type 0 where
  pub at : (s : Sys) → Returns (m s).0

module _ {A : Type 0} {P : Controller → Type 0} where
  pub Keeps-pure : (a : A) → Keeps P (pure a)
  Keeps-pure a = record { at = λ s h. h }

  pub Keeps-fails : (e : String) → Keeps P (fails {A = A} e)
  Keeps-fails e = record { at = λ s h. h }

  pub Keeps-gets : (f : Controller → A) → Keeps P (gets f)
  Keeps-gets f = record { at = λ s h. h }

  pub Keeps-lift : (r : Outcome A) → Keeps P (lift r)
  unfolding lift
  Keeps-lift r = record { at = λ s h. h }

  pub Keeps-ask : (f : Log → A) (c : Call) → Keeps P (ask f c)
  unfolding ask
  Keeps-ask f c = record { at = λ s h. h }

  pub Keeps-or_timeout : (e : String) (o : Option A) → Keeps P (or_timeout e o)
  unfolding or_timeout
  Keeps-or_timeout e none = record { at = λ s h. h }
  Keeps-or_timeout e (some a) = record { at = λ s h. h }

  pub Keeps-or_fail : (e : String) (o : Option A) → Keeps P (or_fail e o)
  unfolding or_fail
  Keeps-or_fail e none = record { at = λ s h. h }
  Keeps-or_fail e (some a) = record { at = λ s h. h }

  pub Keeps-if : (b : Bool) (m n : Action A) → Keeps P m → Keeps P n → Keeps P (if b then m else n)
  Keeps-if true m n km kn = km
  Keeps-if false m n km kn = kn

module _ {P : Controller → Type 0} where
  pub Keeps-modify :
      (f : Controller → Controller) → ((n : Controller) → P n → P (f n)) → Keeps P (modify f)
  Keeps-modify f h = record { at = λ s. h s.node }

  pub Keeps-require : (b : Bool) (e : String) → Keeps P (require b e)
  unfolding require
  Keeps-require true e = record { at = λ s h. h }
  Keeps-require false e = record { at = λ s h. h }

  pub Keeps-ignore : (m : Action (Unit {0})) → Keeps P m → Keeps P (ignore_failure m)
  unfolding ignore_failure
  Keeps-ignore m k = record { at = λ s h. ground (arith, k.at s h) }

module _ {A B : Type 0} {P : Controller → Type 0} where
  Keeps-continue :
      (r : Outcome A) (f : A → Action B) (s : Sys)
      → ((a : A) → Keeps P (f a))
      → P s.node
      → P (continue r f s).1.node
  Keeps-continue (ok a) f s k h = (k a).at s h
  Keeps-continue (fail e) f s k h = h
  Keeps-continue (thrown e) f s k h = h

  pub Keeps-bind :
      (m : Action A) (f : A → Action B) → Keeps P m → ((a : A) → Keeps P (f a)) → Keeps P (m >>= f)
  Keeps-bind m f km kf = record { at = λ s h. Keeps-continue (m s).0 f (m s).1 kf (km.at s h) }

  Keeps-settle :
      (r : Outcome A) (failed : String → Action B) (done : A → Action B)
      → ((e : String) → Keeps P (failed e))
      → ((a : A) → Keeps P (done a))
      → Keeps P (settle r failed done)
  Keeps-settle (ok a) failed done kf kd = record { at = λ s h. (kd a).at s h }
  Keeps-settle (fail e) failed done kf kd = record { at = λ s h. (kf e).at s h }
  Keeps-settle (thrown e) failed done kf kd = record { at = λ s h. h }

  pub Keeps-attempt :
      (m : Action A) (failed : String → Action B) (done : A → Action B)
      → Keeps P m
      → ((e : String) → Keeps P (failed e))
      → ((a : A) → Keeps P (done a))
      → Keeps P (attempt m failed done)
  Keeps-attempt m failed done km kf kd = record {
    at = λ s h. (Keeps-settle (m s).0 failed done kf kd).at (m s).1 (km.at s h);
  }

module _ {A : Type 0} where
  pub NoThrow-pure : (a : A) → NoThrow (pure a)
  NoThrow-pure a = record { at = λ s. tt }

  pub NoThrow-fails : (e : String) → NoThrow (fails {A = A} e)
  NoThrow-fails e = record { at = λ s. tt }

  pub NoThrow-gets : (f : Controller → A) → NoThrow (gets f)
  NoThrow-gets f = record { at = λ s. tt }

  pub NoThrow-lift : (r : Outcome A) → Returns r → NoThrow (lift r)
  unfolding lift
  NoThrow-lift r h = record { at = λ s. h }

  pub NoThrow-ask : (f : Log → A) (c : Call) → NoThrow (ask f c)
  unfolding ask
  NoThrow-ask f c = record { at = λ s. tt }

  pub NoThrow-or_timeout : (e : String) (o : Option A) → NoThrow (or_timeout e o)
  unfolding or_timeout
  NoThrow-or_timeout e none = record { at = λ s. tt }
  NoThrow-or_timeout e (some a) = record { at = λ s. tt }

  pub NoThrow-or_fail : (e : String) (o : Option A) → NoThrow (or_fail e o)
  unfolding or_fail
  NoThrow-or_fail e none = record { at = λ s. tt }
  NoThrow-or_fail e (some a) = record { at = λ s. tt }

  pub NoThrow-if :
      (b : Bool) (m n : Action A) → NoThrow m → NoThrow n → NoThrow (if b then m else n)
  NoThrow-if true m n km kn = km
  NoThrow-if false m n km kn = kn

pub NoThrow-modify : (f : Controller → Controller) → NoThrow (modify f)
NoThrow-modify f = record { at = λ s. tt }

pub NoThrow-require : (b : Bool) (e : String) → NoThrow (require b e)
unfolding require
NoThrow-require true e = record { at = λ s. tt }
NoThrow-require false e = record { at = λ s. tt }

pub NoThrow-ignore : (m : Action (Unit {0})) → NoThrow m → NoThrow (ignore_failure m)
unfolding ignore_failure
NoThrow-ignore m k = record { at = λ s. ground (arith, k.at s) }

module _ {A B : Type 0} where
  NoThrow-continue :
      (r : Outcome A) (f : A → Action B) (s : Sys)
      → ((a : A) → NoThrow (f a))
      → Returns r
      → Returns (continue r f s).0
  NoThrow-continue (ok a) f s k h = (k a).at s
  NoThrow-continue (fail e) f s k h = tt
  NoThrow-continue (thrown e) f s k h = h

  pub NoThrow-bind :
      (m : Action A) (f : A → Action B) → NoThrow m → ((a : A) → NoThrow (f a)) → NoThrow (m >>= f)
  NoThrow-bind m f km kf = record { at = λ s. NoThrow-continue (m s).0 f (m s).1 kf (km.at s) }

  continue-ok :
      (r : Outcome A) (f : A → Action B) (s : Sys) {b : B}
      → (continue r f s).0 ≡ ok b
      → (a : A) × (r ≡ ok a) × (continue r f s ≡ f a s)
  continue-ok (ok a) f s h = (a, refl, refl)
  continue-ok (fail e) f s h = cc
  continue-ok (thrown e) f s h = cc

  -- A chain succeeds by a success of its first part, and is then the rest of it.
  pub bind-ok :
      (m : Action A) (f : A → Action B) (s : Sys) {b : B}
      → ((m >>= f) s).0 ≡ ok b
      → (a : A) × ((m s).0 ≡ ok a) × ((m >>= f) s ≡ f a (m s).1)
  bind-ok m f s h = continue-ok (m s).0 f (m s).1 h

pub ruleset keeps_rules = (
  Keeps-pure, Keeps-fails, Keeps-gets, Keeps-lift, Keeps-ask, Keeps-or_timeout, Keeps-or_fail,
  Keeps-if, Keeps-modify, Keeps-require, Keeps-ignore, Keeps-bind, Keeps-attempt,
)

pub ruleset no_throw_rules = (
  NoThrow-pure, NoThrow-fails, NoThrow-gets, NoThrow-ask, NoThrow-or_timeout, NoThrow-or_fail,
  NoThrow-if, NoThrow-modify, NoThrow-require, NoThrow-ignore, NoThrow-bind,
)
