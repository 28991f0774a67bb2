-- ===== src/Eval/Frame.antt =====
-- Actions that leave the variable environment alone: a rule for each way to build an action, and
-- the parts of the evaluator.
use falcon_lib.Base.{
  ℕ, Bool, true, false, ◌≡◌, refl, ◌∙◌, Option, none, some, List, [], ◌∷◌, if◌then◌else◌,
}
use falcon_lib.Errors.{Failure, Result, ok, err}
use falcon_lib.Syntax.{TypeDescriptor, Expr}
use falcon_lib.Value.{RuntimeValue, ParameterMap, Heap}
use falcon_lib.Registry.Types.{TypeRegistry}
use falcon_lib.Eval.{
  World, State, Eval, pure, throw, lift, gets, on_world, on_heap, on_types, modify_heap, in_env,
  require, deref, get_tuple, continue, Runner, pack_outputs, evaluate_list, ◌>>=◌,
}

pub record KeepsVars {ℓ} {A : Type ℓ} (m : Eval A) : Type ℓ where
  pub at : (s : State) → (m s).1.vars ≡ s.vars

module _ {ℓ} {A : Type ℓ} where
  pub KeepsVars-pure : (a : A) → KeepsVars (pure a)
  unfolding pure
  KeepsVars-pure a = record { at = λ s. refl }

  pub KeepsVars-throw : (e : Failure) → KeepsVars (throw {A = A} e)
  unfolding throw
  KeepsVars-throw e = record { at = λ s. refl }

  pub KeepsVars-lift : (r : Result A) → KeepsVars (lift r)
  unfolding lift
  KeepsVars-lift r = record { at = λ s. refl }

  pub KeepsVars-gets : (f : State → A) → KeepsVars (gets f)
  unfolding gets
  KeepsVars-gets f = record { at = λ s. refl }

  pub KeepsVars-on_world : (f : World → Result A × World) → KeepsVars (on_world f)
  unfolding on_world
  KeepsVars-on_world f = record { at = λ s. refl }

  pub KeepsVars-on_heap : (f : Heap → A × Heap) → KeepsVars (on_heap f)
  unfolding on_heap
  KeepsVars-on_heap f = record { at = λ s. refl }

  pub KeepsVars-on_types : (f : TypeRegistry → Result A × TypeRegistry) → KeepsVars (on_types f)
  unfolding on_types
  KeepsVars-on_types f = record { at = λ s. refl }

  -- whatever the action does
  pub KeepsVars-in_env : (env : ParameterMap) (m : Eval A) → KeepsVars (in_env env m)
  unfolding in_env
  KeepsVars-in_env env m = record { at = λ s. refl }

  pub KeepsVars-require : (o : Option A) (e : Failure) → KeepsVars (require o e)
  unfolding require
  KeepsVars-require none e = record { at = λ s. refl }
  KeepsVars-require (some a) e = record { at = λ s. refl }

  pub KeepsVars-if :
      (b : Bool) (m n : Eval A) → KeepsVars m → KeepsVars n → KeepsVars (if b then m else n)
  KeepsVars-if true m n km kn = km
  KeepsVars-if false m n km kn = kn

-- a case split on an optional value
module _ {ℓ κ} {A : Type ℓ} {B : Type κ} where
  pub KeepsVars-option :
      (o : Option A) (f : A → Eval B) (m : Eval B)
      → ((a : A) → KeepsVars (f a))
      → KeepsVars m
      → KeepsVars (elim o [ none ↦ m | some a ↦ f a ])
  KeepsVars-option none f m kf km = km
  KeepsVars-option (some a) f m kf km = kf a

pub KeepsVars-modify_heap : (f : Heap → Heap) → KeepsVars (modify_heap f)
unfolding modify_heap
KeepsVars-modify_heap f = record { at = λ s. refl }

pub KeepsVars-deref : (a : ℕ) → KeepsVars (deref a)
unfolding deref
KeepsVars-deref a = record { at = λ s. (KeepsVars-require _ _).at s }

pub KeepsVars-get_tuple : (a : ℕ) → KeepsVars (get_tuple a)
unfolding get_tuple
KeepsVars-get_tuple a = record { at = λ s. (KeepsVars-require _ _).at s }

module _ {ℓ κ} {A : Type ℓ} {B : Type κ} where
  KeepsVars-continue :
      (r : Result A) (f : A → Eval B)
      → ((a : A) → KeepsVars (f a))
      → (s : State) → (continue r f s).1.vars ≡ s.vars
  KeepsVars-continue (ok a) f kf s = (kf a).at s
  KeepsVars-continue (err e) f kf s = refl

module _ {ℓ} {A B : Type ℓ} where
  pub KeepsVars-bind :
      (m : Eval A) (f : A → Eval B)
      → KeepsVars m
      → ((a : A) → KeepsVars (f a))
      → KeepsVars (m >>= f)
  unfolding ◌>>=◌
  KeepsVars-bind m f km kf = record { at = λ s. KeepsVars-continue (m s).0 f kf (m s).1 ∙ km.at s }

pub ruleset frame_rules = (
  KeepsVars-pure, KeepsVars-throw, KeepsVars-lift, KeepsVars-gets, KeepsVars-on_world,
  KeepsVars-on_heap, KeepsVars-on_types, KeepsVars-in_env, KeepsVars-require, KeepsVars-if,
  KeepsVars-modify_heap, KeepsVars-deref, KeepsVars-get_tuple, KeepsVars-bind,
)

pub KeepsVars-pack_outputs : (vs : List RuntimeValue) → KeepsVars (pack_outputs vs)
unfolding pack_outputs
KeepsVars-pack_outputs [] = search frame_rules
KeepsVars-pack_outputs (v ∷ []) = search frame_rules
KeepsVars-pack_outputs (v ∷ w ∷ vs) = search frame_rules

-- What a runner has to show for its calls.
pub record RunnerKeepsVars (run : Runner) : Type 0 where
  pub evaluate : (inferred : Option TypeDescriptor) (e : Expr) → KeepsVars (run.evaluate inferred e)

module _ (run : Runner) (frame : RunnerKeepsVars run) where
  pub KeepsVars-evaluate_list : (es : List Expr) → KeepsVars (evaluate_list run es)
  unfolding evaluate_list
  KeepsVars-evaluate_list [] = search frame_rules
  KeepsVars-evaluate_list (e ∷ es) =
      KeepsVars-bind _ _ (frame.evaluate none e)
        λ v. KeepsVars-bind _ _ (KeepsVars-evaluate_list es) λ vs. KeepsVars-pure _
