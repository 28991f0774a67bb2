-- ===== src/Eval/Fuel.antt =====
-- One action refines another: unless it runs out of fuel, the other does the same. A rule for each
-- way to build an action, and the loop over arguments.
use falcon_lib.Base.{
  ◌≡◌, ◌≢◌, refl, ap, ◌∙◌, Bool, true, false, Option, none, some, List, [], ◌∷◌, if◌then◌else◌,
}
use falcon_lib.Errors.{Result, ok, err, timeout}
use falcon_lib.Syntax.{TypeDescriptor, Expr, Stmt}
use falcon_lib.Value.{ParameterMap}
use falcon_lib.Eval.{State, Eval, in_env, continue, Runner, evaluate_list, ◌>>=◌}

pub record Refines {ℓ} {A : Type ℓ} (m m' : Eval A) : Type ℓ where
  pub at : (s : State) → (m s).0 ≢ err timeout → m' s ≡ m s

module _ {ℓ} {A : Type ℓ} where
  pub Refines-same : (m : Eval A) → Refines m m
  Refines-same m = record { at = λ s h. refl }

  pub Refines-if :
      (b : Bool) (m m' n n' : Eval A)
      → Refines m m'
      → Refines n n'
      → Refines (if b then m else n) (if b then m' else n')
  Refines-if true m m' n n' rm rn = rm
  Refines-if false m m' n n' rm rn = rn

  -- the end of `in_env`
  returned : State → Result A × State → Result (A × ParameterMap) × State
  returned s x =
      (elim x.0 [ ok a ↦ ok (a, x.1.vars) | err e ↦ err e ], record x.1 { vars = s.vars })

  returned-timeout :
      (s : State) (x : Result A × State) → x.0 ≡ err timeout → (returned s x).0 ≡ err timeout
  unfolding returned
  returned-timeout s x e = rw e refl

  pub Refines-in_env :
      (env : ParameterMap) (m m' : Eval A) → Refines m m' → Refines (in_env env m) (in_env env m')
  unfolding in_env returned
  Refines-in_env env m m' r = record {
    at = λ s h. ap (returned s) (
        r.at (record s { vars = env })
          (λ e. h (returned-timeout s (m (record s { vars = env })) e)));
  }

module _ {ℓ κ} {A : Type ℓ} {B : Type κ} where
  pub Refines-option :
      (o : Option A) (f f' : A → Eval B) (m m' : Eval B)
      → ((a : A) → Refines (f a) (f' a))
      → Refines m m'
      → Refines (elim o [ none ↦ m | some a ↦ f a ]) (elim o [ none ↦ m' | some a ↦ f' a ])
  Refines-option none f f' m m' rf rm = rm
  Refines-option (some a) f f' m m' rf rm = rf a

module _ {ℓ} {A B : Type ℓ} where
  continue-refines :
      (r : Result A) (f f' : A → Eval B) (s : State)
      → ((a : A) → Refines (f a) (f' a))
      → (continue r f s).0 ≢ err timeout
      → continue r f' s ≡ continue r f s
  continue-refines (ok a) f f' s rf h = (rf a).at s h
  continue-refines (err e) f f' s rf h = refl

  continue-timeout :
      (r : Result A) (f : A → Eval B) (s : State)
      → r ≡ err timeout
      → (continue r f s).0 ≡ err timeout
  continue-timeout r f s e = rw e refl

  pub Refines-bind :
      (m m' : Eval A) (f f' : A → Eval B)
      → Refines m m'
      → ((a : A) → Refines (f a) (f' a))
      → Refines (m >>= f) (m' >>= f')
  unfolding ◌>>=◌
  Refines-bind m m' f f' rm rf = record {
    at = λ s h.
        ap (λ (x : Result A × State). continue x.0 f' x.1)
          (rm.at s (λ e. h (continue-timeout (m s).0 f (m s).1 e)))
        ∙ continue-refines (m s).0 f f' (m s).1 rf h;
  }

pub ruleset refine_rules = (Refines-same, Refines-bind, Refines-in_env, Refines-if)

-- What a runner with more fuel has to show.
pub record RunnerRefines (run run' : Runner) : Type 0 where
  pub evaluate :
      (inferred : Option TypeDescriptor) (e : Expr)
      → Refines (run.evaluate inferred e) (run'.evaluate inferred e)
  pub execute_block :
      (body : List Stmt) → Refines (run.execute_block body) (run'.execute_block body)

module _ (run run' : Runner) (more : RunnerRefines run run') where
  pub Refines-evaluate_list :
      (es : List Expr) → Refines (evaluate_list run es) (evaluate_list run' es)
  unfolding evaluate_list
  Refines-evaluate_list [] = Refines-same _
  Refines-evaluate_list (e ∷ es) =
      Refines-bind _ _ _ _ (more.evaluate none e)
        λ v. Refines-bind _ _ _ _ (Refines-evaluate_list es) λ vs. Refines-same _
