-- ===== src/Eval/Ends.antt =====
-- Actions that do not run out of fuel, whatever else may go wrong: a rule for each way to build one.
use falcon_lib.Base.{
  ℕ, ◌≡◌, ◌≢◌, ap, String, Bool, true, false, Option, none, some, get_elem?, if◌then◌else◌,
}
use falcon_lib.Errors.{Message, Result, ok, err, timeout, undefined, evaluation, exception}
use falcon_lib.Value.{RuntimeValue, Heap}
use falcon_lib.Ops.Total.{IsTimely}
use falcon_lib.Eval.{
  State, Eval, pure, throw, lift, gets, on_heap, modify_heap, require, deref, get_tuple,
  set_variable, continue, ◌>>=◌,
}

pub record Ends {ℓ} {A : Type ℓ} (m : Eval A) : Type ℓ where
  pub at : (s : State) → (m s).0 ≢ err timeout

module _ {ℓ} {A : Type ℓ} where
  pub Ends-pure : (a : A) → Ends (pure a)
  unfolding pure
  Ends-pure a = record { at = λ s e. cc }

  pub Ends-evaluation : (m : Message) → Ends (throw {A = A} (evaluation m))
  unfolding throw
  Ends-evaluation m = record { at = λ s e. cc }

  pub Ends-exception : (m : Message) → Ends (throw {A = A} (exception m))
  unfolding throw
  Ends-exception m = record { at = λ s e. cc }

  pub Ends-undefined : Ends (throw {A = A} undefined)
  unfolding throw
  Ends-undefined = record { at = λ s e. cc }

  pub Ends-lift : (r : Result A) → IsTimely r → Ends (lift r)
  unfolding lift
  Ends-lift r h = record { at = λ s. h.no }

  pub Ends-gets : (f : State → A) → Ends (gets f)
  unfolding gets
  Ends-gets f = record { at = λ s e. cc }

  pub Ends-on_heap : (f : Heap → A × Heap) → Ends (on_heap f)
  unfolding on_heap
  Ends-on_heap f = record { at = λ s e. cc }

  pub Ends-require : (o : Option A) (m : Message) → Ends (require o (evaluation m))
  unfolding require
  Ends-require none m = Ends-evaluation m
  Ends-require (some a) m = Ends-pure a

  pub Ends-require_defined : (o : Option A) → Ends (require o undefined)
  unfolding require
  Ends-require_defined none = Ends-undefined
  Ends-require_defined (some a) = Ends-pure a

  pub Ends-if : (b : Bool) (m n : Eval A) → Ends m → Ends n → Ends (if b then m else n)
  Ends-if true m n em en = em
  Ends-if false m n em en = en

pub Ends-modify_heap : (f : Heap → Heap) → Ends (modify_heap f)
unfolding modify_heap
Ends-modify_heap f = record { at = λ s e. cc }

pub Ends-set_variable : (name : String) (v : RuntimeValue) → Ends (set_variable name v)
unfolding set_variable
Ends-set_variable name v = record { at = λ s e. cc }

pub Ends-deref : (a : ℕ) → Ends (deref a)
unfolding deref
Ends-deref a = record { at = λ s. (Ends-require_defined (get_elem? s.heap.structs a)).at s }

pub Ends-get_tuple : (a : ℕ) → Ends (get_tuple a)
unfolding get_tuple
Ends-get_tuple a = record { at = λ s. (Ends-require_defined (get_elem? s.heap.tuples a)).at s }

module _ {ℓ} {A B : Type ℓ} where
  continue-Ends :
      (r : Result A) (f : A → Eval B) (s : State)
      → r ≢ err timeout
      → ((a : A) → Ends (f a))
      → (continue r f s).0 ≢ err timeout
  continue-Ends (ok a) f s h hf = (hf a).at s
  continue-Ends (err x) f s h hf = λ (e : (continue (err x) f s).0 ≡ err timeout).
      let q : x ≡ timeout = cc in h (ap (λ y. err y) q)

  pub Ends-bind : (m : Eval A) (f : A → Eval B) → Ends m → ((a : A) → Ends (f a)) → Ends (m >>= f)
  unfolding ◌>>=◌
  Ends-bind m f em ef = record { at = λ s. continue-Ends (m s).0 f (m s).1 (em.at s) ef }

pub ruleset ends_rules = (
  Ends-pure, Ends-evaluation, Ends-exception, Ends-undefined, Ends-gets, Ends-on_heap, Ends-require,
  Ends-if, Ends-modify_heap, Ends-set_variable, Ends-deref, Ends-get_tuple, Ends-bind,
)
