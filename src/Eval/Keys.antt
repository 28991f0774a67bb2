-- ===== src/Eval/Keys.antt =====
-- Actions that take no variable away: what has a value before has one after.
use falcon_lib.Base.{String, Bool, true, false, ◌≡◌, refl, Option, none, some, if◌then◌else◌, arith}
use falcon_lib.Base.Maps.{contains, contains-insert}
use falcon_lib.Errors.{Failure, Result, ok, err}
use falcon_lib.Value.{RuntimeValue}
use falcon_lib.Eval.{State, Eval, require, set_variable, continue, ◌>>=◌}
use falcon_lib.Eval.Frame.{KeepsVars}

abbrev pub HasVar : String → State → Type 0
HasVar k s = contains k s.vars ≡ true

pub record KeepsVar {ℓ} {A : Type ℓ} (k : String) (m : Eval A) : Type ℓ where
  pub at : (s : State) → HasVar k s → HasVar k (m s).1

pub KeepsVar-frame {ℓ} : {A : Type ℓ} (k : String) (m : Eval A) → KeepsVars m → KeepsVar k m
KeepsVar-frame k m f = record { at = λ s h. rw (f.at s) h }

pub KeepsVar-set_variable : (k name : String) (v : RuntimeValue) → KeepsVar k (set_variable name v)
unfolding set_variable
KeepsVar-set_variable k name v = record {
  at = λ s h. ground (arith, contains-insert name k v s.vars);
}

module _ {ℓ} {A B : Type ℓ} (k : String) where
  KeepsVar-continue :
      (r : Result A) (f : A → Eval B)
      → ((a : A) → KeepsVar k (f a))
      → (s : State) → HasVar k s
      → HasVar k (continue r f s).1
  KeepsVar-continue (ok a) f kf s h = (kf a).at s h
  KeepsVar-continue (err e) f kf s h = h

  pub KeepsVar-bind :
      (m : Eval A) (f : A → Eval B)
      → KeepsVar k m
      → ((a : A) → KeepsVar k (f a))
      → KeepsVar k (m >>= f)
  unfolding ◌>>=◌
  KeepsVar-bind m f km kf = record {
    at = λ s h. KeepsVar-continue (m s).0 f kf (m s).1 (km.at s h);
  }

module _ {ℓ} {A : Type ℓ} (k : String) where
  pub KeepsVar-if :
      (b : Bool) (m n : Eval A) → KeepsVar k m → KeepsVar k n → KeepsVar k (if b then m else n)
  KeepsVar-if true m n km kn = km
  KeepsVar-if false m n km kn = kn

-- Inversion of a successful bind.
module _ {ℓ} {A B : Type ℓ} where
  continue-eq-ok :
      (r : Result A) (f : A → Eval B) (s : State) {b : B} {s'' : State}
      → continue r f s ≡ (ok b, s'')
      → (a : A) × (r ≡ ok a) × (f a s ≡ (ok b, s''))
  continue-eq-ok (ok a) f s e = (a, refl, e)
  continue-eq-ok (err x) f s e = cc

  pub >>=-eq-ok :
      (m : Eval A) (f : A → Eval B) (s : State) {b : B} {s'' : State}
      → (m >>= f) s ≡ (ok b, s'')
      → (a : A) × ((m s).0 ≡ ok a) × (f a (m s).1 ≡ (ok b, s''))
  unfolding ◌>>=◌
  >>=-eq-ok m f s e = continue-eq-ok (m s).0 f (m s).1 e

  pub require-eq-ok :
      (o : Option A) (e : Failure) (f : A → Eval B) (s : State) {b : B} {s'' : State}
      → (require o e >>= f) s ≡ (ok b, s'')
      → (a : A) × (o ≡ some a) × (f a s ≡ (ok b, s''))
  unfolding ◌>>=◌ require
  require-eq-ok none e f s h = cc
  require-eq-ok (some a) e f s h = (a, refl, h)
