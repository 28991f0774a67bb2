-- ===== src/Eval/Routine/WriteBack.antt =====
-- What the end of a routine does to the receiver's fields.
use falcon_lib.Base.{
  String, Bool, true, false, ◌≡◌, refl, Option, none, some, List, [], ◌∷◌, str_eq, if◌then◌else◌,
  arith, eq_iff,
}
use falcon_lib.Base.Maps.{lookup, lookup-insert}
use falcon_lib.Syntax.{VarDecl}
use falcon_lib.Value.{RuntimeValue, ParameterMap}
use falcon_lib.Eval.Routine.{insert_found, copy_fields, write_back}

-- Is the name that of a declared field?
pub declares : List VarDecl → String → Bool
declares [] k = false
declares (f ∷ fs) k = if str_eq f.name k then true else declares fs k

pub or_value : Option RuntimeValue → Option RuntimeValue → Option RuntimeValue
or_value none b = b
or_value (some v) b = some v

lookup-insert_found :
    (k name : String) (o : Option RuntimeValue) (m : ParameterMap)
    → lookup k (insert_found name o m)
      ≡ (if str_eq name k then or_value o (lookup k m) else lookup k m)
unfolding insert_found or_value
lookup-insert_found k name none m = ground arith
lookup-insert_found k name (some v) m = lookup-insert name k v m

-- A declared field takes the value of the source, where the source has one.
lookup-copy_fields :
    (fs : List VarDecl) (k : String) (source target : ParameterMap)
    → lookup k (copy_fields fs source target)
      ≡ (if declares fs k then or_value (lookup k source) (lookup k target) else lookup k target)
unfolding copy_fields declares or_value
lookup-copy_fields [] k source target = refl
lookup-copy_fields (f ∷ fs) k source target = ground (
  arith,
  lookup-copy_fields fs k source (insert_found f.name (lookup f.name source) target),
  lookup-insert_found k f.name (lookup f.name source) target,
  eq_iff f.name k,
  or_value_twice (lookup k source) (lookup k target),
)
  where
    or_value_twice : (a b : Option RuntimeValue) → or_value a (or_value a b) ≡ or_value a b
    or_value_twice none b = refl
    or_value_twice (some v) b = refl

-- A field that the receiver has when the body ends keeps its value, whatever the environment says:
-- a write to the bare name of a field that went to the environment alone is lost. A declared field
-- that the receiver lacks takes the environment's value.
pub write_back_fields :
    (fs : List VarDecl) (k : String) (fields env : ParameterMap)
    → lookup k (write_back fs fields env).1
      ≡ (if declares fs k then or_value (lookup k fields) (lookup k env) else lookup k fields)
unfolding write_back or_value
write_back_fields fs k fields env = ground (
  arith,
  lookup-copy_fields fs k (copy_fields fs fields env) fields,
  lookup-copy_fields fs k fields env,
)
