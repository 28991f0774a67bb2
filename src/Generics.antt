-- ===== src/Generics.antt =====
-- dsl/src/ExprEvaluator.cpp, `substitute_type` and `monomorphize_struct`: a declaration of a
-- generic struct is copied for given type arguments, under the name "Box<int>".
pub mod Laws
use falcon_lib.Base.{
  ℕ, String, Bool, true, false, Option, none, some, List, [], ◌∷◌, map, length, ◌==◌, str_eq,
  if◌then◌else◌,
}
use falcon_lib.Base.Text.{◌⊹◌, text_before, split_commas, after_char, before_last, trim, has_prefix}
use falcon_lib.Base.Maps.{Map, lookup, emplace}
use falcon_lib.Syntax.{
  TypeDescriptor, struct, array, VarDecl, ParamDecl, RoutineDecl, StructDecl, type_to_string,
  instance_name,
}
use falcon_lib.Errors.{Result, ok, err, evaluation, generic_arity}
use falcon_lib.Registry.Types.{
  TypeRegistry, lookup_struct, has_monomorphized, register_monomorphized_struct,
}

abbrev pub Substitution : Type 0
Substitution = Map TypeDescriptor

pub replaced : Option TypeDescriptor → TypeDescriptor → TypeDescriptor
replaced none td = td
replaced (some t) td = t

-- A struct name is replaced when it is a parameter's; the arguments of a struct are not entered.
unfoldable pub substitute_type : TypeDescriptor → Substitution → TypeDescriptor
unfolding lookup replaced
substitute_type (struct n ts) subst = replaced (lookup n subst) (struct n ts)
substitute_type (array t) subst = array (substitute_type t subst)
substitute_type td subst = td

-- `subst.emplace(generic_params[i], type_args[i])` for each i.
unfoldable pub build_substitution : List String → List TypeDescriptor → Substitution → Substitution
unfolding emplace
build_substitution (p ∷ ps) (t ∷ ts) subst = build_substitution ps ts (emplace p t subst)
build_substitution _ _ subst = subst

substitute_token : Substitution → String → String
unfolding lookup
substitute_token subst token = elim (lookup (trim token) subst) [
  | none ↦ trim token
  | some t ↦ type_to_string t
]

joined : List String → String
joined [] = ""
joined (t ∷ []) = t
joined (t ∷ u ∷ ts) = t ⊹ "," ⊹ joined (u ∷ ts)

-- The name "Base<...>" with each argument between the brackets replaced.
unfoldable pub rebuild_name : String → String → Substitution → String
unfolding substitute_token joined
rebuild_name base name subst =
    let inner = before_last b'>' (after_char b'<' name) in
    base ⊹ "<" ⊹ joined (map (substitute_token subst) (split_commas "" inner)) ⊹ ">"

-- An output of the struct's own type gets the name of the instance.
output_type : String → String → Substitution → TypeDescriptor → TypeDescriptor
unfolding rebuild_name
output_type base mono subst (struct n ts) =
    if str_eq n base
    then struct mono ts
    else if has_prefix (base ⊹ "<") n
    then struct (rebuild_name base n subst) ts
    else struct n ts
output_type base mono subst td = td

mono_field : Substitution → VarDecl → VarDecl
unfolding substitute_type
mono_field subst f = record f { type = substitute_type f.type subst }

-- The new parameter has no default value: the constructor is called without one.
mono_input : Substitution → ParamDecl → ParamDecl
unfolding substitute_type
mono_input subst p = record {
  type = substitute_type p.type subst;
  name = p.name;
  default_value = none;
}

mono_output : String → String → Substitution → ParamDecl → ParamDecl
unfolding substitute_type output_type
mono_output base mono subst p = record {
  type = output_type base mono subst (substitute_type p.type subst);
  name = p.name;
  default_value = none;
}

mono_routine : String → String → Substitution → RoutineDecl → RoutineDecl
unfolding mono_input mono_output
mono_routine base mono subst r = record {
  name = r.name;
  input_params = map (mono_input subst) r.input_params;
  output_params = map (mono_output base mono subst) r.output_params;
  body = r.body;
}

unfoldable pub mono_struct : StructDecl → String → Substitution → StructDecl
unfolding mono_field mono_routine
mono_struct decl mono_name subst = record {
  name = mono_name;
  module_name = "";
  generic_params = [];
  fields = map (mono_field subst) decl.fields;
  routines = map (mono_routine decl.name mono_name subst) decl.routines;
}

fresh_instance :
    StructDecl
    → String
    → List TypeDescriptor
    → TypeRegistry
    → Result (Option StructDecl) × TypeRegistry
unfolding mono_struct build_substitution register_monomorphized_struct
fresh_instance decl mono_name ts types =
    let mono = mono_struct decl mono_name (build_substitution decl.generic_params ts []) in
    if length decl.generic_params == length ts
    then (ok (some mono), register_monomorphized_struct mono_name mono types)
    else (
      err (evaluation (generic_arity decl.name (length decl.generic_params) (length ts))),
      types,
    )

-- The declaration (a null pointer is `none`), and the registry with the new instance.
unfoldable pub monomorphize_struct :
    StructDecl → List TypeDescriptor → TypeRegistry → Result (Option StructDecl) × TypeRegistry
unfolding instance_name has_monomorphized lookup_struct fresh_instance
monomorphize_struct decl ts types =
    let mono_name = instance_name decl.name ts in
    if has_monomorphized types mono_name
    then (ok (lookup_struct types mono_name), types)
    else fresh_instance decl mono_name ts types
