-- ===== src/Generics/Laws.antt =====
-- Instances of generic structs: the substitution, the cache and the routines.
use falcon_lib.Base.{
  String, true, ◌≡◌, Option, none, some, List, [], ◌∷◌, map, str_eq, if◌then◌else◌, arith, eq_iff,
  eq_refl,
}
use falcon_lib.Base.Maps.{
  lookup, emplace, present_or, lookup-insert, contains-insert, lookup-emplace,
}
use falcon_lib.Syntax.{
  TypeDescriptor, TypeDescriptors, struct, array, ParamDecl, StructDecl, Expr, instance_name,
}
use falcon_lib.Errors.{ok}
use falcon_lib.Registry.Types.{
  TypeRegistry, lookup_struct, has_monomorphized, register_monomorphized_struct, struct_or_base,
}
use falcon_lib.Generics.{
  Substitution, replaced, substitute_type, build_substitution, mono_struct, fresh_instance,
  monomorphize_struct,
}

-- The argument at the first position of the name.
pub argument_of : String → List String → List TypeDescriptor → Option TypeDescriptor
argument_of name (p ∷ ps) (t ∷ ts) = if str_eq p name then some t else argument_of name ps ts
argument_of name _ _ = none

or_argument : Option TypeDescriptor → Option TypeDescriptor → Option TypeDescriptor
or_argument none b = b
or_argument (some a) b = some a

lookup-build_substitution :
    (name : String) (ps : List String) (ts : List TypeDescriptor) (subst : Substitution)
    → lookup name (build_substitution ps ts subst)
      ≡ or_argument (lookup name subst) (argument_of name ps ts)
unfolding build_substitution argument_of or_argument present_or
lookup-build_substitution name [] ts subst = ground arith
lookup-build_substitution name (p ∷ ps) [] subst = ground arith
lookup-build_substitution name (p ∷ ps) (t ∷ ts) subst = ground (
  arith,
  lookup-build_substitution name ps ts (emplace p t subst),
  lookup-emplace p name t subst,
  eq_iff p name,
)

-- A type that is a parameter's name becomes the argument at the parameter's position, in an array's
-- element type too; another struct's name stays.
pub substitute_type-build_substitution :
    (name : String) (args : TypeDescriptors) (ps : List String) (ts : List TypeDescriptor)
    → substitute_type (array (struct name args)) (build_substitution ps ts [])
      ≡ array (replaced (argument_of name ps ts) (struct name args))
unfolding substitute_type replaced or_argument
substitute_type-build_substitution name args ps ts =
    ground (arith, lookup-build_substitution name ps ts [])

lookup_struct-register :
    (types : TypeRegistry) (name : String) (d : StructDecl)
    → lookup_struct (register_monomorphized_struct name d types) name ≡ some d
unfolding lookup_struct register_monomorphized_struct struct_or_base
lookup_struct-register types name d =
    ground (arith, lookup-insert name name d types.struct_registry, eq_refl name)

has_monomorphized-register :
    (types : TypeRegistry) (name : String) (d : StructDecl)
    → has_monomorphized (register_monomorphized_struct name d types) name ≡ true
unfolding has_monomorphized register_monomorphized_struct
has_monomorphized-register types name d =
    ground (arith, contains-insert name name d types.struct_registry, eq_refl name)

-- Asked again for the same instance, the cache gives the declaration of the first time, and the
-- registry does not change: no further copy of the struct is made or owned.
pub monomorphize_struct_again :
    (decl : StructDecl) (ts : List TypeDescriptor) (types types' : TypeRegistry)
    (result : Option StructDecl)
    → monomorphize_struct decl ts types ≡ (ok result, types')
    → monomorphize_struct decl ts types' ≡ (ok result, types')
unfolding monomorphize_struct fresh_instance
monomorphize_struct_again decl ts types types' result e =
    let name = instance_name decl.name ts in
    let mono = mono_struct decl name (build_substitution decl.generic_params ts []) in
    ground
      (arith, e, has_monomorphized-register types name mono, lookup_struct-register types name mono)

pub no_defaults : List ParamDecl → List (Option Expr)
no_defaults ps = map (λ p. none) ps

pub default_values : List ParamDecl → List (Option Expr)
default_values ps = map (λ p. p.default_value) ps
