-- ===== src/Registry/Types.antt =====
-- dsl/include/falcon-dsl/TypeRegistry.hpp and dsl/src/TypeRegistry.cpp: methods of native types and
-- struct declarations, each under its name, with a fallback from an instance of a generic type to
-- its base name.
pub mod Laws
use falcon_lib.Base.{
  ℕ, String, Bool, true, false, Option, none, some, List, [], ◌∷◌, ◌++◌, str_eq, if◌then◌else◌,
}
use falcon_lib.Base.Text.{text_before, ◌⊹◌}
use falcon_lib.Base.Maps.{Map, lookup, insert, contains}
use falcon_lib.Syntax.{StructDecl}

abbrev pub MethodTable : Type 0
MethodTable = Map (Map ℕ)

pub record TypeRegistry : Type 0 where
  pub type_methods : MethodTable
  pub ffi_methods : MethodTable
  pub struct_registry : Map StructDecl
  -- the copies that were made for instances, in the order of their registration
  pub owned_monomorphized : List StructDecl

abbrev pub empty : TypeRegistry
empty = record {
  type_methods = [];
  ffi_methods = [];
  struct_registry = [];
  owned_monomorphized = [];
}

abbrev methods_of : Option (Map ℕ) → Map ℕ
methods_of none = []
methods_of (some m) = m

-- `table[type_name][method_name] = method`
unfoldable pub add_method : String → String → ℕ → MethodTable → MethodTable
unfolding lookup insert
add_method type_name method_name method table =
    insert type_name (insert method_name method (methods_of (lookup type_name table))) table

unfoldable pub register_method : String → String → ℕ → TypeRegistry → TypeRegistry
unfolding add_method
register_method t m f r = record r { type_methods = add_method t m f r.type_methods }

unfoldable pub register_ffi_method : String → String → ℕ → TypeRegistry → TypeRegistry
unfolding add_method
register_ffi_method t m f r = record r { ffi_methods = add_method t m f r.ffi_methods }

-- The method of exactly this type name.
unfoldable pub find_method : MethodTable → String → String → Option ℕ
unfolding lookup
find_method table type_name method_name = elim (lookup type_name table) [
  | none ↦ none
  | some methods ↦ lookup method_name methods
]

-- The fallback: the text before the character `bracket`.
find_generic : MethodTable → Option String → String → Option ℕ
unfolding find_method
find_generic table none method_name = none
find_generic table (some generic_type) method_name = find_method table generic_type method_name

or_else : Option ℕ → Option ℕ → Option ℕ
or_else none b = b
or_else (some a) b = some a

unfoldable pub find_with_fallback : MethodTable → ℕ → String → String → Option ℕ
unfolding find_method find_generic or_else text_before
find_with_fallback table bracket type_name method_name =
    or_else (find_method table type_name method_name)
      (find_generic table (text_before bracket type_name) method_name)

unfoldable pub lookup_method : TypeRegistry → String → String → Option ℕ
unfolding find_with_fallback
lookup_method r t m = find_with_fallback r.type_methods b'[' t m

unfoldable pub lookup_ffi_method : TypeRegistry → String → String → Option ℕ
unfolding find_with_fallback
lookup_ffi_method r t m = find_with_fallback r.ffi_methods b'<' t m

unfoldable pub register_struct : StructDecl → TypeRegistry → TypeRegistry
unfolding insert
register_struct decl r =
    let structs = insert decl.name decl r.struct_registry in
    record r {
      struct_registry =
          if str_eq decl.module_name ""
          then structs
          else insert (decl.module_name ⊹ "::" ⊹ decl.name) decl structs;
    }

unfoldable pub struct_or_base :
    Option StructDecl → Option String → Map StructDecl → Option StructDecl
unfolding lookup
struct_or_base (some d) base structs = some d
struct_or_base none none structs = none
struct_or_base none (some base) structs = lookup base structs

unfoldable pub lookup_struct : TypeRegistry → String → Option StructDecl
unfolding lookup text_before struct_or_base
lookup_struct r type_name =
    struct_or_base (lookup type_name r.struct_registry) (text_before b'<' type_name)
      r.struct_registry

unfoldable pub register_monomorphized_struct : String → StructDecl → TypeRegistry → TypeRegistry
unfolding insert
register_monomorphized_struct mono_name decl r = record r {
  struct_registry = insert mono_name decl r.struct_registry;
  owned_monomorphized = r.owned_monomorphized ++ decl ∷ [];
}

unfoldable pub has_monomorphized : TypeRegistry → String → Bool
unfolding contains
has_monomorphized r mono_name = contains mono_name r.struct_registry
