-- ===== src/Registry/Types/Laws.antt =====
-- What the type registry finds after a registration.
use falcon_lib.Base.{
  ℕ, String, ◌≡◌, none, some, ◌&&◌, str_eq, if◌then◌else◌, arith, eq_iff, eq_refl,
}
use falcon_lib.Base.Text.{text_before}
use falcon_lib.Base.Maps.{lookup, insert, lookup-insert}
use falcon_lib.Registry.Types.{
  TypeRegistry, MethodTable, methods_of, add_method, find_method, or_else, find_generic,
  find_with_fallback, register_ffi_method, lookup_ffi_method,
}

find_method-add_method :
    (t t' m m' : String) (f : ℕ) (table : MethodTable)
    → find_method (add_method t m f table) t' m'
      ≡ (if str_eq t t' && str_eq m m' then some f else find_method table t' m')
unfolding find_method add_method
find_method-add_method t t' m m' f table = ground (
  arith,
  lookup-insert t t' (insert m f (methods_of (lookup t table))) table,
  lookup-insert m m' f (methods_of (lookup t table)),
  eq_iff t t',
  eq_iff m m',
)

-- A native method that is registered for a type is found for the type itself, and for each
-- instance "base<...>" of it that has no method of that name of its own.
pub lookup_ffi_method-register :
    (r : TypeRegistry) (base instance_type m : String) (f : ℕ)
    → text_before b'<' instance_type ≡ some base
    → find_method r.ffi_methods instance_type m ≡ none
    → (lookup_ffi_method (register_ffi_method base m f r) base m ≡ some f)
      × (lookup_ffi_method (register_ffi_method base m f r) instance_type m ≡ some f)
unfolding lookup_ffi_method register_ffi_method find_with_fallback find_generic or_else
lookup_ffi_method-register r base instance_type m f e none_yet = (
  ground (arith, find_method-add_method base base m m f r.ffi_methods, eq_refl base, eq_refl m),
  ground (
    arith,
    find_method-add_method base instance_type m m f r.ffi_methods,
    find_method-add_method base base m m f r.ffi_methods,
    eq_refl base,
    eq_refl m,
    e,
    none_yet,
  ),
)
