-- ===== src/Value/Memory.antt =====
-- Objects on the heap: allocation, `get_field` and `set_field` of `StructInstance`, and
-- `get_runtime_type_name`.
use falcon_lib.Base.{ℕ, String, Option, none, some, ◌∷◌, [], ◌++◌, List, length, get_elem?, set}
use falcon_lib.Base.Text.{◌⊹◌}
use falcon_lib.Base.Maps.{lookup, insert}
use falcon_lib.Value.{
  RuntimeValue, int, float, bool, string, nil, error, tuple, struct, array, default_value,
  StructInstance, Heap,
}

-- `std::make_shared<StructInstance>(type_name)`, and the address of the new instance.
unfoldable pub new_struct : String → Heap → ℕ × Heap
new_struct n h = (
  length h.structs,
  record h {
    structs = h.structs ++ (record { type_name = n; fields = []; native_handle = none }) ∷ [];
  },
)

unfoldable pub new_tuple : List RuntimeValue → Heap → ℕ × Heap
new_tuple vs h = (length h.tuples, record h { tuples = h.tuples ++ vs ∷ [] })

unfoldable pub write_field : StructInstance → String → RuntimeValue → StructInstance
unfolding insert
write_field s name v = record s { fields = insert name v s.fields }

write_at : Option StructInstance → ℕ → String → RuntimeValue → Heap → Heap
unfolding write_field
write_at none a name v h = h
write_at (some s) a name v h = record h { structs = set h.structs a (write_field s name v) }

-- `set_field` of the instance at an address.
unfoldable pub set_field : ℕ → String → RuntimeValue → Heap → Heap
unfolding write_at
set_field a name v h = write_at (get_elem? h.structs a) a name v h

field_or_default : Option RuntimeValue → ℕ → String → Heap → RuntimeValue × Heap
unfolding set_field
field_or_default (some v) a name h = (v, h)
field_or_default none a name h = (default_value, set_field a name default_value h)

-- The overload of `get_field` for an instance that is not `const`: `(*fields)[name]`, which puts
-- a default value there when the field is missing.
unfoldable pub get_field : ℕ → StructInstance → String → Heap → RuntimeValue × Heap
unfolding field_or_default lookup
get_field a s name h = field_or_default (lookup name s.fields) a name h

-- `get_runtime_type_name`; a null array pointer is "Array".
unfoldable pub runtime_type_name : Heap → RuntimeValue → String
runtime_type_name h (int n) = "int"
runtime_type_name h (float n) = "float"
runtime_type_name h (bool b) = "bool"
runtime_type_name h (string s) = "string"
runtime_type_name h (error e) = "Error"
runtime_type_name h (tuple p) = "tuple"
runtime_type_name h (struct p) = "StructInstance"
runtime_type_name h (array none) = "Array"
runtime_type_name h (array (some a)) = elim (get_elem? h.arrays a) [
  | none ↦ "Array"
  | some o ↦ "Array[" ⊹ o.element_type_name ⊹ "]"
]
runtime_type_name h nil = "nil"
