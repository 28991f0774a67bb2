-- ===== src/Syntax/Types.antt =====
-- `ParamType` and `TypeDescriptor` of dsl/compiler/include/falcon-atc/AST.hpp. A descriptor has
-- the fields that its base type uses.
use falcon_lib.Base.{String, Bool, true, false, List, [], ◌∷◌, str_eq, if◌then◌else◌}
use falcon_lib.Base.Text.{◌⊹◌}

pub data ParamType : Type 0 where
  int_type float_type bool_type string_type error_type nil_type tuple_type void_type : ParamType
  union_type struct_type array_type : ParamType

mutual
  pub data TypeDescriptor : Type 0 where
    -- Int, Float, Bool, String, Nil, Void
    simple : ParamType → TypeDescriptor
    error : String → TypeDescriptor
    tuple : TypeDescriptors → TypeDescriptor
    union : TypeDescriptors → TypeDescriptor
    -- the (possibly monomorphized) name, and the type arguments
    struct : String → TypeDescriptors → TypeDescriptor
    array : TypeDescriptor → TypeDescriptor
    -- an array with no element type
    array_of_unknown : TypeDescriptor

  pub data TypeDescriptors : Type 0 where
    nil_types : TypeDescriptors
    cons_types : TypeDescriptor → TypeDescriptors → TypeDescriptors

abbrev pub type_list : TypeDescriptors → List TypeDescriptor
type_list nil_types = []
type_list (cons_types t ts) = t ∷ type_list ts

abbrev pub base_type : TypeDescriptor → ParamType
base_type (simple t) = t
base_type (error v) = error_type
base_type (tuple ts) = tuple_type
base_type (union ts) = union_type
base_type (struct n ts) = struct_type
base_type (array t) = array_type
base_type array_of_unknown = array_type

abbrev pub is_generic_struct : TypeDescriptor → Bool
is_generic_struct (struct n (cons_types t ts)) = true
is_generic_struct _ = false

abbrev pub type_args : TypeDescriptor → List TypeDescriptor
type_args (struct n ts) = type_list ts
type_args _ = []

abbrev pub struct_name : TypeDescriptor → String
struct_name (struct n ts) = n
struct_name _ = ""

param_type_to_string : ParamType → String
param_type_to_string int_type = "int"
param_type_to_string float_type = "float"
param_type_to_string bool_type = "bool"
param_type_to_string string_type = "string"
param_type_to_string error_type = "Error"
param_type_to_string nil_type = "nil"
param_type_to_string tuple_type = "tuple"
param_type_to_string void_type = "void"
param_type_to_string struct_type = "struct"
param_type_to_string array_type = "Array"
param_type_to_string union_type = "<unknown>"

-- `TypeDescriptor::to_string`; `joined sep ts` puts `sep` before each type.
unfoldable mutual
  unfolding param_type_to_string

  pub type_to_string : TypeDescriptor → String
  type_to_string (simple t) = param_type_to_string t
  type_to_string (error v) = if str_eq v "" then "Error" else v
  type_to_string (tuple ts) = "(" ⊹ first_type ", " ts ⊹ ")"
  type_to_string (union ts) = "(" ⊹ first_type " | " ts ⊹ ")"
  type_to_string (struct n ts) = n
  type_to_string (array t) = "Array<" ⊹ type_to_string t ⊹ ">"
  type_to_string array_of_unknown = "Array<?>"

  first_type : String → TypeDescriptors → String
  first_type sep nil_types = ""
  first_type sep (cons_types t ts) = type_to_string t ⊹ later_types sep ts

  later_types : String → TypeDescriptors → String
  later_types sep nil_types = ""
  later_types sep (cons_types t ts) = sep ⊹ type_to_string t ⊹ later_types sep ts

-- The name of an instance: `joined_types (t ∷ ts)` is "t,...".
pub joined_types : List TypeDescriptor → String
joined_types [] = ""
joined_types (t ∷ []) = type_to_string t
joined_types (t ∷ u ∷ ts) = type_to_string t ⊹ "," ⊹ joined_types (u ∷ ts)

unfoldable pub instance_name : String → List TypeDescriptor → String
unfolding joined_types type_to_string
instance_name base ts = base ⊹ "<" ⊹ joined_types ts ⊹ ">"
