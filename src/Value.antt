-- ===== src/Value.antt =====
-- typing/include/falcon-typing/PrimitiveTypes.hpp and typing/src/PrimitiveTypes.cpp: the values of
-- the running language. A `shared_ptr` is an optional address (`none` is the null pointer); the
-- objects it points to live in the `Heap`, one list for each kind, and are never moved.
-- A double is its 64 bits, and IEEE arithmetic on these is the parameter `Floats`.
pub mod Memory
use falcon_lib.Base.{
  ℕ, ◌≤◌, String, Bool, true, false, ◌&&◌, ◌||◌, Option, none, some, List, [], ◌∷◌, ◌==◌, str_eq,
  if◌then◌else◌,
}
use falcon_lib.Base.Int.{ℤ, pos, negsuc}
use falcon_lib.Base.Maps.{Map}

pub record Floats : Type 0 where
  pub add : ℕ → ℕ → ℕ
  pub sub : ℕ → ℕ → ℕ
  pub mul : ℕ → ℕ → ℕ
  pub div : ℕ → ℕ → ℕ
  pub neg : ℕ → ℕ
  pub lt : ℕ → ℕ → Bool
  pub le : ℕ → ℕ → Bool
  pub eq : ℕ → ℕ → Bool
  -- the conversion of an `int64_t`
  pub of_int : ℤ → ℕ

-- The bits of 0.0 are all zero.
abbrev pub zero_float : ℕ
zero_float = 0

pub record ErrorObject : Type 0 where
  pub message : String
  pub is_fatal : Bool

abbrev pub Pointer : Type 0
Pointer = Option ℕ

pub data RuntimeValue : Type 0 where
  int : ℤ → RuntimeValue
  float : ℕ → RuntimeValue
  bool : Bool → RuntimeValue
  string : String → RuntimeValue
  nil : RuntimeValue
  error : ErrorObject → RuntimeValue
  tuple : Pointer → RuntimeValue
  struct : Pointer → RuntimeValue
  array : Pointer → RuntimeValue

-- The value of a default-constructed variant: its first alternative.
abbrev pub default_value : RuntimeValue
default_value = int (pos 0)

abbrev pub ParameterMap : Type 0
ParameterMap = Map RuntimeValue

abbrev pub FunctionResult : Type 0
FunctionResult = List RuntimeValue

pub record StructInstance : Type 0 where
  pub type_name : String
  pub fields : ParameterMap
  -- the native object that the instance wraps, by its handle
  pub native_handle : Option ℕ

pub record ArrayValue : Type 0 where
  pub element_type_name : String
  pub elements : List RuntimeValue

pub record Heap : Type 0 where
  pub tuples : List (List RuntimeValue)
  pub structs : List StructInstance
  pub arrays : List ArrayValue

abbrev pub int_eq : ℤ → ℤ → Bool
int_eq (pos a) (pos b) = a == b
int_eq (negsuc a) (negsuc b) = a == b
int_eq _ _ = false

abbrev pub bool_eq : Bool → Bool → Bool
bool_eq true b = b
bool_eq false true = false
bool_eq false false = true

abbrev pub pointer_eq : Pointer → Pointer → Bool
pointer_eq none none = true
pointer_eq (some a) (some b) = a == b
pointer_eq _ _ = false

abbrev pub error_eq : ErrorObject → ErrorObject → Bool
error_eq a b = str_eq a.message b.message && bool_eq a.is_fatal b.is_fatal

-- `==` of the variant: the same alternative with equal values; pointers are compared, not what
-- they point to.
unfoldable pub value_eq : Floats → RuntimeValue → RuntimeValue → Bool
value_eq fl (int a) (int b) = int_eq a b
value_eq fl (float a) (float b) = fl.eq a b
value_eq fl (bool a) (bool b) = bool_eq a b
value_eq fl (string a) (string b) = str_eq a b
value_eq fl nil nil = true
value_eq fl (error a) (error b) = error_eq a b
value_eq fl (tuple a) (tuple b) = pointer_eq a b
value_eq fl (struct a) (struct b) = pointer_eq a b
value_eq fl (array a) (array b) = pointer_eq a b
value_eq fl _ _ = false
