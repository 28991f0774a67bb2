-- ===== src/Errors.antt =====
-- The exceptions of dsl/src/*.cpp. A thrown message is a constructor with the values that its text
-- quotes. `undefined` stands for undefined behaviour (a signed overflow), which nothing catches;
-- `timeout` for fuel that ran out.
use falcon_lib.Base.{ℕ, String}
use falcon_lib.Base.Int.{ℤ}
use falcon_lib.Syntax.{Location, TypeDescriptor}

pub data Message : Type 0 where
  undefined_variable : String → Message
  null_struct : Message
  member_unsupported : String → String → Message
  no_ffi_implementation : String → String → Message
  missing_routine_argument : String → String → Message
  routine_output_not_set : String → String → Message
  unknown_routine : String → String → Message
  no_struct_declaration : String → Message
  unknown_method : String → String → Message
  generic_arity : String → ℕ → ℕ → Message
  null_index : Message
  no_get_index : String → Message
  index_not_integer : String → Message
  index_negative : ℤ → Message
  index_out_of_bounds : ℤ → ℕ → Message
  not_indexable : String → Message
  unknown_function : String → Message
  no_signature : String → Message
  missing_argument : String → Message
  division_by_zero : Message
  bad_binary_operator : String → Message
  bad_unary_operator : String → Message
  -- `std::bad_variant_access`
  bad_variant : Message
  needs_initializer : TypeDescriptor → String → Message
  tuple_expected : String → Message
  null_tuple : Message
  tuple_size : ℕ → ℕ → Message
  target_not_struct : Message
  complex_target : Message
  undefined_struct : String → Message
  null_struct_variable : String → Message
  not_struct_instance : String → Message
  condition_not_bool : Message
  missing_input : String → Message
  state_takes_no_parameters : String → ℕ → Message
  too_many_parameters : String → ℕ → ℕ → Message
  missing_state_parameter : String → ℕ → String → Message
  unknown_state : String → Message
  state_falls_through : String → Message
  output_not_set : String → Message
  -- of AutotunerEngine.cpp
  autotuner_not_loaded : String → Message
  autotuner_not_found : String → Message
  routine_not_found : String → Message
  inline_routine_not_found : String → Message
  inline_output_not_set : String → String → Message
  -- of array-wrapper.cpp and of other native code
  array_index : String → ℤ → ℕ → Message
  array_empty : Message
  native_error : String → Message
  -- `format_error_with_context`, and the "Unexpected error: " prefix
  at_location : Location → Message → Message
  unexpected : Message → Message

pub data Failure : Type 0 where
  -- `EvaluationError`
  evaluation : Message → Failure
  -- any other `std::exception`
  exception : Message → Failure
  undefined : Failure
  timeout : Failure

pub data Result {ℓ} (A : Type ℓ) : Type ℓ where
  ok : A → Result A
  err : Failure → Result A

infixl 5 ◌>>=◌
abbrev pub ◌>>=◌ {ℓ κ} : {A : Type ℓ} {B : Type κ} → Result A → (A → Result B) → Result B
ok a >>= f = f a
err e >>= f = err e

abbrev pub IsOk {ℓ} : {A : Type ℓ} → Result A → Type 0
IsOk (ok a) = Unit
IsOk (err e) = ⊥
