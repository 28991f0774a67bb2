-- ===== src/Registry.antt =====
-- The registries of the interpreter. A `std::function` is a handle, a number; what calling it does
-- is the parameter `Native` of module Eval.
pub mod Types
pub mod Functions
