-- ===== src/Samples/Collections.antt =====
-- The routines of arrays at sample data.
use falcon_lib.Base.{true, false, ◌≡◌, refl, arith, none, some, [], ◌∷◌}
use falcon_lib.Base.Int.{pos}
use falcon_lib.Base.Maps.{lookup}
use falcon_lib.Errors.{ok}
use falcon_lib.Value.{
  RuntimeValue, int, bool, nil, struct, StructInstance, ArrayValue, Heap, value_eq,
}
use falcon_lib.Arrays.{
  push_back, pop_back, get_index, insert, erase, contains, index_of, same_element,
}
use falcon_lib.Arrays.Laws.{args, pop_back-push_back, erase-insert, get_index-index_of}
use falcon_lib.Samples.{natural_floats}

-- [7, 8]
abbrev two_values : ArrayValue
two_values = record { element_type_name = ""; elements = int (pos 7) ∷ int (pos 8) ∷ [] }

pop_back-push_back_example :
    pop_back (push_back (args 0 (int (pos 9))) two_values).1 ≡ (ok (int (pos 9) ∷ []), two_values)
unfolding lookup
pop_back-push_back_example = pop_back-push_back (int (pos 9)) (args 0 (int (pos 9))) two_values refl

erase-insert_example :
    (get_index (args 1 nil) (insert (args 1 nil) two_values).1
      ≡ (ok (nil ∷ []), (insert (args 1 nil) two_values).1))
    × (erase (args 1 nil) (insert (args 1 nil) two_values).1 ≡ (ok (nil ∷ []), two_values))
erase-insert_example = erase-insert 1 nil two_values (omega arith)

abbrev point : StructInstance
point = record { type_name = "Point"; fields = ("x", int (pos 1)) ∷ []; native_handle = none }

-- Two instances with equal fields.
abbrev two_points : Heap
two_points = record { tuples = []; structs = point ∷ point ∷ []; arrays = [] }

abbrev first_point : ArrayValue
first_point = record { element_type_name = ""; elements = struct (some 0) ∷ [] }

get_index-index_of_example :
    (w : RuntimeValue) × (get_index (args 0 (struct (some 1))) first_point
      ≡ (ok (w ∷ []), first_point))
    × (same_element natural_floats two_points w (struct (some 1)) ≡ true)
unfolding index_of value_eq
get_index-index_of_example =
    get_index-index_of natural_floats two_points (struct (some 1)) 0 first_point refl

-- The array has no second point for `Contains`, though `IndexOf` gives its index.
contains_misses :
    contains natural_floats (args 0 (struct (some 1))) first_point
    ≡ (ok (bool false ∷ []), first_point)
unfolding contains value_eq
contains_misses = refl
