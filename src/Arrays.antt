-- ===== src/Arrays.antt =====
-- libs/collections/array/array-wrapper.cpp: the routines of Array<T>, as functions of the named
-- parameters and of the array that "this" wraps. A routine gives its results and the array as it is
-- left; a routine that throws has not changed it. The packing of parameters and results for the C
-- interface is left out: a NIL slot is the value nil.
pub mod Laws
use falcon_lib.Base.{
  ℕ, zero, suc, String, Bool, true, false, ◌&&◌, Option, none, some, List, [], ◌∷◌, ◌++◌, length,
  get_elem?, set, ltb, str_eq, if◌then◌else◌,
}
use falcon_lib.Base.Int.{ℤ, pos, negsuc}
use falcon_lib.Base.Maps.{lookup}
use falcon_lib.Errors.{
  Result, ok, err, exception, bad_variant, array_index, array_empty, native_error, ◌>>=◌,
}
use falcon_lib.Value.{
  Floats, RuntimeValue, int, bool, nil, struct, value_eq, ParameterMap, FunctionResult, Pointer,
  StructInstance, ArrayValue, Heap,
}

-- `pm.at(key)`
unfoldable pub param_at : String → ParameterMap → Result RuntimeValue
unfolding lookup
param_at key pm = elim (lookup key pm) [ none ↦ err (exception (native_error key)) | some v ↦ ok v ]

unfoldable pub get_int : RuntimeValue → Result ℤ
get_int (int i) = ok i
get_int v = err (exception bad_variant)

unfoldable pub index_param : ParameterMap → Result ℤ
unfolding param_at get_int
index_param pm = param_at "index" pm >>= get_int

-- The index as a number under the limit, or "index out of bounds".
unfoldable pub checked_index : String → ℕ → ℕ → ℤ → Result ℕ
checked_index op limit size (pos n) =
    if ltb n limit then ok n else err (exception (array_index op (pos n) size))
checked_index op limit size (negsuc n) = err (exception (array_index op (negsuc n) size))

-- The outcome of a routine: the results with the new elements, or the throw with the old ones.
unfoldable pub commit :
    Result (FunctionResult × List RuntimeValue) → ArrayValue → Result FunctionResult × ArrayValue
commit (ok (outputs, elements)) arr = (ok outputs, record arr { elements = elements })
commit (err e) arr = (err e, arr)

-- `elements.insert(begin() + i, v)`, `elements.erase(begin() + i)`, and `back()` with `pop_back()`.
unfoldable pub insert_at : ℕ → RuntimeValue → List RuntimeValue → List RuntimeValue
insert_at zero v xs = v ∷ xs
insert_at (suc i) v [] = v ∷ []
insert_at (suc i) v (x ∷ xs) = x ∷ insert_at i v xs

unfoldable pub erase_at : ℕ → List RuntimeValue → List RuntimeValue
erase_at i [] = []
erase_at zero (x ∷ xs) = xs
erase_at (suc i) (x ∷ xs) = x ∷ erase_at i xs

unfoldable pub split_back : List RuntimeValue → Option (List RuntimeValue × RuntimeValue)
split_back [] = none
split_back (x ∷ xs) = elim (split_back xs) [ none ↦ some ([], x) | some r ↦ some (x ∷ r.0, r.1) ]

abbrev pub new_array : ArrayValue
new_array = record { element_type_name = ""; elements = [] }

abbrev pub done : List RuntimeValue → Result (FunctionResult × List RuntimeValue)
done elements = ok (nil ∷ [], elements)

unfoldable pub size : ArrayValue → Result FunctionResult × ArrayValue
size arr = (ok (int (pos (length arr.elements)) ∷ []), arr)

unfoldable pub is_empty : ArrayValue → Result FunctionResult × ArrayValue
is_empty arr = (ok (bool (elim arr.elements [ [] ↦ true | _ ∷ _ ↦ false ]) ∷ []), arr)

element_result : List RuntimeValue → ℕ → Result (FunctionResult × List RuntimeValue)
element_result xs n = elim (get_elem? xs n) [
  | none ↦ err (exception (array_index "GetIndex" (pos n) (length xs)))
  | some v ↦ ok (v ∷ [], xs)
]

unfoldable pub get_index : ParameterMap → ArrayValue → Result FunctionResult × ArrayValue
unfolding commit index_param checked_index element_result
get_index pm arr =
    let xs = arr.elements in
    commit
      (index_param pm >>= λ i.
        checked_index "GetIndex" (length xs) (length xs) i >>= λ n. element_result xs n)
      arr

unfoldable pub set_index : ParameterMap → ArrayValue → Result FunctionResult × ArrayValue
unfolding commit index_param checked_index param_at
set_index pm arr =
    let xs = arr.elements in
    commit
      (index_param pm >>= λ i. checked_index "SetIndex" (length xs) (length xs) i >>= λ n.
        param_at "value" pm >>= λ v. done (set xs n v))
      arr

unfoldable pub push_back : ParameterMap → ArrayValue → Result FunctionResult × ArrayValue
unfolding commit param_at
push_back pm arr = commit (param_at "value" pm >>= λ v. done (arr.elements ++ v ∷ [])) arr

popped : Option (List RuntimeValue × RuntimeValue) → Result (FunctionResult × List RuntimeValue)
popped none = err (exception array_empty)
popped (some r) = ok (r.1 ∷ [], r.0)

unfoldable pub pop_back : ArrayValue → Result FunctionResult × ArrayValue
unfolding commit split_back popped
pop_back arr = commit (popped (split_back arr.elements)) arr

-- An insertion may be at the end.
unfoldable pub insert : ParameterMap → ArrayValue → Result FunctionResult × ArrayValue
unfolding commit index_param checked_index param_at insert_at
insert pm arr =
    let xs = arr.elements in
    commit
      (index_param pm >>= λ i. checked_index "Insert" (suc (length xs)) (length xs) i >>= λ n.
        param_at "value" pm >>= λ v. done (insert_at n v xs))
      arr

unfoldable pub erase : ParameterMap → ArrayValue → Result FunctionResult × ArrayValue
unfolding commit index_param checked_index erase_at
erase pm arr =
    let xs = arr.elements in
    commit
      (index_param pm >>= λ i.
        checked_index "Erase" (length xs) (length xs) i >>= λ n. done (erase_at n xs))
      arr

unfoldable pub clear : ArrayValue → Result FunctionResult × ArrayValue
unfolding commit
clear arr = commit (done []) arr

-- Each entry of the first map is in the second with an equal value.
unfoldable pub included : Floats → ParameterMap → ParameterMap → Bool
unfolding lookup value_eq
included fl [] n = true
included fl ((k, v) ∷ m) n =
    let rest = included fl m n in
    elim (lookup k n) [ none ↦ false | some w ↦ value_eq fl v w && rest ]

-- `*lhs == *rhs`; in two maps with one entry for each key, equal is included both ways.
unfoldable pub instance_eq : Floats → StructInstance → StructInstance → Bool
unfolding included
instance_eq fl a b =
    str_eq a.type_name b.type_name
    && (included fl a.fields b.fields && included fl b.fields a.fields)

pointees_eq : Floats → Option StructInstance → Option StructInstance → Bool
unfolding instance_eq
pointees_eq fl (some a) (some b) = instance_eq fl a b
pointees_eq fl _ _ = false

instance_at : Heap → Pointer → Option StructInstance
instance_at h none = none
instance_at h (some a) = get_elem? h.structs a

-- `IndexOf` compares what two struct pointers point to, and anything else as `==` does.
unfoldable pub same_element : Floats → Heap → RuntimeValue → RuntimeValue → Bool
unfolding value_eq pointees_eq instance_at
same_element fl h (struct p) (struct q) = pointees_eq fl (instance_at h p) (instance_at h q)
same_element fl h v w = value_eq fl v w

-- `Contains` compares pointers.
unfoldable pub any_equal : Floats → List RuntimeValue → RuntimeValue → Bool
unfolding value_eq
any_equal fl [] needle = false
any_equal fl (x ∷ xs) needle =
    let rest = any_equal fl xs needle in if value_eq fl x needle then true else rest

unfoldable pub contains : Floats → ParameterMap → ArrayValue → Result FunctionResult × ArrayValue
unfolding param_at any_equal commit
contains fl pm arr =
    commit (param_at "value" pm >>= λ v. ok (bool (any_equal fl arr.elements v) ∷ [], arr.elements))
      arr

unfoldable pub first_same : Floats → Heap → List RuntimeValue → RuntimeValue → Option ℕ
unfolding same_element
first_same fl h [] needle = none
first_same fl h (x ∷ xs) needle =
    let rest = first_same fl h xs needle in
    if same_element fl h x needle then some 0 else elim rest [ none ↦ none | some n ↦ some (suc n) ]

index_result : Option ℕ → ℤ
index_result none = negsuc 0
index_result (some n) = pos n

unfoldable pub index_of :
    Floats → Heap → ParameterMap → ArrayValue → Result FunctionResult × ArrayValue
unfolding param_at first_same index_result commit
index_of fl h pm arr =
    commit
      (param_at "value" pm >>= λ v.
        ok (int (index_result (first_same fl h arr.elements v)) ∷ [], arr.elements))
      arr
