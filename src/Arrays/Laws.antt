-- ===== src/Arrays/Laws.antt =====
-- How the routines of an array undo and find one another's work.
use falcon_lib.Base.{
  ℕ, zero, suc, ◌≤◌, ◌<◌, ◌≡◌, refl, ap, ◌∙◌, arith, Bool, true, false, Option, none, some, List,
  [], ◌∷◌, ◌++◌, length, get_elem?,
}
use falcon_lib.Base.Int.{pos}
use falcon_lib.Base.Maps.{lookup}
use falcon_lib.Errors.{ok}
use falcon_lib.Value.{Floats, RuntimeValue, int, nil, ParameterMap, ArrayValue, Heap}
use falcon_lib.Arrays.{
  param_at, index_param, checked_index, commit, insert_at, erase_at, split_back, element_result,
  get_index, push_back, popped, pop_back, insert, erase, same_element, first_same, index_result,
  index_of,
}

-- The parameters of a routine with an index and a value.
abbrev pub args : ℕ → RuntimeValue → ParameterMap
args n v = ("index", int (pos n)) ∷ ("value", v) ∷ []

length-insert_at :
    (n : ℕ) (v : RuntimeValue) (xs : List RuntimeValue)
    → length (insert_at n v xs) ≡ suc (length xs)
unfolding insert_at
length-insert_at zero v xs = refl
length-insert_at (suc n) v [] = refl
length-insert_at (suc n) v (x ∷ xs) = ap suc (length-insert_at n v xs)

erase_at-insert_at :
    (n : ℕ) (v : RuntimeValue) (xs : List RuntimeValue)
    → n ≤ length xs
    → erase_at n (insert_at n v xs) ≡ xs
unfolding insert_at erase_at
erase_at-insert_at zero v xs h = refl
erase_at-insert_at (suc n) v [] h = absurd (omega (arith, h))
erase_at-insert_at (suc n) v (x ∷ xs) h =
    ap (λ ys. x ∷ ys) (erase_at-insert_at n v xs (omega (arith, h)))

split_back-append :
    (xs : List RuntimeValue) (v : RuntimeValue) → split_back (xs ++ v ∷ []) ≡ some (xs, v)
unfolding split_back
split_back-append [] v = refl
split_back-append (x ∷ xs) v = rw (split_back-append xs v) refl

-- What was pushed is popped, and the array is as it was.
pub pop_back-push_back :
    (v : RuntimeValue) (pm : ParameterMap) (arr : ArrayValue)
    → lookup "value" pm ≡ some v
    → pop_back (push_back pm arr).1 ≡ (ok (v ∷ []), arr)
unfolding pop_back push_back param_at commit popped
pop_back-push_back v pm arr e = ground (arith, e, split_back-append arr.elements v)

get_elem?-insert_at :
    (n : ℕ) (v : RuntimeValue) (xs : List RuntimeValue)
    → n ≤ length xs
    → get_elem? (insert_at n v xs) n ≡ some v
unfolding insert_at
get_elem?-insert_at zero v [] h = refl
get_elem?-insert_at zero v (x ∷ xs) h = refl
get_elem?-insert_at (suc n) v [] h = absurd (omega (arith, h))
get_elem?-insert_at (suc n) v (x ∷ xs) h = get_elem?-insert_at n v xs (omega (arith, h))

inserted : ℕ → RuntimeValue → ArrayValue → ArrayValue
inserted n v arr = record arr { elements = insert_at n v arr.elements }

insert_ok :
    (n : ℕ) (v : RuntimeValue) (arr : ArrayValue)
    → n ≤ length arr.elements
    → insert (args n v) arr ≡ (ok (nil ∷ []), inserted n v arr)
unfolding insert index_param param_at checked_index commit inserted
insert_ok n v arr h = ground (arith, h)

get_elem?_bound :
    (xs : List RuntimeValue) (n : ℕ) (w : RuntimeValue) → get_elem? xs n ≡ some w → n < length xs
get_elem?_bound [] n w e = absurd cc
get_elem?_bound (x ∷ xs) zero w e = omega arith
get_elem?_bound (x ∷ xs) (suc n) w e = omega (arith, get_elem?_bound xs n w e)

get_index_ok :
    (n : ℕ) (v w : RuntimeValue) (arr : ArrayValue)
    → get_elem? arr.elements n ≡ some w
    → get_index (args n v) arr ≡ (ok (w ∷ []), arr)
unfolding get_index index_param param_at checked_index commit element_result
get_index_ok n v w arr e = ground (arith, e, get_elem?_bound arr.elements n w e)

erase_ok :
    (n : ℕ) (v : RuntimeValue) (arr : ArrayValue)
    → n < length arr.elements
    → erase (args n v) arr ≡ (ok (nil ∷ []), record arr { elements = erase_at n arr.elements })
unfolding erase index_param param_at checked_index commit
erase_ok n v arr h = ground (arith, h)

-- A value inserted at an index up to the size is the element at that index, and erasing there gives
-- the array back.
pub erase-insert :
    (n : ℕ) (v : RuntimeValue) (arr : ArrayValue)
    → n ≤ length arr.elements
    → (get_index (args n v) (insert (args n v) arr).1 ≡ (ok (v ∷ []), (insert (args n v) arr).1))
      × (erase (args n v) (insert (args n v) arr).1 ≡ (ok (nil ∷ []), arr))
unfolding inserted
erase-insert n v arr h =
    let there = get_elem?-insert_at n v arr.elements h in
    (
      rw (insert_ok n v arr h) (get_index_ok n v v (inserted n v arr) there),
      rw (insert_ok n v arr h) (
          erase_ok n v (inserted n v arr) (get_elem?_bound (insert_at n v arr.elements) n v there)
          ∙ ap (λ ys. (ok (nil ∷ []), record arr { elements = ys }))
              (erase_at-insert_at n v arr.elements h)),
    )

match_at : Floats → Heap → RuntimeValue → Option RuntimeValue → Bool
match_at fl h needle none = false
match_at fl h needle (some w) = same_element fl h w needle

first_same-match_at :
    (fl : Floats) (h : Heap) (xs : List RuntimeValue) (needle : RuntimeValue) (i : ℕ)
    → first_same fl h xs needle ≡ some i
    → match_at fl h needle (get_elem? xs i) ≡ true
unfolding first_same match_at
first_same-match_at fl h [] needle i e = cc
first_same-match_at fl h (x ∷ xs) needle zero e = ground (arith, e)
first_same-match_at fl h (x ∷ xs) needle (suc i) e =
    ground (arith, e, first_same-match_at fl h xs needle i)

match_at-some :
    (fl : Floats) (h : Heap) (needle : RuntimeValue) (o : Option RuntimeValue)
    → match_at fl h needle o ≡ true
    → (w : RuntimeValue) × (o ≡ some w) × (same_element fl h w needle ≡ true)
unfolding match_at
match_at-some fl h needle none e = absurd cc
match_at-some fl h needle (some w) e = (w, refl, e)

first_same-of_result : (o : Option ℕ) (i : ℕ) → index_result o ≡ pos i → o ≡ some i
unfolding index_result
first_same-of_result none i e = cc
first_same-of_result (some n) i e = let same : n ≡ i = cc in ap (λ m. some m) same

-- An index that a search returns, rather than -1, is the index of an element: it is in bounds, and
-- what is there is the value looked for, or an instance with its type and fields.
pub get_index-index_of :
    (fl : Floats) (h : Heap) (needle : RuntimeValue) (i : ℕ) (arr : ArrayValue)
    → index_of fl h (args 0 needle) arr ≡ (ok (int (pos i) ∷ []), arr)
    → (w : RuntimeValue) × (get_index (args i needle) arr ≡ (ok (w ∷ []), arr))
      × (same_element fl h w needle ≡ true)
unfolding index_of param_at commit
get_index-index_of fl h needle i arr e =
    let found : index_result (first_same fl h arr.elements needle) ≡ pos i = cc in
    let first = first_same-of_result (first_same fl h arr.elements needle) i found in
    let (w, at, same) =
      match_at-some fl h needle (get_elem? arr.elements i)
        (first_same-match_at fl h arr.elements needle i first) in
    (w, get_index_ok i needle w arr at, same)
