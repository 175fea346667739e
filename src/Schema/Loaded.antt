-- ===== src/Schema/Loaded.antt =====
-- schema.go: what `loadSchema` makes of spaces with different numbers and names.
use go_tarantool.Common.{
  ℕ, suc, ◌≡◌, refl, sym, ◌∙◌, ◌⊎◌, inl, inr, String, Bool, false, Bool-cases, List, [], ◌∷◌, ◌++◌,
  map, Option, none, some, if◌then◌else◌, ◌==◌, str_eq, str_eq_iff, length, get_elem?, All, arith,
}
use mathlib.Core.Option.{some_inj}
use mathlib.Core.Option
use mathlib.Core.List.{append-nil, append_assoc}
use go_tarantool.Common.Assoc.{lookup, lookup-insert}
use go_tarantool.Schema.{Space, Schema, lookup_id, insert_id, empty_schema, add_space, add_spaces}

-- The first space that satisfies a test, and its place.
abbrev pub find_by : (Space → Bool) → List Space → Option Space
find_by test [] = none
find_by test (x ∷ xs) = if test x then some x else find_by test xs

abbrev pub next_place : Option ℕ → Option ℕ
next_place none = none
next_place (some at) = some (suc at)

abbrev pub place_by : (Space → Bool) → List Space → Option ℕ
place_by test [] = none
place_by test (x ∷ xs) = if test x then some 0 else next_place (place_by test xs)

abbrev pub has_id : ℕ → Space → Bool
has_id n space = space.id == n

abbrev pub has_name : String → Space → Bool
has_name s space = str_eq space.name s

-- No two spaces have the same number or the same name.
abbrev pub Distinct : List Space → Type 0
Distinct [] = Unit {0}
Distinct (x ∷ xs) =
    All (λ y. (has_id y.id x ≡ false) × (has_name y.name x ≡ false)) xs × Distinct xs

lookup_id-insert_id :
    (k n at : ℕ) (m : List (ℕ × ℕ))
    → lookup_id n (insert_id k at m) ≡ (if k == n then some at else lookup_id n m)
unfolding lookup_id insert_id
lookup_id-insert_id k n at [] = refl
lookup_id-insert_id k n at ((j, w) ∷ m) = ground (arith, lookup_id-insert_id k n at m)

place_by-append :
    (test : Space → Bool) (xs : List Space) (x : Space)
    → place_by test (xs ++ (x ∷ [])) ≡ elim (place_by test xs) [
      | some at ↦ some at
      | none ↦ if test x then some (length xs) else none
    ]
place_by-append test [] x = refl
place_by-append test (y ∷ xs) x = ground (arith, place_by-append test xs x)

-- What the two maps say of the store.
pub record IsIndexed (schema : Schema) : Type 0 where
  pub by_id : (n : ℕ) → lookup_id n schema.spaces_by_id ≡ place_by (has_id n) schema.store
  pub by_name : (s : String) → lookup s schema.spaces ≡ place_by (has_name s) schema.store

-- No space of the store has the number or the name of one that is still to be added.
abbrev Fresh : List Space → Space → Type 0
Fresh store x = (place_by (has_id x.id) store ≡ none) × (place_by (has_name x.name) store ≡ none)

add_space-IsIndexed :
    (x : Space) (schema : Schema)
    → IsIndexed schema
    → Fresh schema.store x
    → IsIndexed (add_space x schema)
unfolding add_space
add_space-IsIndexed x schema h fresh = record {
  by_id = λ n. ground (
    arith,
    lookup_id-insert_id x.id n (length schema.store) schema.spaces_by_id,
    h.by_id n,
    place_by-append (has_id n) schema.store x,
    fresh,
  );
  by_name = λ s. ground (
    arith,
    lookup-insert x.name s (length schema.store) schema.spaces,
    h.by_name s,
    place_by-append (has_name s) schema.store x,
    fresh,
    str_eq_iff x.name s,
  );
}

Fresh-append :
    (store : List Space) (x : Space) (ys : List Space)
    → All (λ y. (has_id y.id x ≡ false) × (has_name y.name x ≡ false)) ys
    → All (Fresh store) ys
    → All (Fresh (store ++ (x ∷ []))) ys
Fresh-append store x [] h fresh = tt
Fresh-append store x (y ∷ ys) (h, hs) (fresh, rest) = (
  (
    ground (arith, place_by-append (has_id y.id) store x, h, fresh),
    ground (arith, place_by-append (has_name y.name) store x, h, fresh),
  ),
  Fresh-append store x ys hs rest,
)

add_spaces-IsIndexed :
    (spaces : List Space) (schema : Schema)
    → IsIndexed schema
    → Distinct spaces
    → All (Fresh schema.store) spaces
    → IsIndexed (add_spaces spaces schema)
      × ((add_spaces spaces schema).store ≡ schema.store ++ spaces)
unfolding add_spaces add_space
add_spaces-IsIndexed [] schema h d fresh = (h, sym (append-nil schema.store))
add_spaces-IsIndexed (x ∷ xs) schema h (dx, d) (fx, fresh) =
    let (indexed, store) =
      add_spaces-IsIndexed xs (add_space x schema) (add_space-IsIndexed x schema h fx) d
        (Fresh-append schema.store x xs dx fresh) in
    (indexed, store ∙ append_assoc schema.store (x ∷ []) xs)

Fresh-empty : (spaces : List Space) → All (Fresh []) spaces
Fresh-empty [] = tt
Fresh-empty (x ∷ xs) = ((refl, refl), Fresh-empty xs)

pub add_spaces_empty :
    (spaces : List Space)
    → Distinct spaces
    → IsIndexed (add_spaces spaces empty_schema) × ((add_spaces spaces empty_schema).store ≡ spaces)
unfolding lookup lookup_id
add_spaces_empty spaces d =
    add_spaces-IsIndexed spaces empty_schema (record { by_id = λ n. refl; by_name = λ s. refl }) d
      (Fresh-empty spaces)

pub place_by-map :
    (f : Space → Space) (test : Space → Bool) (xs : List Space)
    → ((x : Space) → test (f x) ≡ test x)
    → place_by test (map f xs) ≡ place_by test xs
place_by-map f test [] h = refl
place_by-map f test (x ∷ xs) h = rw (h x, place_by-map f test xs h) refl

pub find_by-map :
    (f : Space → Space) (test : Space → Bool) (xs : List Space)
    → ((x : Space) → test (f x) ≡ test x)
    → find_by test (map f xs) ≡ Option.map f (find_by test xs)
find_by-map f test [] h = refl
find_by-map f test (x ∷ xs) h = ground (arith, h x, find_by-map f test xs h)

-- The space at the place that a test has.
pub space_at-place_by :
    (test : Space → Bool) (xs : List Space)
    → ((place_by test xs ≡ none) × (find_by test xs ≡ none))
      ⊎ ((at : ℕ) × (x : Space) × (place_by test xs ≡ some at)
          × (find_by test xs ≡ some x)
          × (get_elem? xs at ≡ some x))
space_at-place_by test [] = inl (refl, refl)
space_at-place_by test (x ∷ xs) = elim (Bool-cases (test x)) [
  | inl e ↦ inr (0, x, rw e refl, rw e refl, refl)
  | inr e ↦ elim (space_at-place_by test xs) [
    | inl (f, g) ↦ inl (rw (e, f) refl, rw e g)
    | inr (at, y, f, g, h) ↦ inr (suc at, y, rw (e, f) refl, rw e g, h)
  ]
]
