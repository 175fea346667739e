-- ===== src/Schema/Attach.antt =====
-- schema.go: what `loadSchema` makes of the indexes.
use go_tarantool.Common.{
  ℕ, zero, suc, ◌≡◌, refl, sym, ap, subst, ◌∙◌, ◌⊎◌, inl, inr, false, Bool-cases, List, [], ◌∷◌,
  map, none, some, returns, panics, if◌then◌else◌, ◌==◌, ==_iff, str_eq, get_elem?, set, All, arith,
}
use go_tarantool.Common.Assoc.{insert}
use go_tarantool.Request.Base.{then_with}
use go_tarantool.Request.WellFormed.{returns_inj}
use go_tarantool.Schema.{
  Index, Space, Schema, empty_schema, add_spaces, space_at, put_index, add_index, add_indexes,
  load_schema,
}
use mathlib.Core.Option.{some_inj}
use go_tarantool.Schema.Loaded.{
  place_by, has_id, has_name, next_place, Distinct, IsIndexed, place_by-map, space_at-place_by,
  add_spaces_empty,
}

-- What an index of the second select does to the spaces.
abbrev pub attach : Index → Space → Space
attach index space =
    if has_id index.space_id space
    then record space { indexes = insert index.name index space.indexes }
    else space

abbrev pub attach_all : List Index → Space → Space
attach_all [] space = space
attach_all (index ∷ indexes) space = attach_all indexes (attach index space)

attach-others :
    (index : Index) (x : Space) (xs : List Space)
    → All (λ y. (has_id y.id x ≡ false) × (has_name y.name x ≡ false)) xs
    → x.id ≡ index.space_id
    → map (attach index) xs ≡ xs
attach-others index x [] h e = refl
attach-others index x (y ∷ ys) (h, hs) e = ground (arith, attach-others index x ys hs e, h)

-- Writing the one space back is the same as attaching the index wherever it belongs.
pub set-attach :
    (index : Index) (xs : List Space) (at : ℕ) (x : Space)
    → Distinct xs
    → place_by (has_id index.space_id) xs ≡ some at
    → get_elem? xs at ≡ some x
    → set xs at (record x { indexes = insert index.name index x.indexes }) ≡ map (attach index) xs
set-attach index [] at x d e g = absurd (cc)
set-attach index (y ∷ ys) zero x (dy, d) e g = elim (Bool-cases (has_id index.space_id y)) [
  | inl t ↦
      let same : y ≡ x = some_inj.0 g in
      rw (t, attach-others index y ys dy ((==_iff y.id index.space_id).0 t), same) refl
  | inr t ↦ absurd (ground arith)
]
set-attach index (y ∷ ys) (suc at) x (dy, d) e g = elim (Bool-cases (has_id index.space_id y)) [
  | inl t ↦ absurd (ground arith)
  | inr t ↦
      rw t (ap (λ l. y ∷ l) (set-attach index ys at x d (next_place-some ys at (rw t at e)) g))
]
  where
    next_place-some :
        (zs : List Space) (n : ℕ)
        → next_place (place_by (has_id index.space_id) zs) ≡ some (suc n)
        → place_by (has_id index.space_id) zs ≡ some n
    next_place-some zs n h = ground arith

pub attach-id : (index : Index) (x : Space) → (attach index x).id ≡ x.id
attach-id index x = ground arith

pub attach-name : (index : Index) (x : Space) → (attach index x).name ≡ x.name
attach-name index x = ground arith

pub attach-Distinct :
    (index : Index) (xs : List Space) → Distinct xs → Distinct (map (attach index) xs)
attach-Distinct index [] h = tt
attach-Distinct index (x ∷ xs) (h, hs) = (others xs h, attach-Distinct index xs hs)
  where
    others :
        (ys : List Space)
        → All (λ y. (has_id y.id x ≡ false) × (has_name y.name x ≡ false)) ys
        → All
            (λ y.
              (has_id y.id (attach index x) ≡ false) × (has_name y.name (attach index x) ≡ false))
            (map (attach index) ys)
    others [] h = tt
    others (y ∷ ys) (h, hs) = (
      (
        rw (attach-id index x, attach-id index y) (h.0),
        rw (attach-name index x, attach-name index y) (h.1),
      ),
      others ys hs,
    )

-- A schema whose maps fit its store.
pub record IsLoaded (schema : Schema) : Type 0 where
  pub indexed : IsIndexed schema
  pub distinct : Distinct schema.store

abbrev attached : Index → Schema → Schema
attached index schema = record schema { store = map (attach index) schema.store }

attached-IsLoaded :
    (index : Index) (schema : Schema) → IsLoaded schema → IsLoaded (attached index schema)
attached-IsLoaded index schema h = record {
  indexed = record {
    by_id = λ n.
        h.indexed.by_id n
        ∙ sym (
            place_by-map (attach index) (has_id n) schema.store
              (λ x. ap (λ i. i == n) (attach-id index x)));
    by_name = λ s.
        h.indexed.by_name s
        ∙ sym (
            place_by-map (attach index) (has_name s) schema.store
              (λ x. ap (λ i. str_eq i s) (attach-name index x)));
  };
  distinct = attach-Distinct index schema.store h.distinct;
}

pub space_at-some :
    (schema : Schema) (at : ℕ) (x : Space)
    → get_elem? schema.store at ≡ some x
    → space_at (some at) schema ≡ some (at, x)
unfolding space_at
space_at-some schema at x e = rw (space_at, e) refl

pub space_at-none : (schema : Schema) → space_at none schema ≡ none
unfolding space_at
space_at-none schema = refl

-- An index is attached to the space that has its number, or there is none.
add_index-attached :
    (index : Index) (schema : Schema)
    → IsLoaded schema
    → (add_index index schema ≡ panics) ⊎ (add_index index schema ≡ returns (attached index schema))
unfolding add_index
add_index-attached index schema h = elim (space_at-place_by (has_id index.space_id) schema.store) [
  | inl (f, g) ↦
      inl (
        rw (h.indexed.by_id index.space_id, f) (ap (put_index index schema) (space_at-none schema)))
  | inr (at, x, f, g, e) ↦ inr (
      rw (h.indexed.by_id index.space_id, f)
        (ap (put_index index schema) (space_at-some schema at x e)
          ∙ ap (λ l. returns (record schema { store = l }))
              (set-attach index schema.store at x h.distinct f e)))
]

panics-returns : {A B : Type 0} (a : A) → panics ≡ returns a → B
panics-returns a e = absurd (cc)

map-map : (f g : Space → Space) (xs : List Space) → map g (map f xs) ≡ map (λ x. g (f x)) xs
map-map f g [] = refl
map-map f g (x ∷ xs) = ap (λ l. g (f x) ∷ l) (map-map f g xs)

map_same : (xs : List Space) → xs ≡ map (λ x. x) xs
map_same [] = refl
map_same (x ∷ xs) = ap (λ l. x ∷ l) (map_same xs)

add_indexes-attach_all :
    (indexes : List Index) (schema out : Schema)
    → IsLoaded schema
    → add_indexes indexes schema ≡ returns out
    → IsLoaded out × (out.store ≡ map (attach_all indexes) schema.store)
unfolding add_indexes
add_indexes-attach_all [] schema out h e =
    subst (λ s. IsLoaded s × (s.store ≡ map (λ x. x) schema.store)) (returns_inj e)
      (h, map_same schema.store)
add_indexes-attach_all (index ∷ indexes) schema out h e = elim (add_index-attached index schema h) [
  | inl f ↦ panics-returns out (ap (λ o. then_with o (add_indexes indexes)) (sym f) ∙ e)
  | inr f ↦
      let (loaded, store) =
        add_indexes-attach_all indexes (attached index schema) out
          (attached-IsLoaded index schema h)
          (ap (λ o. then_with o (add_indexes indexes)) (sym f) ∙ e) in
      (loaded, store ∙ map-map (attach index) (attach_all indexes) schema.store)
]

pub load_schema-IsLoaded :
    (spaces : List Space) (indexes : List Index) (out : Schema)
    → Distinct spaces
    → load_schema (some spaces) (some indexes) ≡ returns out
    → IsLoaded out × (out.store ≡ map (attach_all indexes) spaces)
unfolding load_schema
load_schema-IsLoaded spaces indexes out d e =
    let (indexed, store) = add_spaces_empty spaces d in
    let (loaded, left) =
      add_indexes-attach_all indexes (add_spaces spaces empty_schema) out
        (record { indexed = indexed; distinct = subst Distinct (sym store) d }) e in
    (loaded, left ∙ ap (map (attach_all indexes)) store)
