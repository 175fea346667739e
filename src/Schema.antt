-- ===== src/Schema.antt =====
-- schema.go: what a connection knows of spaces and indexes, and how it turns the names that a request uses into
-- numbers. The maps of a schema share their spaces: a space is known by its place in `store`.
pub mod Loaded
pub mod Attach
pub mod Resolved
mod Tests
use go_tarantool.Common.{
  ℕ, zero, suc, ◌+◌, ◌^◌, ◌%◌, String, Bool, List, [], ◌∷◌, ◌++◌, Option, none, some, Outcome,
  returns, fails, panics, if◌then◌else◌, ◌==◌, length, get_elem?, set,
}
use go_tarantool.Common.Assoc.{lookup, insert}
use go_tarantool.Request.Base.{then_with}

pub record Index : Type 0 where
  pub id : ℕ
  pub space_id : ℕ
  pub name : String
  pub type : String
  pub unique : Bool

-- `IndexesById` is written only, and left out with the fields.
pub record Space : Type 0 where
  pub id : ℕ
  pub name : String
  pub engine : String
  pub temporary : Bool
  pub fields_count : ℕ
  pub indexes : List (String × Index)

pub record Schema : Type 0 where
  pub store : List Space
  pub spaces : List (String × ℕ)
  pub spaces_by_id : List (ℕ × ℕ)

-- What a request names a space by: a name, a machine integer, or a pointer to a space, which may be nil.
pub data SpaceArg : Type 0 where
  space_name : String → SpaceArg
  space_number : ℕ → SpaceArg
  space_object : Option Space → SpaceArg
  space_other : SpaceArg

pub data IndexArg : Type 0 where
  index_name : String → IndexArg
  index_number : ℕ → IndexArg
  index_object : Option Index → IndexArg
  index_other : IndexArg

unfoldable pub lookup_id : ℕ → List (ℕ × ℕ) → Option ℕ
lookup_id id [] = none
lookup_id id ((j, at) ∷ ids) = if j == id then some at else lookup_id id ids

unfoldable pub insert_id : ℕ → ℕ → List (ℕ × ℕ) → List (ℕ × ℕ)
insert_id id at [] = (id, at) ∷ []
insert_id id at ((j, w) ∷ ids) = if j == id then (id, at) ∷ ids else (j, w) ∷ insert_id id at ids

abbrev pub empty_schema : Schema
empty_schema = record { store = []; spaces = []; spaces_by_id = [] }

unfoldable pub add_space : Space → Schema → Schema
unfolding insert_id
add_space space schema =
    let at = length schema.store in
    record {
      store = schema.store ++ (space ∷ []);
      spaces = insert space.name at schema.spaces;
      spaces_by_id = insert_id space.id at schema.spaces_by_id;
    }

unfoldable pub add_spaces : List Space → Schema → Schema
unfolding add_space
add_spaces [] schema = schema
add_spaces (space ∷ spaces) schema = add_spaces spaces (add_space space schema)

-- The space with the number, by its place.
unfoldable pub space_at : Option ℕ → Schema → Option (ℕ × Space)
space_at none schema = none
space_at (some at) schema = elim (get_elem? schema.store at) [
  | none ↦ none
  | some space ↦ some (at, space)
]

-- An index of a space that is not known is put into a nil map.
abbrev pub put_index : Index → Schema → Option (ℕ × Space) → Outcome Schema
put_index index schema none = panics
put_index index schema (some (at, space)) = returns (record schema {
  store = set schema.store at (record space { indexes = insert index.name index space.indexes });
})

unfoldable pub add_index : Index → Schema → Outcome Schema
unfolding lookup_id space_at
add_index index schema =
    put_index index schema (space_at (lookup_id index.space_id schema.spaces_by_id) schema)

unfoldable pub add_indexes : List Index → Schema → Outcome Schema
unfolding add_index
add_indexes [] schema = returns schema
add_indexes (index ∷ indexes) schema = then_with (add_index index schema) (add_indexes indexes)

-- The arguments are what the two selects give, or `none` for their error.
unfoldable pub load_schema : Option (List Space) → Option (List Index) → Outcome Schema
unfolding add_spaces add_indexes
load_schema none indexes = fails
load_schema (some spaces) none = fails
load_schema (some spaces) (some indexes) = add_indexes indexes (add_spaces spaces empty_schema)

-- A space, if the argument named one, and its number.
abbrev pub named_space : Option (ℕ × Space) → Outcome (ℕ × Option Space)
named_space none = fails
named_space (some (at, space)) = returns (space.id, some space)

unfoldable pub resolve_space : Option Schema → SpaceArg → Outcome (ℕ × Option Space)
unfolding space_at
resolve_space none (space_name s) = fails
resolve_space (some schema) (space_name s) = named_space (space_at (lookup s schema.spaces) schema)
resolve_space schema (space_number n) = returns (n % 2 ^ 32, none)
resolve_space schema (space_object none) = panics
resolve_space schema (space_object (some space)) = returns (space.id, none)
resolve_space schema space_other = panics

abbrev pub index_in : String → Option Space → Outcome ℕ
index_in i none = fails
index_in i (some space) = elim (lookup i space.indexes) [
  | none ↦ fails
  | some index ↦ returns index.id
]

abbrev pub second : Option (ℕ × Space) → Option Space
second none = none
second (some (at, space)) = some space

-- The space that the argument named, or that of the number.
abbrev pub space_or_by_id : Schema → ℕ → Option Space → Option Space
space_or_by_id schema space_no none =
    second (space_at (lookup_id space_no schema.spaces_by_id) schema)
space_or_by_id schema space_no (some space) = some space

unfoldable pub resolve_index : Option Schema → ℕ × Option Space → Option IndexArg → Outcome ℕ
unfolding lookup_id space_at
resolve_index schema found none = returns 0
resolve_index none found (some (index_name i)) = fails
resolve_index (some schema) found (some (index_name i)) =
    index_in i (space_or_by_id schema found.0 found.1)
resolve_index schema found (some (index_number n)) = returns (n % 2 ^ 32)
resolve_index schema found (some (index_object none)) = panics
resolve_index schema found (some (index_object (some index))) = returns index.id
resolve_index schema found (some index_other) = panics

-- `ResolveSpaceIndex`
unfoldable pub resolve_space_index : Option Schema → SpaceArg → Option IndexArg → Outcome (ℕ × ℕ)
unfolding resolve_space resolve_index
resolve_space_index schema s i =
    then_with (resolve_space schema s)
      (λ found. then_with (resolve_index schema found i) (λ index_no. returns (found.0, index_no)))
