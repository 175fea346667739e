-- ===== src/Schema/Tests.antt =====
-- schema.go: a space with two indexes, by their names.
use go_tarantool.Common.{
  ℕ, ◌≡◌, refl, String, true, false, List, [], ◌∷◌, none, some, returns, panics,
}
use go_tarantool.Common.Assoc.{lookup, insert}
use go_tarantool.Schema.Resolved.{resolve_space_index-load_schema}
use go_tarantool.Schema.{
  Index, Space, Schema, space_name, space_number, index_name, index_number, load_schema,
  resolve_space_index,
}

abbrev users : Space
users = record {
  id = 512;
  name = "users";
  engine = "memtx";
  temporary = false;
  fields_count = 0;
  indexes = [];
}

abbrev index_of : ℕ → String → Index
index_of id name = record { id = id; space_id = 512; name = name; type = "tree"; unique = true }

abbrev users_indexes : List Index
users_indexes = index_of 0 "primary" ∷ index_of 1 "name" ∷ []

abbrev users_schema : Schema
users_schema = record {
  store =
      record users {
        indexes = ("primary", index_of 0 "primary") ∷ ("name", index_of 1 "name") ∷ [];
      }
      ∷ [];
  spaces = ("users", 0) ∷ [];
  spaces_by_id = (512, 0) ∷ [];
}

users-load : load_schema (some (users ∷ [])) (some users_indexes) ≡ returns users_schema
unfolding load_schema insert
users-load = refl

users-resolve :
    resolve_space_index (some users_schema) (space_name "users") (some (index_name "name"))
    ≡ returns (512, 1)
unfolding resolve_space_index lookup
users-resolve = refl

-- The name of an index of a space that is given by its number.
number-resolve :
    resolve_space_index (some users_schema) (space_number 512) (some (index_name "name"))
    ≡ returns (512, 1)
unfolding resolve_space_index lookup
number-resolve = refl

-- An index of a space that is not known.
lost-index : load_schema (some []) (some (index_of 0 "primary" ∷ [])) ≡ panics
unfolding load_schema insert
lost-index = refl

resolve_space_index-load_schema_example :
    (resolve_space_index (some users_schema) (space_name "users") (some (index_name "name"))
      ≡ returns (512, 1))
    × (resolve_space_index (some users_schema) (space_number 512) (some (index_name "name"))
        ≡ returns (512, 1))
    × (resolve_space_index (some users_schema) (space_name "users") (some (index_number 512))
        ≡ returns (512, 512))
    × (resolve_space_index (some users_schema) (space_name "users") none ≡ returns (512, 0))
unfolding lookup
resolve_space_index-load_schema_example =
    resolve_space_index-load_schema (users ∷ []) users_indexes users_schema "users" "name" 512
      (tt, tt) users-load
