-- ===== src/Request/Bind.antt =====
-- request.go: `encodeSQLBind`, the arguments of an SQL statement. The cache of the lower-case names of
-- a struct's fields holds what `lower` gives, and is left out.
use go_tarantool.Common.{
  ℕ, String, List, [], ◌∷◌, Option, some, Outcome, returns, fails, panics, length,
}
use Prim.Native.String.{◌++◌ as str_append}
use go_tarantool.Msgpack.{Codec}
use go_tarantool.Msgpack.Objects.{◌▸◌, map_len, array_len, string}
use go_tarantool.Request.Base.{written}

-- An element of a `[]interface{}`.
pub data BindItem (V : Type 0) : Type 0 where
  key_value : String → V → BindItem V
  plain : V → BindItem V

-- The kinds that the code tells apart. The pairs of a map stand in the order of the iteration.
pub data Bind (V : Type 0) : Type 0 where
  string_map : List (String × V) → Bind V
  other_map : Bind V
  struct : List (String × V) → Bind V
  items : List (BindItem V) → Bind V
  key_values : List (String × V) → Bind V
  other_slice : Bind V
  other_kind : Bind V

module _ {V : Type 0} (m : Codec V) (lower : String → String) where
  -- `encodeKeyInterface` and `encodeKeyValue`
  unfoldable pub encode_key : String → V → Option (List ℕ)
  encode_key key val = map_len m 1 ▸ string m (str_append ":" key) ▸ m.encode val

  unfoldable pub encode_keys : List (String × V) → Option (List ℕ)
  unfolding encode_key
  encode_keys [] = some []
  encode_keys ((k, v) ∷ mp) = encode_key k v ▸ encode_keys mp

  unfoldable pub encode_item : BindItem V → Option (List ℕ)
  unfolding encode_key
  encode_item (key_value k v) = encode_key k v
  encode_item (plain v) = m.encode v

  unfoldable pub encode_items : List (BindItem V) → Option (List ℕ)
  unfolding encode_item
  encode_items [] = some []
  encode_items (v ∷ vs) = encode_item v ▸ encode_items vs

  abbrev pub lower_names : List (String × V) → List (String × V)
  lower_names [] = []
  lower_names ((name, v) ∷ fields) = (lower name, v) ∷ lower_names fields

  -- A slice of another type fails its type assertion; another kind writes nothing.
  unfoldable pub encode_sql_bind : Bind V → Outcome (List ℕ)
  unfolding encode_keys encode_items
  encode_sql_bind (string_map mp) = written (array_len m (length mp) ▸ encode_keys mp)
  encode_sql_bind other_map = fails
  encode_sql_bind (struct fields) =
      written (array_len m (length fields) ▸ encode_keys (lower_names fields))
  encode_sql_bind (items vs) = written (array_len m (length vs) ▸ encode_items vs)
  encode_sql_bind (key_values kvs) = written (array_len m (length kvs) ▸ encode_keys kvs)
  encode_sql_bind other_slice = panics
  encode_sql_bind other_kind = returns []
