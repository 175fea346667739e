-- ===== src/Crud/Values.antt =====
-- crud/msgpack.go, conditions.go, operations.go: the values that the crud requests hand to the msgpack library.
-- A nil pointer, slice or interface is `none`.
use go_tarantool.Common.{ℕ, ◌≡◌, String, Bool, List, [], ◌∷◌, map, Option, none, some, length}
use go_tarantool.Msgpack.{Codec}
use go_tarantool.Msgpack.Objects.{◌▸◌, array_len, Writes}

-- How a value of each kind becomes an `interface{}` of the codec. A machine integer is the word
-- that holds it. `custom` is a value with a method `EncodeMsgpack`, which writes the bytes; `partial`
-- is what the library has written when the encoding of a value fails.
pub record Structs (V : Type 0) : Type 0 where
  pub nil : V
  pub unsigned : ℕ → V
  pub integer : ℕ → V
  pub flag : Bool → V
  pub empty_map : V
  pub as_array : List V → V
  pub custom : Option (List ℕ) → V
  pub partial : V → List ℕ

-- `Encode` of every element.
unfoldable pub encode_all : {V : Type 0} → Codec V → List V → Option (List ℕ)
encode_all m [] = some []
encode_all m (v ∷ vs) = m.encode v ▸ encode_all m vs

-- The library encodes a number, a truth value and a text, the fields of a struct
-- in their order, and what a method writes, if that is an object.
pub record IsStructs {V : Type 0} (m : Codec V) (s : Structs V) : Type 0 where
  pub unsigned_some : (n : ℕ) → (bs : List ℕ) × (m.encode (s.unsigned n) ≡ some bs)
  pub integer_some : (n : ℕ) → (bs : List ℕ) × (m.encode (s.integer n) ≡ some bs)
  pub flag_some : (b : Bool) → (bs : List ℕ) × (m.encode (s.flag b) ≡ some bs)
  pub text_some : (t : String) → m.encode (m.text t) ≡ some (m.encode_string t)
  pub as_array_encode :
      (vs : List V) → m.encode (s.as_array vs) ≡ (array_len m (length vs) ▸ encode_all m vs)
  pub custom_encode : (w : Option (List ℕ)) → Writes m 1 w → m.encode (s.custom w) ≡ w

-- `Condition` and `Operation`: an operator, a field and a value.
pub record Condition (V : Type 0) : Type 0 where
  pub operator : String
  pub field : V
  pub value : V

pub record Operation (V : Type 0) : Type 0 where
  pub operator : String
  pub field : V
  pub value : V

-- `TupleOperationsData` and `ObjectOperationsData`
pub record OperationsData (V : Type 0) : Type 0 where
  pub target : Option V
  pub operations : Option (List (Operation V))

abbrev pub condition_eq : String
condition_eq = "="

abbrev pub condition_lt : String
condition_lt = "<"

abbrev pub condition_le : String
condition_le = "<="

abbrev pub condition_gt : String
condition_gt = ">"

abbrev pub condition_ge : String
condition_ge = ">="

abbrev pub operation_add : String
operation_add = "+"

abbrev pub operation_sub : String
operation_sub = "-"

abbrev pub operation_and : String
operation_and = "&"

abbrev pub operation_or : String
operation_or = "|"

abbrev pub operation_xor : String
operation_xor = "^"

abbrev pub operation_splice : String
operation_splice = ":"

abbrev pub operation_insert : String
operation_insert = "!"

abbrev pub operation_delete : String
operation_delete = "#"

abbrev pub operation_assign : String
operation_assign = "="

module _ {V : Type 0} (m : Codec V) (s : Structs V) where
  abbrev pub or_nil : Option V → V
  or_nil none = s.nil
  or_nil (some v) = v

  abbrev pub or_empty : Option V → V
  or_empty none = m.slice []
  or_empty (some v) = v

  abbrev pub or_empty_map : Option V → V
  or_empty_map none = s.empty_map
  or_empty_map (some v) = v

  abbrev pub slice_or_nil : Option (List V) → V
  slice_or_nil none = s.nil
  slice_or_nil (some vs) = m.slice vs

  abbrev pub slice_or_empty : Option (List V) → V
  slice_or_empty none = m.slice []
  slice_or_empty (some vs) = m.slice vs

  abbrev pub map_some : {A : Type 0} → (A → V) → Option (List A) → Option (List V)
  map_some f none = none
  map_some f (some vs) = some (map f vs)

  abbrev pub condition : Condition V → V
  condition c = s.as_array (m.text c.operator ∷ c.field ∷ c.value ∷ [])

  abbrev pub operation : Operation V → V
  operation o = s.as_array (m.text o.operator ∷ o.field ∷ o.value ∷ [])

  abbrev pub conditions_value : Option (List (Condition V)) → V
  conditions_value cs = slice_or_nil (map_some condition cs)

  abbrev pub operations_value : Option (List (Operation V)) → V
  operations_value os = slice_or_nil (map_some operation os)

  abbrev pub operations_data : OperationsData V → V
  operations_data d = s.as_array (or_nil d.target ∷ operations_value d.operations ∷ [])

  abbrev pub operations_data_value : Option (List (OperationsData V)) → V
  operations_data_value ds = slice_or_nil (map_some operations_data ds)
