-- ===== src/BoxError.antt =====
-- box_error.go: the stack of errors that an instance answers, its encoder and its decoder. The writer's
-- errors are those of the encoding of a field's value.
pub mod Fields
pub mod Entry
pub mod RoundTrip
mod Tests
use go_tarantool.Common.{
  ℕ, zero, suc, ◌+◌, String, List, [], ◌∷◌, ◌++◌, Option, none, some, Outcome, returns, fails,
  panics, if◌then◌else◌, ◌==◌, ltb, length,
}
use go_tarantool.Common.Assoc.{insert}
use go_tarantool.Msgpack.{Codec}
use go_tarantool.Msgpack.Objects.{◌▸◌, map_len, array_len, uint, string}
use go_tarantool.Msgpack.Decoder.{Decoder, ◌>>-◌, each, turns}

abbrev pub key_error_stack : ℕ
key_error_stack = 0x00

abbrev pub key_error_type : ℕ
key_error_type = 0x00

abbrev pub key_error_file : ℕ
key_error_file = 0x01

abbrev pub key_error_line : ℕ
key_error_line = 0x02

abbrev pub key_error_message : ℕ
key_error_message = 0x03

abbrev pub key_error_errno : ℕ
key_error_errno = 0x04

abbrev pub key_error_errcode : ℕ
key_error_errcode = 0x05

abbrev pub key_error_fields : ℕ
key_error_fields = 0x06

-- A `BoxError` without its link; the pairs of the map stand in the order of the iteration, and a nil
-- map is an empty one.
pub record ErrorEntry (V : Type 0) : Type 0 where
  pub type : String
  pub file : String
  pub line : ℕ
  pub msg : String
  pub errno : ℕ
  pub code : ℕ
  pub fields : List (String × V)

-- `Prev` is nil, or another error.
pub data BoxError (V : Type 0) : Type 0 where
  only : ErrorEntry V → BoxError V
  above : ErrorEntry V → BoxError V → BoxError V

module _ {V : Type 0} where
  unfoldable pub depth : BoxError V → ℕ
  depth (only e) = 1
  depth (above e prev) = depth prev + 1

  abbrev pub empty_entry : ErrorEntry V
  empty_entry = record {
    type = "";
    file = "";
    line = 0;
    msg = "";
    errno = 0;
    code = 0;
    fields = [];
  }

  -- The errors of a stack linked, each to the next; the first is the result.
  unfoldable pub link : List (ErrorEntry V) → Outcome (BoxError V)
  link [] = fails
  link (e ∷ []) = returns (only e)
  link (e ∷ (f ∷ entries)) = link (f ∷ entries) >>- (λ prev. returns (above e prev))

module _ {V : Type 0} (m : Codec V) where
  abbrev pub uint64 : ℕ → Option (List ℕ)
  uint64 n = some (m.encode_uint64 n)

  unfoldable pub write_fields : List (String × V) → Option (List ℕ)
  write_fields [] = some []
  write_fields ((k, v) ∷ fields) = (string m k ▸ m.encode v) ▸ write_fields fields

  -- The map of the fields, which is left out if it is empty.
  unfoldable pub write_extra : List (String × V) → Option (List ℕ)
  unfolding write_fields
  write_extra [] = some []
  write_extra (f ∷ fields) =
      (uint m key_error_fields ▸ (map_len m (length (f ∷ fields)) ▸ write_fields (f ∷ fields)))
      ▸ some []

  unfoldable pub encode_entry : ErrorEntry V → Option (List ℕ)
  unfolding write_extra
  encode_entry e =
      map_len m (if ltb 0 (length e.fields) then 7 else 6)
      ▸ (uint m key_error_type ▸ string m e.type)
      ▸ (uint m key_error_file ▸ string m e.file)
      ▸ (uint m key_error_line ▸ uint64 e.line)
      ▸ (uint m key_error_message ▸ string m e.msg)
      ▸ (uint m key_error_errno ▸ uint64 e.errno)
      ▸ (uint m key_error_errcode ▸ uint64 e.code)
      ▸ write_extra e.fields

  -- The loop counts down the depth, which is the number of errors that are linked.
  unfoldable pub encode_stack : BoxError V → Option (List ℕ)
  unfolding encode_entry
  encode_stack (only e) = encode_entry e ▸ some []
  encode_stack (above e prev) = encode_entry e ▸ encode_stack prev

  -- `none` is a nil pointer.
  unfoldable pub encode_box_error : Option (BoxError V) → Option (List ℕ)
  unfolding depth encode_stack
  encode_box_error none = none
  encode_box_error (some e) =
      map_len m 1 ▸ (uint m key_error_stack ▸ (array_len m (depth e) ▸ encode_stack e)) ▸ some []

module _ {V : Type 0} (d : Decoder V) where
  -- A pair of the map `Fields`.
  unfoldable pub read_field : List (String × V) → List ℕ → Outcome (List (String × V) × List ℕ)
  read_field fields input =
      d.string input >>- (λ k. d.value k.1 >>- (λ v. returns (insert k.0 v.0 fields, v.1)))

  -- The value behind the key `cd`.
  unfoldable pub read_value : ℕ → ErrorEntry V → List ℕ → Outcome (ErrorEntry V × List ℕ)
  unfolding read_field each
  read_value cd e input =
      if cd == key_error_type
      then d.string input >>- (λ r. returns (record e { type = r.0 }, r.1))
      else if cd == key_error_file
      then d.string input >>- (λ r. returns (record e { file = r.0 }, r.1))
      else if cd == key_error_line
      then d.uint input >>- (λ r. returns (record e { line = r.0 }, r.1))
      else if cd == key_error_message
      then d.string input >>- (λ r. returns (record e { msg = r.0 }, r.1))
      else if cd == key_error_errno
      then d.uint input >>- (λ r. returns (record e { errno = r.0 }, r.1))
      else if cd == key_error_errcode
      then d.uint input >>- (λ r. returns (record e { code = r.0 }, r.1))
      else if cd == key_error_fields
      then d.map_len input
        >>- (λ l. each (turns l.0) read_field [] l.1)
        >>- (λ r. returns (record e { fields = r.0 }, r.1))
      else d.skip input >>- (λ rest. returns (e, rest))

  unfoldable pub read_pair : ErrorEntry V → List ℕ → Outcome (ErrorEntry V × List ℕ)
  unfolding read_value
  read_pair e input = d.int input >>- (λ cd. read_value cd.0 e cd.1)

  unfoldable pub read_entry : List ℕ → Outcome (ErrorEntry V × List ℕ)
  unfolding read_pair each
  read_entry input = d.map_len input >>- (λ l. each (turns l.0) read_pair empty_entry l.1)

  -- An error behind those that were read.
  unfoldable pub read_next_entry :
      List (ErrorEntry V) → List ℕ → Outcome (List (ErrorEntry V) × List ℕ)
  unfolding read_entry
  read_next_entry entries input = read_entry input >>- (λ r. returns (entries ++ (r.0 ∷ []), r.1))

  -- A slice of a negative length cannot be made.
  abbrev pub read_entries : Option ℕ × List ℕ → Outcome (List (ErrorEntry V) × List ℕ)
  read_entries (none, input) = panics
  read_entries (some larr, input) = each larr read_next_entry [] input

  unfoldable pub read_stack_value :
      ℕ → List (ErrorEntry V) → List ℕ → Outcome (List (ErrorEntry V) × List ℕ)
  unfolding read_next_entry each
  read_stack_value cd stack input =
      if cd == key_error_stack
      then d.array_len input >>- read_entries
      else d.skip input >>- (λ rest. returns (stack, rest))

  unfoldable pub read_stack_pair :
      List (ErrorEntry V) → List ℕ → Outcome (List (ErrorEntry V) × List ℕ)
  unfolding read_stack_value
  read_stack_pair stack input = d.int input >>- (λ cd. read_stack_value cd.0 stack cd.1)

  unfoldable pub decode_box_error : List ℕ → Outcome (BoxError V × List ℕ)
  unfolding read_stack_pair each link
  decode_box_error input =
      d.map_len input
      >>- (λ l. each (turns l.0) read_stack_pair [] l.1)
      >>- (λ r. link r.0 >>- (λ e. returns (e, r.1)))
