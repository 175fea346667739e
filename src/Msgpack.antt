-- ===== src/Msgpack.antt =====
-- What the code uses of the msgpack library (msgpack.go, msgpack_v5.go), as an interface. An encoder
-- writes to memory, where writing does not fail; only the encoding of a user's value may. A
-- decoder gives what it has read and the input behind that.
pub mod Objects
pub mod Cells
pub mod Decoder
pub mod Plain
use go_tarantool.Common.{
  ℕ, zero, suc, ◌+◌, ◌*◌, ◌^◌, ◌<◌, ◌≡◌, String, Bool, List, ◌++◌, Option, none, some, ◌>>=◌,
}

-- `V` is the type of the values that the library encodes by itself, `interface{}`; `slice`, `text`,
-- `seconds` and `unsigned` make such values.
pub record Codec (V : Type 0) : Type 0 where
  pub encode_map_len : ℕ → List ℕ
  pub encode_array_len : ℕ → List ℕ
  pub encode_uint : ℕ → List ℕ
  pub encode_uint64 : ℕ → List ℕ
  pub encode_string : String → List ℕ
  pub encode_bool : Bool → List ℕ
  pub encode : V → Option (List ℕ)
  pub skip : List ℕ → Option (List ℕ)
  pub slice : List V → V
  pub text : String → V
  pub seconds : ℕ → V
  pub unsigned : ℕ → V

-- `Skip` so many times.
unfoldable pub skip_times : {V : Type 0} → Codec V → ℕ → List ℕ → Option (List ℕ)
skip_times m zero input = some input
skip_times m (suc n) input = m.skip input >>= skip_times m n

-- The bytes are so many msgpack objects, whatever follows them.
abbrev pub Objects : {V : Type 0} → Codec V → ℕ → List ℕ → Type 0
Objects m n bs = (rest : List ℕ) → skip_times m n (bs ++ rest) ≡ some rest

-- The format: a map of `n` pairs is a head with `2 * n` objects, an array one with `n`.
pub record IsCodec {V : Type 0} (m : Codec V) : Type 0 where
  pub uint_object : (n : ℕ) → n < 2 ^ 64 → Objects m 1 (m.encode_uint n)
  pub uint64_object : (n : ℕ) → n < 2 ^ 64 → Objects m 1 (m.encode_uint64 n)
  pub string_object : (s : String) → Objects m 1 (m.encode_string s)
  pub bool_object : (b : Bool) → Objects m 1 (m.encode_bool b)
  pub value_object : (v : V) (bs : List ℕ) → m.encode v ≡ some bs → Objects m 1 bs
  pub map_object :
      (n : ℕ) (bs : List ℕ)
      → n < 2 ^ 32
      → Objects m (2 * n) bs
      → Objects m 1 (m.encode_map_len n ++ bs)
  pub array_object :
      (n : ℕ) (bs : List ℕ) → n < 2 ^ 32 → Objects m n bs → Objects m 1 (m.encode_array_len n ++ bs)
