-- ===== src/Frame.antt =====
-- connection.go: `pack` and `read`, the frames on the wire. What a request's `Body` writes is an
-- argument, `none` for its error.
pub mod RoundTrip
mod Tests
use go_tarantool.Iproto.{key_code, key_sync, key_stream_id}
use go_tarantool.Common.{
  ℕ, zero, suc, ◌+◌, ◌-◌, ◌*◌, ◌/◌, ◌%◌, ◌^◌, Bool, List, [], ◌∷◌, ◌++◌, Option, none, some, ltb,
  ◌==◌, if◌then◌else◌, length, set, take, drop,
}

abbrev pub uint32_code : ℕ
uint32_code = 0xce

abbrev pub uint64_code : ℕ
uint64_code = 0xcf

-- The four bytes of a 32-bit number, and the eight of a 64-bit one.
abbrev pub put_uint32 : ℕ → List ℕ
put_uint32 n = (n / 2 ^ 24 % 256) ∷ (n / 2 ^ 16 % 256) ∷ (n / 2 ^ 8 % 256) ∷ (n % 256) ∷ []

abbrev pub put_uint64 : ℕ → List ℕ
put_uint64 n = put_uint32 (n / 2 ^ 32) ++ put_uint32 n

-- `ignoreStreamId` is 0.
unfoldable pub stream_bytes : ℕ → List ℕ
stream_bytes stream_id =
    if stream_id == 0
    then []
    else if ltb (2 ^ 32 - 1) stream_id
    then key_stream_id ∷ uint64_code ∷ put_uint64 stream_id
    else key_stream_id ∷ uint32_code ∷ put_uint32 stream_id

unfoldable pub h_map_len : ℕ → ℕ
h_map_len stream_id = if stream_id == 0 then 0x82 else 0x83

-- `hBytes` behind the length.
unfoldable pub header : ℕ → ℕ → ℕ → List ℕ
unfolding stream_bytes h_map_len
header code reqid stream_id =
    h_map_len stream_id ∷ key_code ∷ (code % 256) ∷ key_sync ∷ uint32_code ∷ put_uint32 reqid
    ++ stream_bytes stream_id

-- The four assignments of the length.
unfoldable pub set_length : ℕ → ℕ → List ℕ → List ℕ
set_length hl l h =
    set
      (set (set (set h (hl + 1) (l / 2 ^ 24 % 256)) (hl + 2) (l / 2 ^ 16 % 256)) (hl + 3)
        (l / 2 ^ 8 % 256))
      (hl + 4) (l % 256)

unfoldable pub pack : List ℕ → ℕ → ℕ → ℕ → Option (List ℕ) → Option (List ℕ)
unfolding header set_length
pack h code reqid stream_id none = none
pack h code reqid stream_id (some body) =
    let hl = length h in
    let h' = h ++ (uint32_code ∷ 0 ∷ 0 ∷ 0 ∷ 0 ∷ header code reqid stream_id ++ body) in
    let l = (length h' - 5 - hl) % 2 ^ 32 in some (set_length hl l h')

-- `io.ReadFull`
unfoldable pub read_full : ℕ → List ℕ → Option (List ℕ × List ℕ)
read_full n input = if ltb (length input) n then none else some (take n input, drop n input)

-- What a connection reads, and the input behind it.
unfoldable pub read : List ℕ → Option (List ℕ × List ℕ)
unfolding read_full
read (b0 ∷ b1 ∷ b2 ∷ b3 ∷ b4 ∷ input) =
    let length = b1 * 2 ^ 24 + b2 * 2 ^ 16 + b3 * 2 ^ 8 + b4 in
    if b0 == uint32_code then if length == 0 then none else read_full length input else none
read _ = none
