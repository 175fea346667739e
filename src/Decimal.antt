-- ===== src/Decimal.antt =====
-- decimal/bcd.go: packed decimals. A text is the list of its bytes.
pub mod Nibbles
pub mod Encode
pub mod Layout
pub mod Decode
pub mod RoundTrip
mod Tests
pub use go_tarantool.Common.{Outcome, returns, fails, panics}
use go_tarantool.Common.{
  ℕ, zero, suc, ◌+◌, ◌-◌, ◌*◌, ◌/◌, ◌%◌, Bool, true, false, not, ◌&&◌, ◌||◌, List, [], ◌∷◌, ◌++◌,
  ltb, leb, ◌==◌, if◌then◌else◌, length, replicate, bit_and, bit_or,
}

abbrev pub byte_plus : ℕ
byte_plus = 0x0c

abbrev pub byte_minus : ℕ
byte_minus = 0x0d

unfoldable pub is_negative : ℕ → Bool
is_negative sign = sign == 0x0b || sign == 0x0d

abbrev pub is_nil {ℓ} : {A : Type ℓ} → List A → Bool
is_nil [] = true
is_nil (x ∷ xs) = false

-- The loop of `getNumberLength`.
unfoldable pub count_digits : ℕ → List ℕ → ℕ
count_digits n [] = n
count_digits n (ch ∷ buf) =
    count_digits
      (if leb b'1' ch && leb ch b'9'
        then n + 1
        else if ch == b'0' && not (n == 0)
        then n + 1
        else n)
      buf

unfoldable pub get_number_length : List ℕ → ℕ
unfolding count_digits
get_number_length [] = 0
get_number_length (ch ∷ buf) = let n = count_digits 0 (ch ∷ buf) in if n == 0 then 1 else n

-- `b[len(b)-1] |= d`; the empty slice would panic.
unfoldable pub or_last : List ℕ → ℕ → List ℕ
or_last [] d = []
or_last (b ∷ []) d = bit_or b d ∷ []
or_last (b ∷ c ∷ bs) d = b ∷ or_last (c ∷ bs) d

-- The variables of the loop of `encodeStringToBCD`.
pub record Packing : Type 0 where
  pub bytes : List ℕ
  pub high_nibble : Bool
  pub scale : ℕ

-- A digit goes to the high nibble of a new byte, or to the low nibble of the last one.
unfoldable pub push_digit : ℕ → Packing → Packing
unfolding or_last
push_digit digit st =
    if st.high_nibble
    then record st { bytes = st.bytes ++ (digit * 16 % 256) ∷ []; high_nibble = false }
    else record st {
      bytes = or_last (if is_nil st.bytes then 0 ∷ [] else st.bytes) digit;
      high_nibble = true;
    }

-- One round of the loop, for the byte `ch` at `i` of a text of `len` bytes.
unfoldable pub encode_byte : ℕ → ℕ → ℕ → Packing → Outcome Packing
unfolding push_digit
encode_byte len i ch st =
    if is_nil st.bytes && ch == b'0'
    then returns st
    else if i == 0 && (ch == b'-' || ch == b'+')
    then returns st
    else if ch == b'.'
    then (if not (st.scale == 0) then fails else returns (record st { scale = len - i - 1 }))
    else if ltb ch b'0' || ltb b'9' ch
    then fails
    else returns (push_digit (ch - b'0') st)

unfoldable pub encode_loop : ℕ → ℕ → List ℕ → Packing → Outcome Packing
unfolding encode_byte
encode_loop len i [] st = returns st
encode_loop len i (ch ∷ buf) st = elim (encode_byte len i ch st) [
  | returns st' ↦ encode_loop len (i + 1) buf st'
  | fails ↦ fails
  | panics ↦ panics
]

-- The end of `encodeStringToBCD`: the sign nibble and the scale.
unfoldable pub finish : ℕ → Packing → Outcome (List ℕ)
unfolding or_last
finish sign_byte st =
    let sign = if is_nil st.bytes then byte_plus else sign_byte in
    if st.high_nibble
    then returns ((st.scale % 256) ∷ st.bytes ++ sign ∷ [])
    else if is_nil st.bytes
    then panics
    else returns ((st.scale % 256) ∷ or_last st.bytes sign)

-- The state before the loop, for the number of digits.
abbrev pub packing_of : ℕ → Packing
packing_of l = record { bytes = []; high_nibble = not (l % 2 == 0); scale = 0 }

-- What follows the loop: an error of the loop is returned.
abbrev pub after_loop : ℕ → Outcome Packing → Outcome (List ℕ)
after_loop sign_byte (returns st) = finish sign_byte st
after_loop sign_byte fails = fails
after_loop sign_byte panics = panics

unfoldable pub encode_string_to_bcd : List ℕ → Outcome (List ℕ)
unfolding encode_loop finish get_number_length
encode_string_to_bcd [] = fails
encode_string_to_bcd (ch ∷ buf) =
    after_loop (if ch == b'-' then byte_minus else byte_plus)
      (encode_loop (length (ch ∷ buf)) 0 (ch ∷ buf) (packing_of (get_number_length (ch ∷ buf))))

-- `processNibble`, on what was written and `ndigits`. `ndigits` is 0 at most once where it is
-- taken down, at the last nibble, and nothing reads it then.
unfoldable pub process_nibble : ℕ → ℕ → List ℕ × ℕ → List ℕ × ℕ
process_nibble scale nibble (out, ndigits) =
    if leb nibble 9
    then ((if ndigits == scale then out ++ b'.' ∷ [] else out) ++ (nibble + b'0') ∷ [], ndigits - 1)
    else (out, ndigits)

-- The loop over the bytes; `first` tells `i == 0`.
unfoldable pub decode_loop : ℕ → Bool → List ℕ → List ℕ × ℕ → List ℕ × ℕ
unfolding process_nibble
decode_loop scale first [] st = st
decode_loop scale first (b ∷ bytes) st =
    let high = b / 16 in
    let low = bit_and b 0x0f in
    let st' = if not first || not (high == 0) then process_nibble scale high st else st in
    decode_loop scale false bytes (process_nibble scale low st')

unfoldable pub last_byte : ℕ → List ℕ → ℕ
last_byte b [] = b
last_byte b (c ∷ bytes) = last_byte c bytes

-- The digits and the sign nibble that `decodeStringFromBCD` finds: `ndigits` before the loop.
unfoldable pub number_of_digits : ℕ → List ℕ → ℕ
number_of_digits b bytes =
    if bit_and b 0xf0 == 0 then length (b ∷ bytes) * 2 - 1 - 1 else length (b ∷ bytes) * 2 - 1

-- What is written before the loop.
unfoldable pub prefix : ℕ → ℕ → Bool → List ℕ
prefix scale ndigits negative =
    (if negative then b'-' ∷ [] else [])
    ++ (if ltb ndigits scale
        then b'0' ∷ b'.' ∷ replicate (scale - ndigits) b'0'
        else if scale == ndigits
        then b'0' ∷ []
        else [])

-- A buffer with no byte behind the scale is indexed out of range.
unfoldable pub decode_string_from_bcd : List ℕ → Outcome (List ℕ)
unfolding is_negative decode_loop last_byte number_of_digits prefix
decode_string_from_bcd [] = panics
decode_string_from_bcd (scale ∷ []) = panics
decode_string_from_bcd (scale ∷ b ∷ bytes) =
    let ndigits = number_of_digits b bytes in
    let start = prefix scale ndigits (is_negative (bit_and (last_byte b bytes) 0x0f)) in
    returns (decode_loop scale true (b ∷ bytes) (start, ndigits)).0
