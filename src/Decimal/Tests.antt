-- ===== src/Decimal/Tests.antt =====
-- decimal/bcd.go: the number of the format's description, -12.34.
use go_tarantool.Common.{ℕ, ◌≡◌, refl, inr, List, [], ◌∷◌, true, arith}
use go_tarantool.Decimal.{
  returns, prefix, is_negative, encode_string_to_bcd, decode_string_from_bcd,
}
use go_tarantool.Decimal.Encode.{Number, IsNumber, text}
use go_tarantool.Decimal.Decode.{decode_string_from_bcd-Decoded}
use go_tarantool.Decimal.RoundTrip.{Canonical, encode-decode}

abbrev number : Number
number = record { negative = true; whole = 1 ∷ 2 ∷ []; fraction = 3 ∷ 4 ∷ [] }

number-IsNumber : IsNumber number
number-IsNumber = record {
  whole = (omega arith, (omega arith, tt));
  fraction = (omega arith, (omega arith, tt));
  short = omega arith;
  some_digit = refl;
}

number-Canonical : Canonical number
number-Canonical = record {
  leading = inr (λ e. absurd (omega (arith, e)));
  no_minus_zero = λ e. absurd (cc);
}

encoded_number :
    encode_string_to_bcd (b'-' ∷ b'1' ∷ b'2' ∷ b'.' ∷ b'3' ∷ b'4' ∷ [])
    ≡ returns (2 ∷ 0x01 ∷ 0x23 ∷ 0x4d ∷ [])
unfolding encode_string_to_bcd
encoded_number = refl

decode_string_from_bcd-Decoded_example :
    decode_string_from_bcd (2 ∷ 0x01 ∷ 0x23 ∷ 0x4d ∷ [])
    ≡ returns (b'-' ∷ b'1' ∷ b'2' ∷ b'.' ∷ b'3' ∷ b'4' ∷ [])
unfolding prefix is_negative
decode_string_from_bcd-Decoded_example =
    decode_string_from_bcd-Decoded 2 0x01 0x0d (0x23 ∷ 0x4d ∷ []) (1 ∷ 2 ∷ 3 ∷ 4 ∷ [])
      (omega arith, (omega arith, (omega arith, tt))) refl
      (omega arith, (omega arith, (omega arith, (omega arith, tt))))
      (λ e. absurd (omega (arith, e))) (omega arith)

encode-decode_example :
    (bytes : List ℕ) × (encode_string_to_bcd (text number) ≡ returns bytes)
    × (decode_string_from_bcd bytes ≡ returns (text number))
encode-decode_example = encode-decode number number-IsNumber number-Canonical
