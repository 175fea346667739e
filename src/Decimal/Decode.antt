-- ===== src/Decimal/Decode.antt =====
-- decimal/bcd.go: what the decoder writes for the nibbles of a packed number.
use go_tarantool.Common.{
  ℕ, suc, ◌+◌, ◌-◌, ◌*◌, ◌/◌, ◌%◌, ◌<◌, ◌≡◌, refl, sym, ap, ◌∙◌, ◌≢◌, inl, inr, true, false,
  Bool-cases, List, [], ◌∷◌, ◌++◌, arith, ◌==◌, if◌then◌else◌, length, length-append, All, bit_and,
}
use go_tarantool.Common.Byte.{low_nibble, high_nibble}
use mathlib.Core.List.{append_assoc, append-nil}
use go_tarantool.Decimal.{
  returns, is_negative, process_nibble, decode_loop, last_byte, number_of_digits, prefix,
  decode_string_from_bcd,
}
use go_tarantool.Decimal.Nibbles.{IsByte, nibbles}
use go_tarantool.Decimal.Encode.{IsDigit}
use go_tarantool.Decimal.Layout.{layout, pad}

abbrev decode_nibbles : ℕ → List ℕ → List ℕ × ℕ → List ℕ × ℕ
decode_nibbles scale [] st = st
decode_nibbles scale (n ∷ ns) st = decode_nibbles scale ns (process_nibble scale n st)

abbrev drop_zero : List ℕ → List ℕ
drop_zero [] = []
drop_zero (n ∷ ns) = if n == 0 then ns else n ∷ ns

loop-nibbles :
    (scale : ℕ) (bytes : List ℕ) (st : List ℕ × ℕ)
    → All IsByte bytes
    → decode_loop scale false bytes st ≡ decode_nibbles scale (nibbles bytes) st
unfolding decode_loop
loop-nibbles scale [] st h = refl
loop-nibbles scale (b ∷ bytes) st h = rw (low_nibble b h.0) (
    loop-nibbles scale bytes (process_nibble scale (b % 16) (process_nibble scale (b / 16) st)) h.1)

first-nibbles :
    (scale b : ℕ) (bytes : List ℕ) (st : List ℕ × ℕ)
    → All IsByte (b ∷ bytes)
    → decode_loop scale true (b ∷ bytes) st
      ≡ decode_nibbles scale (drop_zero (nibbles (b ∷ bytes))) st
unfolding decode_loop
first-nibbles scale b bytes st h = elim (Bool-cases (b / 16 == 0)) [
  | inl e ↦ rw (low_nibble b h.0, e) (loop-nibbles scale bytes _ h.1)
  | inr e ↦ rw (low_nibble b h.0, e) (loop-nibbles scale bytes _ h.1)
]

-- The digits with a point before the last `k` ones.
abbrev pub dotted : ℕ → List ℕ → List ℕ
dotted k [] = []
dotted k (d ∷ ds) =
    if suc (length ds) == k then b'.' ∷ (d + b'0') ∷ dotted k ds else (d + b'0') ∷ dotted k ds

process_nibble-point :
    (k n d : ℕ) (out : List ℕ)
    → IsDigit d
    → (suc n == k) ≡ true
    → process_nibble k d (out, suc n) ≡ (out ++ b'.' ∷ (d + b'0') ∷ [], n)
unfolding process_nibble
process_nibble-point k n d out h e =
    rw e (ground (arith, append_assoc out (b'.' ∷ []) ((d + b'0') ∷ [])))

process_nibble-digit :
    (k n d : ℕ) (out : List ℕ)
    → IsDigit d
    → (suc n == k) ≡ false
    → process_nibble k d (out, suc n) ≡ (out ++ (d + b'0') ∷ [], n)
unfolding process_nibble
process_nibble-digit k n d out h e = rw e (ground arith)

process_nibble-sign :
    (k sign : ℕ) (out : List ℕ) → 9 < sign → process_nibble k sign (out, 0) ≡ (out ++ [], 0)
unfolding process_nibble
process_nibble-sign k sign out h = ground (arith, append-nil out)

decode-digits :
    (k sign : ℕ) (ds out : List ℕ)
    → All IsDigit ds
    → 9 < sign
    → decode_nibbles k (ds ++ sign ∷ []) (out, length ds) ≡ (out ++ dotted k ds, 0)
decode-digits k sign [] out h hs = process_nibble-sign k sign out hs
decode-digits k sign (d ∷ ds) out h hs = elim (Bool-cases (suc (length ds) == k)) [
  | inl e ↦
      ap (decode_nibbles k (ds ++ sign ∷ [])) (process_nibble-point k (length ds) d out h.0 e)
      ∙ decode-digits k sign ds (out ++ b'.' ∷ (d + b'0') ∷ []) h.1 hs
      ∙ rw (e, append_assoc out (b'.' ∷ (d + b'0') ∷ []) (dotted k ds)) refl
  | inr e ↦
      ap (decode_nibbles k (ds ++ sign ∷ [])) (process_nibble-digit k (length ds) d out h.0 e)
      ∙ decode-digits k sign ds (out ++ (d + b'0') ∷ []) h.1 hs
      ∙ rw (e, append_assoc out ((d + b'0') ∷ []) (dotted k ds)) refl
]

last_byte-append : (d s : ℕ) (xs : List ℕ) → last_byte d (xs ++ s ∷ []) ≡ s
unfolding last_byte
last_byte-append d s [] = refl
last_byte-append d s (x ∷ xs) = last_byte-append x s xs

last_byte-layout : (ds : List ℕ) (sign : ℕ) → last_byte 0 (layout ds sign) ≡ sign
unfolding last_byte
last_byte-layout [] sign = refl
last_byte-layout (d ∷ ds) sign = last_byte-append 0 sign (pad (length (d ∷ ds)) ++ d ∷ ds)

last_byte-nibbles :
    (d b : ℕ) (bytes : List ℕ) → last_byte d (nibbles (b ∷ bytes)) ≡ last_byte b bytes % 16
unfolding last_byte
last_byte-nibbles d b [] = refl
last_byte-nibbles d b (c ∷ bytes) = last_byte-nibbles (b % 16) c bytes

last_byte-IsByte : (b : ℕ) (bytes : List ℕ) → All IsByte (b ∷ bytes) → last_byte b bytes < 256
unfolding last_byte
last_byte-IsByte b [] h = h.0
last_byte-IsByte b (c ∷ bytes) h = last_byte-IsByte c bytes h.1

length-nibbles : (bs : List ℕ) → length (nibbles bs) ≡ length bs * 2
length-nibbles [] = refl
length-nibbles (b ∷ bs) = omega (arith, length-nibbles bs)

number_of_digits-nibbles :
    (b : ℕ) (bytes : List ℕ)
    → b < 256
    → number_of_digits b bytes ≡ length (drop_zero (nibbles (b ∷ bytes))) - 1
unfolding number_of_digits
number_of_digits-nibbles b bytes h = ground (arith, high_nibble b h, length-nibbles bytes)

-- No zero in front.
abbrev pub Stripped : List ℕ → Type 0
Stripped [] = Unit {0}
Stripped (d ∷ ds) = d ≢ 0

drop_zero-layout :
    (ds : List ℕ) (sign : ℕ) → Stripped ds → drop_zero (layout ds sign) ≡ ds ++ sign ∷ []
drop_zero-layout [] sign h = refl
drop_zero-layout (d ∷ ds) sign h = ground arith

-- For a first byte `k`, then the nibbles `ds` and a sign, with at most one zero in front, the
-- text is the sign, zeros where the point stands before all digits, and the digits with the
-- point before the last `k`.
pub decode_string_from_bcd-Decoded :
    (k b sign : ℕ) (bytes ds : List ℕ)
    → All IsByte (b ∷ bytes)
    → nibbles (b ∷ bytes) ≡ layout ds sign
    → All IsDigit ds
    → Stripped ds
    → 9 < sign
    → decode_string_from_bcd (k ∷ b ∷ bytes)
      ≡ returns (prefix k (length ds) (is_negative sign) ++ dotted k ds)
unfolding decode_string_from_bcd
decode_string_from_bcd-Decoded k b sign bytes ds h e hd hs h9 =
    let zeros : drop_zero (nibbles (b ∷ bytes)) ≡ ds ++ sign ∷ [] =
      ap drop_zero e ∙ drop_zero-layout ds sign hs in
    let count : number_of_digits b bytes ≡ length ds =
      number_of_digits-nibbles b bytes h.0
      ∙ ap (λ ns. length ns - 1) zeros
      ∙ omega (arith, length-append ds (sign ∷ [])) in
    let last : bit_and (last_byte b bytes) 0x0f ≡ sign =
      low_nibble (last_byte b bytes) (last_byte-IsByte b bytes h)
      ∙ sym (last_byte-nibbles 0 b bytes)
      ∙ ap (last_byte 0) e
      ∙ last_byte-layout ds sign in
    ap (λ st. returns st.0)
      (first-nibbles k b bytes _ h
        ∙ ap
            (λ n.
              decode_nibbles k (drop_zero (nibbles (b ∷ bytes)))
                (prefix k n (is_negative (bit_and (last_byte b bytes) 15)), n))
            count
        ∙ ap
            (λ s.
              decode_nibbles k (drop_zero (nibbles (b ∷ bytes)))
                (prefix k (length ds) (is_negative s), length ds))
            last
        ∙ ap (λ ns. decode_nibbles k ns (prefix k (length ds) (is_negative sign), length ds)) zeros
        ∙ decode-digits k sign ds (prefix k (length ds) (is_negative sign)) hd h9)
