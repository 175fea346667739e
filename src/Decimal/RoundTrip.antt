-- ===== src/Decimal/RoundTrip.antt =====
-- decimal/bcd.go: decoding what was encoded.
use go_tarantool.Common.{
  ℕ, suc, ◌-◌, ◌<◌, ◌≤◌, ◌≡◌, refl, sym, ap, ◌∙◌, ◌≢◌, ◌⊎◌, inl, inr, Bool, true, false, Bool-cases,
  List, [], ◌∷◌, ◌++◌, arith, ◌==◌, if◌then◌else◌, length, replicate, length-append, All,
  All-append,
}
use mathlib.Core.List.{append_assoc}
use go_tarantool.Decimal.{
  returns, byte_plus, is_negative, is_nil, prefix, encode_string_to_bcd, decode_string_from_bcd,
}
use go_tarantool.Decimal.Nibbles.{IsByte, nibbles, strip}
use go_tarantool.Decimal.Encode.{
  IsDigit, chars, Number, IsNumber, sign_text, point_text, text, significant,
}
use go_tarantool.Decimal.Layout.{layout, pad, sign_of, encode_string_to_bcd-Encoded}
use go_tarantool.Decimal.Decode.{dotted, Stripped, decode_string_from_bcd-Decoded}

-- The texts that the decoder writes: no zero in front of the whole part but the only one, and
-- no minus before a zero.
pub record Canonical (x : Number) : Type 0 where
  pub leading : (x.whole ≡ 0 ∷ []) ⊎ Stripped x.whole
  pub no_minus_zero : is_nil (significant x) ≡ true → x.negative ≡ false

strip-Stripped : (ds : List ℕ) → Stripped (strip ds)
strip-Stripped [] = tt
strip-Stripped (d ∷ ds) = ground (arith, strip-Stripped ds)

strip-digits : (ds : List ℕ) → All IsDigit ds → All IsDigit (strip ds)
strip-digits [] h = h
strip-digits (d ∷ ds) h = elim (Bool-cases (d == 0)) [
  | inl e ↦ rw e (strip-digits ds h.1)
  | inr e ↦ rw e h
]

length-strip : (ds : List ℕ) → length (strip ds) ≤ length ds
length-strip [] = omega arith
length-strip (d ∷ ds) = ground (arith, length-strip ds)

strip-chars :
    (ds : List ℕ) → replicate (length ds - length (strip ds)) b'0' ++ chars (strip ds) ≡ chars ds
strip-chars [] = refl
strip-chars (d ∷ ds) =
    let step : suc (length ds) - length (strip ds) ≡ suc (length ds - length (strip ds)) =
      omega (arith, length-strip ds) in
    let none_left : length ds - length ds ≡ 0 = omega arith in
    ground (arith, strip-chars ds, step, none_left)

dotted-short : (k : ℕ) (ds : List ℕ) → length ds < k → dotted k ds ≡ chars ds
dotted-short k [] h = refl
dotted-short k (d ∷ ds) h = ground (arith, dotted-short k ds (omega arith))

dotted-fraction : (ds : List ℕ) → dotted (length ds) ds ≡ point_text ds
dotted-fraction [] = refl
dotted-fraction (d ∷ ds) = ground (arith, dotted-short (suc (length ds)) ds (omega arith))

dotted-append : (ws fs : List ℕ) → dotted (length fs) (ws ++ fs) ≡ chars ws ++ point_text fs
dotted-append [] fs = dotted-fraction fs
dotted-append (w ∷ ws) fs = ground (arith, dotted-append ws fs, length-append ws fs)

prefix-whole : (k n : ℕ) (negative : Bool) → k < n → prefix k n negative ≡ sign_text negative
unfolding prefix
prefix-whole k n true h = ground arith
prefix-whole k n false h = ground arith

prefix-zeros :
    (k n : ℕ) (negative : Bool)
    → n < k
    → prefix k n negative ≡ sign_text negative ++ (b'0' ∷ b'.' ∷ replicate (k - n) b'0')
unfolding prefix
prefix-zeros k n true h = ground arith
prefix-zeros k n false h = ground arith

prefix-zero : (k : ℕ) (negative : Bool) → prefix k k negative ≡ sign_text negative ++ b'0' ∷ []
unfolding prefix
prefix-zero k true = ground arith
prefix-zero k false = ground arith

-- What the decoder writes for a number below one.
below_one :
    (negative : Bool) (fs : List ℕ)
    → prefix (length fs) (length (strip fs)) negative ++ dotted (length fs) (strip fs)
      ≡ sign_text negative ++ chars (0 ∷ []) ++ point_text fs
below_one negative [] = ap (λ l. l ++ []) (prefix-zero 0 negative)
below_one negative (f ∷ fs) = elim (Bool-cases (f == 0)) [
  | inl e ↦
      let few : length (strip fs) < suc (length fs) = omega (arith, length-strip fs) in
      let all : replicate (suc (length fs) - length (strip fs)) b'0' ++ chars (strip fs)
          ≡ chars (f ∷ fs) =
        let all = strip-chars (f ∷ fs) in rw e at all in
      rw
        (
          e,
          prefix-zeros (suc (length fs)) (length (strip fs)) negative few,
          dotted-short (suc (length fs)) (strip fs) few,
        )
        (append_assoc (sign_text negative)
            (b'0' ∷ b'.' ∷ replicate (suc (length fs) - length (strip fs)) b'0') (chars (strip fs))
          ∙ ap (λ l. sign_text negative ++ (b'0' ∷ b'.' ∷ l)) all
          ∙ sym (append_assoc (sign_text negative) (b'0' ∷ []) (point_text (f ∷ fs))))
  | inr e ↦
      rw (e, prefix-zero (suc (length fs)) negative)
        (ap (λ l. sign_text negative ++ b'0' ∷ [] ++ l) (dotted-fraction (f ∷ fs)))
]

-- What the decoder writes for the digits of a number.
digits-text :
    (x : Number)
    → Canonical x
    → is_nil x.whole ≡ false
    → prefix (length x.fraction) (length (significant x)) x.negative
        ++ dotted (length x.fraction) (significant x)
      ≡ text x
digits-text x c some_digit = go x.whole c.leading some_digit
  where
    go :
        (whole : List ℕ)
        → (whole ≡ 0 ∷ []) ⊎ Stripped whole
        → is_nil whole ≡ false
        → prefix (length x.fraction) (length (strip (whole ++ x.fraction))) x.negative
            ++ dotted (length x.fraction) (strip (whole ++ x.fraction))
          ≡ sign_text x.negative ++ chars whole ++ point_text x.fraction
    go whole (inl e) h = rw e (below_one x.negative x.fraction)
    go [] (inr s) h = absurd (cc)
    go (d ∷ ds) (inr s) h =
        let all : strip (d ∷ (ds ++ x.fraction)) ≡ (d ∷ ds) ++ x.fraction = ground arith in
        let more : length x.fraction < length ((d ∷ ds) ++ x.fraction) =
          omega (arith, length-append (d ∷ ds) x.fraction) in
        rw
          (
            all,
            prefix-whole (length x.fraction) _ x.negative more,
            dotted-append (d ∷ ds) x.fraction,
          )
          (sym (append_assoc (sign_text x.negative) (chars (d ∷ ds)) (point_text x.fraction)))

is_negative-sign :
    (empty negative : Bool)
    → (empty ≡ true → negative ≡ false)
    → is_negative (if empty then byte_plus else sign_of negative) ≡ negative
unfolding is_negative
is_negative-sign true true h = sym (h refl)
is_negative-sign true false h = refl
is_negative-sign false true h = refl
is_negative-sign false false h = refl

sign_above : (empty negative : Bool) → 9 < (if empty then byte_plus else sign_of negative)
sign_above true negative = omega arith
sign_above false true = omega arith
sign_above false false = omega arith

layout-nonempty : (ds : List ℕ) (sign : ℕ) → [] ≢ layout ds sign
layout-nonempty [] sign e = absurd (cc)
layout-nonempty (d ∷ ds) sign e =
    let l = length-append (pad (length (d ∷ ds)) ++ d ∷ ds) (sign ∷ []) in
    absurd (omega (arith, l, ap length e))

decode-Encoded :
    (x : Number) (bytes : List ℕ)
    → IsNumber x
    → Canonical x
    → nibbles bytes
      ≡ layout (significant x) (if is_nil (significant x) then byte_plus else sign_of x.negative)
    → All IsByte bytes
    → decode_string_from_bcd (length x.fraction ∷ bytes) ≡ returns (text x)
decode-Encoded x [] h c nib all = absurd (layout-nonempty (significant x) _ nib)
decode-Encoded x (b ∷ bytes) h c nib all =
    let sign : ℕ = if is_nil (significant x) then byte_plus else sign_of x.negative in
    decode_string_from_bcd-Decoded (length x.fraction) b sign bytes (significant x) all nib
      (strip-digits (x.whole ++ x.fraction)
        (All-append IsDigit x.whole x.fraction h.whole h.fraction))
      (strip-Stripped (x.whole ++ x.fraction)) (sign_above (is_nil (significant x)) x.negative)
    ∙ ap
        (λ b. returns (
          prefix (length x.fraction) (length (significant x)) b
          ++ dotted (length x.fraction) (significant x)))
        (is_negative-sign (is_nil (significant x)) x.negative c.no_minus_zero)
    ∙ ap returns (digits-text x c h.some_digit)

-- For a number in the form that the decoder writes, `decodeStringFromBCD` gives back the text
-- that `encodeStringToBCD` was given: both return, whatever the number of digits before the
-- point, with up to 255 behind it.
pub encode-decode :
    (x : Number)
    → IsNumber x
    → Canonical x
    → (bytes : List ℕ) × (encode_string_to_bcd (text x) ≡ returns bytes)
      × (decode_string_from_bcd bytes ≡ returns (text x))
encode-decode x h c =
    let (bytes, e, nib, all) = encode_string_to_bcd-Encoded x h in
    (length x.fraction ∷ bytes, e, decode-Encoded x bytes h c nib all)
