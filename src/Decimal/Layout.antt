-- ===== src/Decimal/Layout.antt =====
-- decimal/bcd.go: the bytes that the encoder makes of a number.
use go_tarantool.Common.{
  ℕ, suc, ◌+◌, ◌-◌, ◌*◌, ◌%◌, ◌<◌, ◌≡◌, refl, sym, ap, subst, ◌∙◌, inl, inr, Bool, true, false, not,
  ◌&&◌, Bool-cases, List, [], ◌∷◌, ◌++◌, arith, ◌==◌, if◌then◌else◌, length, length-append, All,
}
use mathlib.Core.List.{append_assoc, append-nil}
use go_tarantool.Decimal.{
  Outcome, returns, byte_plus, byte_minus, is_nil, count_digits, get_number_length, or_last,
  Packing, encode_loop, finish, packing_of, after_loop, encode_string_to_bcd,
}
use go_tarantool.Decimal.Nibbles.{IsByte, nibbles, Content, Holds, strip, nibbles-or_last}
use go_tarantool.Decimal.Encode.{
  IsDigit, chars, run, packed, run-Ran, encode_loop-digits, Number, IsNumber, sign_text, point_text,
  text, significant, one_at_least,
}

strip-append :
    (xs ys : List ℕ) → strip (xs ++ ys) ≡ strip xs ++ (if is_nil (strip xs) then strip ys else ys)
strip-append [] ys = refl
strip-append (x ∷ xs) ys = ground (arith, strip-append xs ys)

length-chars : (ds : List ℕ) → length (chars ds) ≡ length ds
length-chars [] = refl
length-chars (d ∷ ds) = ap suc (length-chars ds)

chars-append_nil : (ds : List ℕ) → chars ds ++ [] ≡ chars ds
chars-append_nil ds = append-nil (chars ds)

count_digits-chars :
    (n : ℕ) (ds rest : List ℕ)
    → All IsDigit ds
    → count_digits n (chars ds ++ rest)
      ≡ count_digits (if n == 0 then length (strip ds) else n + length ds) rest
unfolding count_digits
count_digits-chars n [] rest h = ground arith
count_digits-chars n (d ∷ ds) rest h =
    ground (arith, count_digits-chars n ds rest h.1, count_digits-chars (n + 1) ds rest h.1)

count_digits-point :
    (n : ℕ) (ds : List ℕ)
    → All IsDigit ds
    → count_digits n (point_text ds) ≡ (if n == 0 then length (strip ds) else n + length ds)
unfolding count_digits
count_digits-point n [] h = ground arith
count_digits-point n (d ∷ ds) h =
    let e = count_digits-chars n (d ∷ ds) [] h in rw (chars-append_nil (d ∷ ds)) at e

nil→length : (xs : List ℕ) → (length xs == 0) ≡ is_nil xs
nil→length [] = refl
nil→length (x ∷ xs) = ground arith

count_digits-number :
    (whole fraction : List ℕ)
    → All IsDigit whole
    → All IsDigit fraction
    → count_digits 0 (chars whole ++ point_text fraction) ≡ length (strip (whole ++ fraction))
count_digits-number whole fraction hw hf =
    count_digits-chars 0 whole (point_text fraction) hw
    ∙ count_digits-point (length (strip whole)) fraction hf
    ∙ rw strip-append (
        ground (
          arith,
          nil→length (strip whole),
          length-append (strip whole) (strip fraction),
          length-append (strip whole) fraction,
        ))

-- `getNumberLength` counts the digits that are packed.
get_number_length-text :
    (x : Number) → IsNumber x → get_number_length (text x) ≡ one_at_least (length (significant x))
get_number_length-text x h = go x.negative x.whole h.whole h.some_digit
  where
    go :
        (negative : Bool) (whole : List ℕ)
        → All IsDigit whole
        → is_nil whole ≡ false
        → get_number_length (sign_text negative ++ chars whole ++ point_text x.fraction)
          ≡ one_at_least (length (strip (whole ++ x.fraction)))
    go negative [] hw e = cc
    go true (d ∷ ds) hw e =
        unfold get_number_length in
        ap one_at_least (count_digits-number (d ∷ ds) x.fraction hw h.fraction)
    go false (d ∷ ds) hw e =
        unfold get_number_length in
        ap one_at_least (count_digits-number (d ∷ ds) x.fraction hw h.fraction)

encode_loop-point :
    (len i : ℕ) (ds : List ℕ) (st : Packing)
    → All IsDigit ds
    → st.scale ≡ 0
    → len ≡ i + length (point_text ds)
    → encode_loop len i (point_text ds) st ≡ returns (run ds (record st { scale = length ds }))
unfolding encode_loop
encode_loop-point len i [] st h hs e = ap (λ k. returns (record st { scale = k })) hs
encode_loop-point len i (d ∷ ds) st h hs e =
    let digits =
      encode_loop-digits len (i + 1) (d ∷ ds) [] (record st { scale = length (d ∷ ds) }) h in
    let plain : chars (d ∷ ds) ++ [] ≡ chars (d ∷ ds) = append-nil (chars (d ∷ ds)) in
    let scale : len - i - 1 ≡ length (d ∷ ds) = omega (arith, length-chars ds) in
    ground (arith, digits, plain)

-- The loop packs the digits of the whole text, and sets the scale at the point.
encode_loop-number :
    (len i : ℕ) (whole fraction : List ℕ) (st : Packing) (ns : List ℕ)
    → All IsDigit whole
    → All IsDigit fraction
    → Holds st ns
    → st.scale ≡ 0
    → len ≡ i + length (chars whole ++ point_text fraction)
    → encode_loop len i (chars whole ++ point_text fraction) st
      ≡ returns (run fraction (record (run whole st) { scale = length fraction }))
encode_loop-number len i whole fraction st ns hw hf hst hs e =
    encode_loop-digits len i whole (point_text fraction) st hw
    ∙ encode_loop-point len (i + length whole) fraction (run whole st) hf
        ((run-Ran whole st ns hw hst).scale ∙ hs)
        (omega (arith, e, length-append (chars whole) (point_text fraction), length-chars whole))

-- The nibble in front of the first digit, where the number of digits is even.
abbrev pub pad : ℕ → List ℕ
pad n = if n % 2 == 0 then 0 ∷ [] else []

-- All nibbles of a packed number: without significant digits, a 0 and the sign.
abbrev pub layout : List ℕ → ℕ → List ℕ
layout [] sign = 0 ∷ sign ∷ []
layout (d ∷ ds) sign = pad (length (d ∷ ds)) ++ (d ∷ ds) ++ sign ∷ []

start-Holds :
    (n scale : ℕ)
    → Holds (record { bytes = []; high_nibble = not (n % 2 == 0); scale = scale }) (pad n)
start-Holds n scale = elim (Bool-cases (n % 2 == 0)) [
  | inl e ↦ rw e (record { content = refl; bytes = tt })
  | inr e ↦ rw e (record { content = refl; bytes = tt })
]

nil-strip : (xs ys : List ℕ) → is_nil (strip (xs ++ ys)) ≡ (is_nil (strip xs) && is_nil (strip ys))
nil-strip [] ys = refl
nil-strip (x ∷ xs) ys = ground (arith, nil-strip xs ys)

record Packed (ds : List ℕ) (n k : ℕ) (st : Packing) : Type 0 where
  holds : Holds st (pad n ++ ds)
  nil : is_nil st.bytes ≡ is_nil ds
  scale : st.scale ≡ k

number-Packed :
    (whole fraction : List ℕ) (n : ℕ)
    → All IsDigit whole
    → All IsDigit fraction
    → Packed
        (strip (whole ++ fraction))
        n
        (length fraction)
        (run fraction (record (run whole (packing_of n)) { scale = length fraction }))
number-Packed whole fraction n hw hf =
    let r = run-Ran whole (packing_of n) (pad n) hw (start-Holds n 0) in
    let st : Packing = record (run whole (packing_of n)) { scale = length fraction } in
    let q =
      run-Ran fraction st (pad n ++ strip whole) hf
        (record { content = r.holds.content; bytes = r.holds.bytes }) in
    let same : packed st fraction ≡ (if is_nil (strip whole) then strip fraction else fraction) =
      ground (arith, r.nil) in
    record {
      holds =
          rw (strip-append whole fraction, ← append_assoc (pad n) (strip whole) _)
            (rw same at q.holds);
      nil = q.nil ∙ ap (λ b. b && is_nil (strip fraction)) r.nil ∙ sym (nil-strip whole fraction);
      scale = q.scale;
    }

length-nibbles : (bs : List ℕ) → length (nibbles bs) ≡ 2 * length bs
length-nibbles [] = refl
length-nibbles (b ∷ bs) = omega (arith, length-nibbles bs)

length-pad : (n : ℕ) → (length (pad n) + n) % 2 ≡ 1
length-pad n = ground arith

abbrev Finished : ℕ → List ℕ → ℕ → Packing → Type 0
Finished k ds sign st =
    (bytes : List ℕ) × (finish sign st ≡ returns (k % 256 ∷ bytes))
    × (nibbles bytes ≡ layout ds (if is_nil ds then byte_plus else sign))
    × All IsByte bytes

-- The end of the encoder on the parts of its state.
finish-Finished :
    (ds : List ℕ) (sign : ℕ) (high : Bool) (bytes : List ℕ) (scale : ℕ)
    → sign < 16
    → Content high bytes (pad (one_at_least (length ds)) ++ ds)
    → All IsByte bytes
    → is_nil bytes ≡ is_nil ds
    → Finished scale ds sign (record { bytes = bytes; high_nibble = high; scale = scale })
unfolding finish
finish-Finished [] sign high (b ∷ bytes) scale hs c hb e = absurd (cc)
finish-Finished [] sign true [] scale hs c hb e = (byte_plus ∷ [], refl, refl, omega arith)
finish-Finished [] sign false [] scale hs c hb e = absurd (ground arith)
finish-Finished (d ∷ ds) sign high [] scale hs c hb e = absurd (cc)
finish-Finished (d ∷ ds) sign true (b ∷ bytes) scale hs c hb e =
    let one : one_at_least (length (d ∷ ds)) ≡ suc (length ds) = ground arith in
    let whole : nibbles (b ∷ bytes) ≡ pad (suc (length ds)) ++ (d ∷ ds) = rw one at c in
    absurd (
      omega (
        arith,
        ap length whole,
        length-nibbles (b ∷ bytes),
        length-append (pad (suc (length ds))) (d ∷ ds),
        length-pad (suc (length ds)),
      ))
finish-Finished (d ∷ ds) sign false (b ∷ bytes) scale hs c hb e =
    let one : one_at_least (length (d ∷ ds)) ≡ length (d ∷ ds) = ground arith in
    let (nib, all) = nibbles-or_last (b ∷ bytes) _ sign hb hs c in
    (or_last (b ∷ bytes) sign, refl, nib ∙ ap (λ n. pad n ++ (d ∷ ds) ++ sign ∷ []) one, all)

abbrev pub sign_of : Bool → ℕ
sign_of true = byte_minus
sign_of false = byte_plus

-- What is encoded of a number: its scale, and bytes with the nibbles of the layout. A number
-- without significant digits has the sign plus.
abbrev pub Encoded : Number → Outcome (List ℕ) → Type 0
Encoded x r =
    (bytes : List ℕ) × (r ≡ returns (length x.fraction ∷ bytes))
    × (nibbles bytes
        ≡ layout (significant x) (if is_nil (significant x) then byte_plus else sign_of x.negative))
    × All IsByte bytes

sign_lt : (negative : Bool) → sign_of negative < 16
sign_lt true = omega arith
sign_lt false = omega arith

loop-Encoded :
    (len i : ℕ) (x : Number)
    → IsNumber x
    → len ≡ i + length (chars x.whole ++ point_text x.fraction)
    → Encoded x (
        after_loop (sign_of x.negative) (
          encode_loop len i
            (chars x.whole ++ point_text x.fraction)
            (packing_of (one_at_least (length (significant x))))))
loop-Encoded len i x h e =
    let n = one_at_least (length (significant x)) in
    let p = number-Packed x.whole x.fraction n h.whole h.fraction in
    let (bytes, done, nib, all) =
      finish-Finished (significant x) (sign_of x.negative) _ _ _ (sign_lt x.negative)
        p.holds.content p.holds.bytes p.nil in
    let short : length x.fraction % 256 ≡ length x.fraction = omega (arith, h.short) in
    rw
      (encode_loop-number len i x.whole x.fraction (packing_of n) (pad n) h.whole h.fraction
        (start-Holds n 0) refl e)
      (
        bytes,
        done ∙ ap (λ k. returns (k % 256 ∷ bytes)) p.scale ∙ ap (λ k. returns (k ∷ bytes)) short,
        nib,
        all,
      )

pub encode_string_to_bcd-Encoded :
    (x : Number) → IsNumber x → Encoded x (encode_string_to_bcd (text x))
unfolding encode_string_to_bcd
encode_string_to_bcd-Encoded x h = go x.negative x.whole h.whole h.some_digit
  where
    go :
        (negative : Bool) (whole : List ℕ)
        → All IsDigit whole
        → is_nil whole ≡ false
        → let y : Number = record { negative = negative; whole = whole; fraction = x.fraction } in
          Encoded y (encode_string_to_bcd (text y))
    go negative [] hw e = absurd (cc)
    go true (d ∷ ds) hw e =
        let y : Number = record { negative = true; whole = d ∷ ds; fraction = x.fraction } in
        let hy : IsNumber y = record {
          whole = hw;
          fraction = h.fraction;
          short = h.short;
          some_digit = e;
        } in
        subst (Encoded y)
          (ap
            (λ n. after_loop byte_minus (
              encode_loop (length (text y)) 1 (chars (d ∷ ds) ++ point_text x.fraction)
                (packing_of n)))
            (sym (get_number_length-text y hy)))
          (loop-Encoded (length (text y)) 1 y hy (omega arith))
    go false (d ∷ ds) hw e =
        let y : Number = record { negative = false; whole = d ∷ ds; fraction = x.fraction } in
        let hy : IsNumber y = record {
          whole = hw;
          fraction = h.fraction;
          short = h.short;
          some_digit = e;
        } in
        let plus : byte_plus ≡ (if d + b'0' == b'-' then byte_minus else byte_plus) =
          ground arith in
        subst (Encoded y)
          (ap (λ n. after_loop byte_plus (encode_loop (length (text y)) 0 (text y) (packing_of n)))
              (sym (get_number_length-text y hy))
            ∙ ap
                (λ b. after_loop b (
                  encode_loop (length (text y)) 0 (text y)
                    (packing_of (get_number_length (text y)))))
                plus)
          (loop-Encoded (length (text y)) 0 y hy (omega arith))
