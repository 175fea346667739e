-- ===== src/Decimal/Nibbles.antt =====
-- decimal/bcd.go: the bytes of a packed decimal as a list of nibbles.
use go_tarantool.Common.{
  ℕ, ◌+◌, ◌*◌, ◌/◌, ◌%◌, ◌<◌, ◌≡◌, refl, sym, ap, ◌∙◌, Bool, true, false, List, [], ◌∷◌, ◌++◌,
  arith, ◌==◌, if◌then◌else◌, bit_or, All, All-append,
}
use go_tarantool.Common.Byte.{join_nibbles}
use mathlib.Core.List.{append_assoc}
use go_tarantool.Decimal.{is_nil, or_last, Packing, push_digit}

abbrev pub IsByte : ℕ → Type 0
IsByte b = b < 256

abbrev pub nibbles : List ℕ → List ℕ
nibbles [] = []
nibbles (b ∷ bs) = b / 16 ∷ b % 16 ∷ nibbles bs

pub nibbles-append : (xs ys : List ℕ) → nibbles (xs ++ ys) ≡ nibbles xs ++ nibbles ys
nibbles-append [] ys = refl
nibbles-append (x ∷ xs) ys = ap (λ t. x / 16 ∷ x % 16 ∷ t) (nibbles-append xs ys)

abbrev pub or_zero : List ℕ → List ℕ
or_zero bytes = if is_nil bytes then 0 ∷ [] else bytes

pub or_low : (b d : ℕ) → b < 256 → b % 16 ≡ 0 → d < 16 → bit_or b d ≡ b / 16 * 16 + d
or_low b d hb hz hd =
    let e : b ≡ b / 16 * 16 = omega arith in
    ap (λ t. bit_or t d) e ∙ join_nibbles (b / 16) d (omega arith) hd

-- Writing a nibble over the last one, which is 0.
pub nibbles-or_last :
    (bytes ns : List ℕ) (d : ℕ)
    → All IsByte bytes
    → d < 16
    → nibbles bytes ≡ ns ++ 0 ∷ []
    → (nibbles (or_last bytes d) ≡ ns ++ d ∷ []) × All IsByte (or_last bytes d)
unfolding or_last
nibbles-or_last [] [] d h hd e = ground arith
nibbles-or_last [] (n ∷ ns) d h hd e = ground arith
nibbles-or_last (b ∷ []) [] d h hd e = ground arith
nibbles-or_last (b ∷ []) (n ∷ []) d h hd e =
    let z : b % 16 ≡ 0 = ground arith in let v = or_low b d h.0 z hd in ground arith
nibbles-or_last (b ∷ []) (n ∷ m ∷ []) d h hd e = ground arith
nibbles-or_last (b ∷ []) (n ∷ m ∷ k ∷ ns) d h hd e = ground arith
nibbles-or_last (b ∷ c ∷ bs) [] d h hd e = ground arith
nibbles-or_last (b ∷ c ∷ bs) (n ∷ []) d h hd e = ground arith
nibbles-or_last (b ∷ c ∷ bs) (n ∷ m ∷ ns) d h hd e = ground (arith, nibbles-or_last (c ∷ bs) ns d)

or_zero-append : (bytes : List ℕ) (b : ℕ) → or_zero (bytes ++ b ∷ []) ≡ bytes ++ b ∷ []
or_zero-append [] b = refl
or_zero-append (c ∷ bytes) b = refl

or_zero-IsByte : (bytes : List ℕ) → All IsByte bytes → All IsByte (or_zero bytes)
or_zero-IsByte [] h = omega arith
or_zero-IsByte (b ∷ bytes) h = h

-- The nibbles that have been packed: the last byte may wait for its low nibble.
abbrev pub Content : Bool → List ℕ → List ℕ → Type 0
Content true bytes ns = nibbles bytes ≡ ns
Content false bytes ns = nibbles (or_zero bytes) ≡ ns ++ 0 ∷ []

pub record Holds (st : Packing) (ns : List ℕ) : Type 0 where
  pub content : Content st.high_nibble st.bytes ns
  pub bytes : All IsByte st.bytes

pushed_high :
    (bytes ns : List ℕ) (d : ℕ)
    → d < 10
    → nibbles bytes ≡ ns
    → Content false (bytes ++ (d * 16 % 256) ∷ []) (ns ++ d ∷ [])
pushed_high bytes ns d hd e =
    let high : d * 16 % 256 / 16 ≡ d = omega arith in
    let low : d * 16 % 256 % 16 ≡ 0 = omega arith in
    rw or_zero-append
      (nibbles-append bytes _ ∙ rw (e, high, low) (sym (append_assoc ns (d ∷ []) (0 ∷ []))))

pub push_digit-Holds :
    (d : ℕ) (st : Packing) (ns : List ℕ)
    → d < 10
    → Holds st ns
    → Holds (push_digit d st) (ns ++ d ∷ [])
unfolding push_digit
push_digit-Holds d st ns hd h = go st.high_nibble st.bytes h.content h.bytes
  where
    go :
        (high : Bool) (bytes : List ℕ)
        → Content high bytes ns
        → All IsByte bytes
        → Holds
            (push_digit d (record { bytes = bytes; high_nibble = high; scale = st.scale }))
            (ns ++ d ∷ [])
    go true bytes e hb = record {
      content = pushed_high bytes ns d hd e;
      bytes = All-append IsByte bytes _ hb (omega arith);
    }
    go false bytes e hb =
        let (nib, all) =
          nibbles-or_last (or_zero bytes) ns d (or_zero-IsByte bytes hb) (omega arith) e in
        record { content = nib; bytes = all }

-- The digits of a text without the zeros in front.
abbrev pub strip : List ℕ → List ℕ
strip [] = []
strip (d ∷ ds) = if d == 0 then strip ds else d ∷ ds
