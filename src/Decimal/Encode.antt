-- ===== src/Decimal/Encode.antt =====
-- decimal/bcd.go: what the encoder packs, for the text of a decimal number.
use go_tarantool.Common.{
  ℕ, suc, ◌+◌, ◌-◌, ◌*◌, ◌%◌, ◌<◌, ◌≡◌, refl, ap, ◌∙◌, inl, inr, Bool, true, false, ◌&&◌,
  Bool-cases, List, [], ◌∷◌, ◌++◌, arith, ◌==◌, if◌then◌else◌, length, All,
}
use mathlib.Core.List.{append_assoc, append-nil}
use go_tarantool.Decimal.{is_nil, or_last, Packing, push_digit, encode_loop}
use go_tarantool.Decimal.Nibbles.{Holds, push_digit-Holds, strip, or_zero}

abbrev pub IsDigit : ℕ → Type 0
IsDigit d = d < 10

abbrev pub chars : List ℕ → List ℕ
chars [] = []
chars (d ∷ ds) = (d + b'0') ∷ chars ds

-- What the loop does to digits.
abbrev pub run : List ℕ → Packing → Packing
run [] st = st
run (d ∷ ds) st = run ds (if is_nil st.bytes && d == 0 then st else push_digit d st)

pub encode_loop-digits :
    (len i : ℕ) (ds rest : List ℕ) (st : Packing)
    → All IsDigit ds
    → encode_loop len i (chars ds ++ rest) st ≡ encode_loop len (i + length ds) rest (run ds st)
unfolding encode_loop
encode_loop-digits len i [] rest st h = ap (λ k. encode_loop len k rest st) (omega arith)
encode_loop-digits len i (d ∷ ds) rest st h =
    let next : i + 1 + length ds ≡ i + suc (length ds) = omega arith in
    let digit : d + b'0' - b'0' ≡ d = omega arith in
    ground (
      arith,
      encode_loop-digits len (i + 1) ds rest st h.1,
      encode_loop-digits len (i + 1) ds rest (push_digit d st) h.1,
    )

nil-or_last : (bytes : List ℕ) (d : ℕ) → is_nil (or_last bytes d) ≡ is_nil bytes
unfolding or_last
nil-or_last [] d = refl
nil-or_last (b ∷ []) d = refl
nil-or_last (b ∷ c ∷ bytes) d = refl

nil-or_zero : (bytes : List ℕ) → is_nil (or_zero bytes) ≡ false
nil-or_zero [] = refl
nil-or_zero (b ∷ bytes) = refl

nil-append : (bytes : List ℕ) (b : ℕ) → is_nil (bytes ++ b ∷ []) ≡ false
nil-append [] b = refl
nil-append (c ∷ bytes) b = refl

push_digit-nonempty : (d : ℕ) (st : Packing) → is_nil (push_digit d st).bytes ≡ false
unfolding push_digit
push_digit-nonempty d st = ground (
  arith,
  nil-or_last (or_zero st.bytes) d,
  nil-or_zero st.bytes,
  nil-append st.bytes (d * 16 % 256),
)

push_digit-scale : (d : ℕ) (st : Packing) → (push_digit d st).scale ≡ st.scale
unfolding push_digit
push_digit-scale d st = ground arith

-- What the digits leave behind: zeros in front are not packed.
abbrev pub packed : Packing → List ℕ → List ℕ
packed st ds = if is_nil st.bytes then strip ds else ds

pub record Ran (ds : List ℕ) (st st' : Packing) (ns : List ℕ) : Type 0 where
  pub holds : Holds st' (ns ++ packed st ds)
  pub nil : is_nil st'.bytes ≡ (is_nil st.bytes && is_nil (strip ds))
  pub scale : st'.scale ≡ st.scale

run-pushed :
    (d : ℕ) (ds : List ℕ) (st : Packing) (ns : List ℕ) (st' : Packing)
    → is_nil st.bytes && d == 0 ≡ false
    → Ran ds (push_digit d st) st' (ns ++ d ∷ [])
    → Ran (d ∷ ds) st st' ns
run-pushed d ds st ns st' e r =
    let full : packed (push_digit d st) ds ≡ ds = rw (push_digit-nonempty d st) in
    let all : packed st (d ∷ ds) ≡ d ∷ ds = ground arith in
    record {
      holds = rw (all, ← append_assoc ns (d ∷ []) ds) (rw full at r.holds);
      nil = ground (arith, r.nil, push_digit-nonempty d st);
      scale = r.scale ∙ push_digit-scale d st;
    }

run-skipped :
    (d : ℕ) (ds : List ℕ) (st : Packing) (ns : List ℕ) (st' : Packing)
    → is_nil st.bytes && d == 0 ≡ true
    → Ran ds st st' ns
    → Ran (d ∷ ds) st st' ns
run-skipped d ds st ns st' e r =
    let same : packed st (d ∷ ds) ≡ packed st ds = ground arith in
    record { holds = rw same r.holds; nil = ground (arith, r.nil); scale = r.scale }

pub run-Ran :
    (ds : List ℕ) (st : Packing) (ns : List ℕ)
    → All IsDigit ds
    → Holds st ns
    → Ran ds st (run ds st) ns
run-Ran [] st ns h holds = record {
  holds = let nothing : packed st [] ≡ [] = ground arith in rw (nothing, append-nil ns) holds;
  nil = ground arith;
  scale = refl;
}
run-Ran (d ∷ ds) st ns h holds = elim (Bool-cases (is_nil st.bytes && d == 0)) [
  | inl e ↦ rw e (run-skipped d ds st ns _ e (run-Ran ds st ns h.1 holds))
  | inr e ↦ rw e (
      run-pushed d ds st ns _ e
        (run-Ran ds (push_digit d st) _ h.1 (push_digit-Holds d st ns h.0 holds)))
]

-- A number as text: a sign, its digits, and a point before the last ones if there are such.
pub record Number : Type 0 where
  pub negative : Bool
  pub whole : List ℕ
  pub fraction : List ℕ

pub record IsNumber (x : Number) : Type 0 where
  pub whole : All IsDigit x.whole
  pub fraction : All IsDigit x.fraction
  pub short : length x.fraction < 256
  pub some_digit : is_nil x.whole ≡ false

abbrev pub sign_text : Bool → List ℕ
sign_text true = b'-' ∷ []
sign_text false = []

abbrev pub point_text : List ℕ → List ℕ
point_text [] = []
point_text (d ∷ ds) = b'.' ∷ chars (d ∷ ds)

abbrev pub text : Number → List ℕ
text x = sign_text x.negative ++ chars x.whole ++ point_text x.fraction

-- The digits that are packed.
abbrev pub significant : Number → List ℕ
significant x = strip (x.whole ++ x.fraction)

abbrev pub one_at_least : ℕ → ℕ
one_at_least n = if n == 0 then 1 else n
