-- ===== src/Msgpack/Plain.antt =====
-- A msgpack library for the tests of decoders: a number in each cell, and a text as its length and the
-- numbers of its characters. A value is a number.
use go_tarantool.Common.{
  ℕ, zero, suc, ◌≡◌, refl, ap, sym, ◌∙◌, String, Bool, true, false, List, [], ◌∷◌, ◌++◌, Option,
  none, some, Outcome, returns, fails, if◌then◌else◌, ◌==◌,
}
use Prim.Native.Nat.{Ordering, compare}
use Prim.Native.Char.{Char, char, code, IsLt, IsScalar}
use mathlib.Core.Option.{some_inj}
use go_tarantool.Msgpack.{Codec}
use go_tarantool.Msgpack.Decoder.{Decoder, ◌>>-◌, Decodes, IsDecoder}

-- The clauses of the helpers of `IsScalar`, which are private to its module.
abbrev BothLess : Ordering → Ordering → Type 0
BothLess Ordering.lt o = IsLt o
BothLess Ordering.eq o = ⊥
BothLess Ordering.gt o = ⊥

abbrev Scalar : Ordering → Ordering → Ordering → Type 0
Scalar Ordering.lt o p = Unit
Scalar Ordering.eq o p = BothLess o p
Scalar Ordering.gt o p = BothLess o p

abbrev find_less : (o : Ordering) → Option (IsLt o)
find_less Ordering.lt = some tt
find_less Ordering.eq = none
find_less Ordering.gt = none

abbrev find_both : (o p : Ordering) → Option (BothLess o p)
find_both Ordering.lt p = find_less p
find_both Ordering.eq p = none
find_both Ordering.gt p = none

abbrev find_scalar : (o p q : Ordering) → Option (Scalar o p q)
find_scalar Ordering.lt p q = some tt
find_scalar Ordering.eq p q = find_both p q
find_scalar Ordering.gt p q = find_both p q

find_less-some : (o : Ordering) (h : IsLt o) → find_less o ≡ some h
find_less-some Ordering.lt h = refl
find_less-some Ordering.eq h = absurd h
find_less-some Ordering.gt h = absurd h

find_both-some : (o p : Ordering) (h : BothLess o p) → find_both o p ≡ some h
find_both-some Ordering.lt p h = find_less-some p h
find_both-some Ordering.eq p h = absurd h
find_both-some Ordering.gt p h = absurd h

find_scalar-some : (o p q : Ordering) (h : Scalar o p q) → find_scalar o p q ≡ some h
find_scalar-some Ordering.lt p q h = refl
find_scalar-some Ordering.eq p q h = find_both-some p q h
find_scalar-some Ordering.gt p q h = find_both-some p q h

abbrev char_with : (n : ℕ) → Option (IsScalar n) → Outcome Char
char_with n none = fails
char_with n (some h) = returns (char n h)

abbrev find_at : (n : ℕ) → Option (IsScalar n)
find_at n = find_scalar (compare n 55296) (compare 57343 n) (compare n 1114112)

abbrev chars : String → List ℕ
chars String.[] = []
chars (String.◌∷◌ c s) = code c ∷ chars s

abbrev count : String → ℕ
count String.[] = 0
count (String.◌∷◌ c s) = suc (count s)

abbrev read_chars : ℕ → List ℕ → Outcome (String × List ℕ)
read_chars zero input = returns ("", input)
read_chars (suc n) [] = fails
read_chars (suc n) (c ∷ input) =
    let rest = read_chars n input in
    char_with c (find_at c) >>- (λ x. rest >>- (λ r. returns (String.◌∷◌ x r.0, r.1)))

read_chars-chars :
    (s : String) (rest : List ℕ) → read_chars (count s) (chars s ++ rest) ≡ returns (s, rest)
read_chars-chars String.[] rest = refl
read_chars-chars (String.◌∷◌ (char n h) s) rest =
    ap
      (λ o. char_with n o >>- (λ x.
        read_chars (count s) (chars s ++ rest) >>- (λ r. returns (String.◌∷◌ x r.0, r.1))))
      (find_scalar-some (compare n 55296) (compare 57343 n) (compare n 1114112) h)
    ∙ ap (λ o. o >>- (λ r. returns (String.◌∷◌ (char n h) r.0, r.1))) (read_chars-chars s rest)

abbrev pub plain : Codec ℕ
plain = record {
  encode_map_len = λ n. n ∷ [];
  encode_array_len = λ n. n ∷ [];
  encode_uint = λ n. n ∷ [];
  encode_uint64 = λ n. n ∷ [];
  encode_string = λ t. count t ∷ chars t;
  encode_bool = λ b. (if b then 1 else 0) ∷ [];
  encode = λ v. some (v ∷ []);
  skip = λ input. none;
  slice = λ vs. 0;
  text = λ t. 0;
  seconds = λ t. t;
  unsigned = λ n. n;
}

abbrev read_length : List ℕ → Outcome (Option ℕ × List ℕ)
read_length [] = fails
read_length (n ∷ input) = returns (some n, input)

abbrev read_number : List ℕ → Outcome (ℕ × List ℕ)
read_number [] = fails
read_number (n ∷ input) = returns (n, input)

abbrev read_text : List ℕ → Outcome (String × List ℕ)
read_text [] = fails
read_text (n ∷ input) = read_chars n input

abbrev read_bool : List ℕ → Outcome (Bool × List ℕ)
read_bool [] = fails
read_bool (n ∷ input) = returns (if n == 0 then false else true, input)

abbrev read_bytes : List ℕ → Outcome (List ℕ × List ℕ)
read_bytes [] = fails
read_bytes (n ∷ input) = returns (n ∷ [], input)

-- An object that is skipped is one cell.
abbrev skip_cell : List ℕ → Outcome (List ℕ)
skip_cell [] = fails
skip_cell (n ∷ input) = returns input

abbrev pub plain_decoder : Decoder ℕ
plain_decoder = record {
  map_len = read_length;
  array_len = read_length;
  uint = read_number;
  int = read_number;
  string = read_text;
  bool = read_bool;
  bytes = read_bytes;
  value = read_number;
  skip = skip_cell;
}

written_cells :
    {A : Type 0} (p : List ℕ → Outcome (A × List ℕ)) (a : A) (cells : List ℕ)
    → ((rest : List ℕ) → p (cells ++ rest) ≡ returns (a, rest))
    → Decodes (some cells) p a
written_cells p a cells h bs rest e = ap (λ l. p (l ++ rest)) (sym (some_inj.0 e)) ∙ h rest

bool-read : (b : Bool) (rest : List ℕ) → read_bool ((if b then 1 else 0) ∷ rest) ≡ returns (b, rest)
bool-read true rest = refl
bool-read false rest = refl

pub value-Decodes : (v : ℕ) → Decodes (plain.encode v) plain_decoder.value v
value-Decodes v = written_cells read_number v (v ∷ []) (λ rest. refl)

pub plain_decoder-IsDecoder : IsDecoder plain plain_decoder
plain_decoder-IsDecoder = record {
  map_len_read = λ n h. written_cells read_length (some n) (n ∷ []) (λ rest. refl);
  array_len_read = λ n h. written_cells read_length (some n) (n ∷ []) (λ rest. refl);
  uint_read = λ n h. written_cells read_number n (n ∷ []) (λ rest. refl);
  int_read = λ n h. written_cells read_number n (n ∷ []) (λ rest. refl);
  string_read = λ t. written_cells read_text t (count t ∷ chars t) (read_chars-chars t);
  bool_read = λ b. written_cells read_bool b ((if b then 1 else 0) ∷ []) (bool-read b);
}
