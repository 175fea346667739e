-- ===== src/Msgpack/Cells.antt =====
-- A msgpack library over cells, for the tests: an object is its number of children and a payload, and
-- then the children. A value is what was encoded of it.
use go_tarantool.Common.{
  ℕ, zero, suc, ◌+◌, ◌*◌, ◌≡◌, refl, ap, sym, subst, ◌∙◌, Bool, true, false, List, [], ◌∷◌, ◌++◌,
  Option, none, some, ◌>>=◌, if◌then◌else◌, length, arith,
}
use mathlib.Core.List.{append-nil}
use mathlib.Core.Option.{some_inj}
use go_tarantool.Msgpack.{Codec, skip_times, IsCodec, Objects}
use go_tarantool.Msgpack.Objects.{◌▸◌, Writes, Writes-then, Writes-head, Writes-nothing}
use go_tarantool.Crud.Values.{Structs, encode_all, IsStructs}

-- So many objects are skipped.
abbrev run : ℕ → List ℕ → Option (List ℕ)
run zero input = some input
run (suc k) [] = none
run (suc k) (c ∷ []) = none
run (suc k) (c ∷ p ∷ input) = run (k + c) input

abbrev no_rest : Option (List ℕ) → Bool
no_rest none = false
no_rest (some []) = true
no_rest (some (c ∷ rest)) = false

abbrev checked : Option (List ℕ) → Option (List ℕ)
checked none = none
checked (some bs) = if no_rest (run 1 bs) then some bs else none

abbrev all_checked : List (Option (List ℕ)) → Option (List ℕ)
all_checked [] = some []
all_checked (v ∷ vs) = checked v ▸ all_checked vs

abbrev array_of : List (Option (List ℕ)) → Option (List ℕ)
array_of vs = some (length vs ∷ 0 ∷ []) ▸ all_checked vs

abbrev pub Cell : Type 0
Cell = Option (List ℕ)

abbrev pub cells : Codec Cell
cells = record {
  encode_map_len = λ n. 2 * n ∷ 0 ∷ [];
  encode_array_len = λ n. n ∷ 0 ∷ [];
  encode_uint = λ n. 0 ∷ n ∷ [];
  encode_uint64 = λ n. 0 ∷ n ∷ [];
  encode_string = λ t. 0 ∷ 0 ∷ [];
  encode_bool = λ b. 0 ∷ (if b then 1 else 0) ∷ [];
  encode = checked;
  skip = run 1;
  slice = array_of;
  text = λ t. some (0 ∷ 0 ∷ []);
  seconds = λ t. some (0 ∷ t ∷ []);
  unsigned = λ n. some (0 ∷ n ∷ []);
}

run-add : (a b : ℕ) (input : List ℕ) → run (a + b) input ≡ (run a input >>= run b)
run-add zero b input = let e : 0 + b ≡ b = omega arith in ap (λ k. run k input) e
run-add (suc a) b [] = let e : suc a + b ≡ suc (a + b) = omega arith in ap (λ k. run k []) e
run-add (suc a) b (c ∷ []) =
    let e : suc a + b ≡ suc (a + b) = omega arith in ap (λ k. run k (c ∷ [])) e
run-add (suc a) b (c ∷ p ∷ input) =
    let e : suc a + b ≡ suc (a + b) = omega arith in
    let f : a + b + c ≡ a + c + b = omega arith in
    ap (λ k. run k (c ∷ p ∷ input)) e ∙ ap (λ k. run k input) f ∙ run-add (a + c) b input

bind_cong :
    (o : Option (List ℕ)) (f g : List ℕ → Option (List ℕ))
    → ((l : List ℕ) → f l ≡ g l)
    → (o >>= f) ≡ (o >>= g)
bind_cong none f g h = refl
bind_cong (some l) f g h = h l

skip_times-run : (n : ℕ) (input : List ℕ) → skip_times cells n input ≡ run n input
unfolding skip_times
skip_times-run zero input = refl
skip_times-run (suc n) input =
    let e : 1 + n ≡ suc n = omega arith in
    bind_cong (run 1 input) (skip_times cells n) (run n) (skip_times-run n)
    ∙ sym (run-add 1 n input)
    ∙ ap (λ k. run k input) e

abbrev Runs : ℕ → List ℕ → Type 0
Runs n bs = (rest : List ℕ) → run n (bs ++ rest) ≡ some rest

abbrev to_objects : (n : ℕ) (bs : List ℕ) → Runs n bs → Objects cells n bs
to_objects n bs h rest = skip_times-run n (bs ++ rest) ∙ h rest

abbrev from_objects : (n : ℕ) (bs : List ℕ) → Objects cells n bs → Runs n bs
from_objects n bs h rest = sym (skip_times-run n (bs ++ rest)) ∙ h rest

run-append : (k : ℕ) (bs rest : List ℕ) → run k bs ≡ some [] → run k (bs ++ rest) ≡ some rest
run-append zero [] rest e = refl
run-append zero (c ∷ bs) rest e = cc
run-append (suc k) [] rest e = cc
run-append (suc k) (c ∷ []) rest e = cc
run-append (suc k) (c ∷ p ∷ bs) rest e = run-append (k + c) bs rest e

no_rest-some : (o : Option (List ℕ)) → no_rest o ≡ true → o ≡ some []
no_rest-some none h = cc
no_rest-some (some []) h = refl
no_rest-some (some (c ∷ rest)) h = cc

checked-some :
    (b : Bool) (bs cs : List ℕ) → (if b then some bs else none) ≡ some cs → (b ≡ true) × (bs ≡ cs)
checked-some true bs cs e = (refl, some_inj.0 e)
checked-some false bs cs e = absurd (cc)

checked-Objects : (v : Cell) (bs : List ℕ) → checked v ≡ some bs → Objects cells 1 bs
checked-Objects none bs e = absurd (cc)
checked-Objects (some cs) bs e =
    let h = checked-some (no_rest (run 1 cs)) cs bs e in
    subst (Objects cells 1) h.1
      (to_objects 1 cs (λ rest. run-append 1 cs rest (no_rest-some (run 1 cs) h.0)))

-- What is one object passes the check.
Objects-checked : (w : Cell) → Writes cells 1 w → checked w ≡ w
Objects-checked none h = refl
Objects-checked (some bs) h =
    let e = from_objects 1 bs (h bs refl) [] in
    ap (λ o. if no_rest o then some bs else none) (ap (run 1) (sym (append-nil bs)) ∙ e)

container-Objects :
    (n : ℕ) (bs : List ℕ) → Objects cells n bs → Objects cells 1 ((n ∷ 0 ∷ []) ++ bs)
container-Objects n bs h =
    let e : 0 + n ≡ n = omega arith in
    to_objects 1 ((n ∷ 0 ∷ []) ++ bs)
      (λ rest. ap (λ k. run k (bs ++ rest)) e ∙ from_objects n bs h rest)

leaf-Objects : (p : ℕ) → Objects cells 1 (0 ∷ p ∷ [])
leaf-Objects p = to_objects 1 (0 ∷ p ∷ []) (λ rest. refl)

pub cells-IsCodec : IsCodec cells
cells-IsCodec = record {
  uint_object = λ n h. leaf-Objects n;
  uint64_object = λ n h. leaf-Objects n;
  string_object = λ t. leaf-Objects 0;
  bool_object = λ b. leaf-Objects _;
  value_object = checked-Objects;
  map_object = λ n bs h e. container-Objects (2 * n) bs e;
  array_object = λ n bs h e. container-Objects n bs e;
}

abbrev pub shapes : Structs Cell
shapes = record {
  nil = some (0 ∷ 0 ∷ []);
  unsigned = λ n. some (0 ∷ n ∷ []);
  integer = λ n. some (0 ∷ n ∷ []);
  flag = λ b. some (0 ∷ (if b then 1 else 0) ∷ []);
  empty_map = some (0 ∷ 0 ∷ []);
  as_array = array_of;
  custom = λ w. w;
  partial = λ v. [];
}

all_checked-encode_all : (vs : List Cell) → all_checked vs ≡ encode_all cells vs
unfolding encode_all
all_checked-encode_all [] = refl
all_checked-encode_all (v ∷ vs) = ap (λ o. checked v ▸ o) (all_checked-encode_all vs)

all_checked-Writes : (vs : List Cell) → Writes cells (length vs) (all_checked vs)
all_checked-Writes [] = Writes-nothing cells cells-IsCodec
all_checked-Writes (v ∷ vs) =
    let e : 1 + length vs ≡ length (v ∷ vs) = omega arith in
    subst (λ n. Writes cells n (checked v ▸ all_checked vs)) e
      (Writes-then cells 1 (length vs) (checked v) (all_checked vs) (checked-Objects v)
        (all_checked-Writes vs))

array_of-Writes : (vs : List Cell) → Writes cells 1 (array_of vs)
array_of-Writes vs =
    Writes-head cells (length vs) (length vs) (length vs ∷ 0 ∷ []) (all_checked vs)
      (container-Objects (length vs)) (all_checked-Writes vs)

pub shapes-IsStructs : IsStructs cells shapes
shapes-IsStructs = record {
  unsigned_some = λ n. (0 ∷ n ∷ [], refl);
  integer_some = λ n. (0 ∷ n ∷ [], refl);
  flag_some = λ b. (0 ∷ (if b then 1 else 0) ∷ [], refl);
  text_some = λ t. refl;
  as_array_encode = λ vs.
      Objects-checked (array_of vs) (array_of-Writes vs)
      ∙ ap (λ o. some (length vs ∷ 0 ∷ []) ▸ o) (all_checked-encode_all vs);
  custom_encode = λ w h. Objects-checked w h;
}
