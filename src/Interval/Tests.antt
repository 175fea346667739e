-- ===== src/Interval/Tests.antt =====
-- datetime/interval.go: an interval of a month and minus one day, on a wire of whole numbers.
use go_tarantool.Common.{
  ℕ, ◌^◌, ◌-◌, ◌≡◌, ◌≢◌, refl, List, [], ◌∷◌, ◌++◌, Option, none, some, arith,
}
use go_tarantool.Interval.{
  last_adjust, other_adjust, Interval, add, sub, Msgpack, encode_interval, decode_interval,
}
use go_tarantool.Interval.Sum.{IsInterval, sub-add}
use go_tarantool.Interval.RoundTrip.{IsMsgpack, encode_interval-decode}

abbrev read_cell : List ℕ → Option (ℕ × List ℕ)
read_cell [] = none
read_cell (v ∷ input) = some (v, input)

-- A wire with a number in each cell.
abbrev cells : Msgpack
cells = record {
  encode_uint = λ v. some (v ∷ []);
  encode_int = λ v. some (v ∷ []);
  decode_uint = read_cell;
  decode_int64 = read_cell;
}

cells-IsMsgpack : IsMsgpack cells
cells-IsMsgpack = record {
  uint = λ v h. (v ∷ [], refl, λ rest. refl, λ k rest. refl);
  int = λ v k h. (v ∷ [], refl, λ rest. refl);
}

abbrev ival : Interval
ival = record {
  year = 0;
  month = 1;
  week = 0;
  day = 2 ^ 64 - 1;
  hour = 0;
  min = 0;
  sec = 0;
  nsec = 0;
  adjust = last_adjust;
}

ival-IsInterval : IsInterval ival
ival-IsInterval = record {
  year = omega arith;
  month = omega arith;
  week = omega arith;
  day = omega arith;
  hour = omega arith;
  min = omega arith;
  sec = omega arith;
  nsec = omega arith;
}

last≢other : (n : ℕ) → last_adjust ≢ other_adjust n
last≢other n e = cc

encoded_ival : encode_interval cells ival ≡ some (3 ∷ 1 ∷ 1 ∷ 3 ∷ (2 ^ 64 - 1) ∷ 8 ∷ 2 ∷ [])
unfolding encode_interval
encoded_ival = refl

encode_interval-decode_example :
    (bs : List ℕ) × (encode_interval cells ival ≡ some bs)
    × ((rest : List ℕ) → decode_interval cells (bs ++ rest) ≡ some (ival, rest))
encode_interval-decode_example =
    encode_interval-decode cells ival cells-IsMsgpack ival-IsInterval last≢other

sub-add_example : sub (add ival ival) ival ≡ ival
sub-add_example = sub-add ival ival ival-IsInterval ival-IsInterval
