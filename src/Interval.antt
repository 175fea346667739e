-- ===== src/Interval.antt =====
-- datetime/interval.go and datetime/adjust.go. An int64 is its 64-bit word. The msgpack encoder
-- and decoder are arguments: an encoder gives the bytes that it writes, a decoder what it has read
-- and the input behind that, and `none` is an error.
pub mod RoundTrip
pub mod Sum
mod Tests
use go_tarantool.Common.{
  ℕ, zero, suc, ◌+◌, ◌-◌, ◌%◌, ◌^◌, Bool, true, false, List, [], ◌∷◌, ◌++◌, Option, none, some, ltb,
  ◌==◌, if◌then◌else◌,
}

-- `other_adjust` is any further value of the int.
pub data Adjust : Type 0 where
  none_adjust excess_adjust last_adjust : Adjust
  other_adjust : ℕ → Adjust

pub record Interval : Type 0 where
  pub year : ℕ
  pub month : ℕ
  pub week : ℕ
  pub day : ℕ
  pub hour : ℕ
  pub min : ℕ
  pub sec : ℕ
  pub nsec : ℕ
  pub adjust : Adjust

-- `a + b` and `a - b` of two words.
abbrev pub add_word : ℕ → ℕ → ℕ
add_word a b = (a + b) % 2 ^ 64

abbrev pub sub_word : ℕ → ℕ → ℕ
sub_word a b = (a + 2 ^ 64 - b) % 2 ^ 64

unfoldable pub add : Interval → Interval → Interval
add ival other = record ival {
  year = add_word ival.year other.year;
  month = add_word ival.month other.month;
  week = add_word ival.week other.week;
  day = add_word ival.day other.day;
  hour = add_word ival.hour other.hour;
  min = add_word ival.min other.min;
  sec = add_word ival.sec other.sec;
  nsec = add_word ival.nsec other.nsec;
}

unfoldable pub sub : Interval → Interval → Interval
sub ival other = record ival {
  year = sub_word ival.year other.year;
  month = sub_word ival.month other.month;
  week = sub_word ival.week other.week;
  day = sub_word ival.day other.day;
  hour = sub_word ival.hour other.hour;
  min = sub_word ival.min other.min;
  sec = sub_word ival.sec other.sec;
  nsec = sub_word ival.nsec other.nsec;
}

-- The two maps; a missing key of the first gives 0.
unfoldable pub adjust_to_dt : Adjust → ℕ
adjust_to_dt none_adjust = 1
adjust_to_dt excess_adjust = 0
adjust_to_dt last_adjust = 2
adjust_to_dt (other_adjust n) = 0

unfoldable pub dt_to_adjust : ℕ → Option Adjust
dt_to_adjust v =
    if v == 0
    then some excess_adjust
    else if v == 1
    then some none_adjust
    else if v == 2
    then some last_adjust
    else none

-- What the code uses of the msgpack library.
pub record Msgpack : Type 0 where
  pub encode_uint : ℕ → Option (List ℕ)
  pub encode_int : ℕ → Option (List ℕ)
  pub decode_uint : List ℕ → Option (ℕ × List ℕ)
  pub decode_int64 : List ℕ → Option (ℕ × List ℕ)

-- `if err != nil { return }`
abbrev pub and_then : {A B : Type 0} → Option A → (A → Option B) → Option B
and_then none f = none
and_then (some a) f = f a

-- The type and the value of each field, in the order of the calls.
unfoldable pub fields : Interval → List (ℕ × ℕ)
unfolding adjust_to_dt
fields x =
    (0, x.year)
    ∷ (1, x.month)
    ∷ (2, x.week)
    ∷ (3, x.day)
    ∷ (4, x.hour)
    ∷ (5, x.min)
    ∷ (6, x.sec)
    ∷ (7, x.nsec)
    ∷ (8, adjust_to_dt x.adjust)
    ∷ []

unfoldable pub field_num : List (ℕ × ℕ) → ℕ
field_num [] = 0
field_num ((typ, value) ∷ fs) = if value == 0 then field_num fs else suc (field_num fs)

module _ (m : Msgpack) where
  -- A word is positive below 2 ^ 63.
  unfoldable pub encode_interval_value : ℕ → ℕ → Option (List ℕ)
  encode_interval_value typ value =
      if value == 0
      then some []
      else and_then (m.encode_uint typ) (λ t.
        and_then (if ltb value (2 ^ 63) then m.encode_uint value else m.encode_int value)
          (λ v. some (t ++ v)))

  unfoldable pub encode_fields : List (ℕ × ℕ) → Option (List ℕ)
  unfolding encode_interval_value
  encode_fields [] = some []
  encode_fields ((typ, value) ∷ fs) =
      and_then (encode_interval_value typ value)
        (λ bs. and_then (encode_fields fs) (λ rest. some (bs ++ rest)))

  unfoldable pub encode_interval : Interval → Option (List ℕ)
  unfolding fields field_num encode_fields
  encode_interval x =
      and_then (m.encode_uint (field_num (fields x)))
        (λ bs. and_then (encode_fields (fields x)) (λ rest. some (bs ++ rest)))

-- The switch on the type of a field; the flag is `hasAdjust`.
unfoldable pub set_field : ℕ → ℕ → Interval × Bool → Option (Interval × Bool)
unfolding dt_to_adjust
set_field typ v (x, b) =
    if typ == 0
    then some (record x { year = v }, b)
    else if typ == 1
    then some (record x { month = v }, b)
    else if typ == 2
    then some (record x { week = v }, b)
    else if typ == 3
    then some (record x { day = v }, b)
    else if typ == 4
    then some (record x { hour = v }, b)
    else if typ == 5
    then some (record x { min = v }, b)
    else if typ == 6
    then some (record x { sec = v }, b)
    else if typ == 7
    then some (record x { nsec = v }, b)
    else if typ == 8
    then and_then (dt_to_adjust v) (λ a. some (record x { adjust = a }, true))
    else none

abbrev pub zero_interval : Interval
zero_interval = record {
  year = 0;
  month = 0;
  week = 0;
  day = 0;
  hour = 0;
  min = 0;
  sec = 0;
  nsec = 0;
  adjust = none_adjust;
}

module _ (m : Msgpack) where
  unfoldable pub decode_fields : ℕ → List ℕ → Interval × Bool → Option ((Interval × Bool) × List ℕ)
  unfolding set_field
  decode_fields zero input st = some (st, input)
  decode_fields (suc n) input st = and_then (m.decode_uint input) (λ t.
      and_then (m.decode_int64 t.1)
        (λ v. and_then (set_field t.0 v.0 st) (λ st'. decode_fields n v.1 st')))

  -- `int(fieldNum)` is negative from 2 ^ 63 on, and the loop does not run.
  unfoldable pub decode_interval : List ℕ → Option (Interval × List ℕ)
  unfolding decode_fields
  decode_interval input = and_then (m.decode_uint input) (λ n.
      and_then (decode_fields (if ltb n.0 (2 ^ 63) then n.0 else 0) n.1 (zero_interval, false))
        (λ r. some (if r.0.1 then r.0.0 else record (r.0.0) { adjust = excess_adjust }, r.1)))
