-- ===== src/Interval/RoundTrip.antt =====
-- datetime/interval.go: decoding what was encoded.
use go_tarantool.Common.{
  ℕ, zero, suc, ◌^◌, ◌<◌, ◌≤◌, ◌≡◌, ◌≢◌, refl, ap, ◌∙◌, inl, inr, Bool, true, false, Bool-cases,
  List, [], ◌∷◌, ◌++◌, Option, none, some, Option-cases, ltb, ◌==◌, if◌then◌else◌, All, length,
  arith,
}
use mathlib.Core.List.{append_assoc}
use go_tarantool.Interval.{
  Adjust, none_adjust, excess_adjust, last_adjust, other_adjust, Interval, adjust_to_dt,
  dt_to_adjust, Msgpack, and_then, fields, field_num, encode_interval_value, encode_fields,
  encode_interval, set_field, zero_interval, decode_fields, decode_interval,
}
use go_tarantool.Interval.Sum.{IsWord, IsInterval}

-- What is relied on of the msgpack library, writing to memory: a uint is written and read back
-- as a uint and, where it is an int64, as that; a negative int is written and read back.
pub record IsMsgpack (m : Msgpack) : Type 0 where
  pub uint :
      (v : ℕ)
      → IsWord v
      → (bs : List ℕ) × (m.encode_uint v ≡ some bs)
        × ((rest : List ℕ) → m.decode_uint (bs ++ rest) ≡ some (v, rest))
        × (v < 2 ^ 63 → (rest : List ℕ) → m.decode_int64 (bs ++ rest) ≡ some (v, rest))
  pub int :
      (v : ℕ)
      → 2 ^ 63 ≤ v
      → IsWord v
      → (bs : List ℕ) × (m.encode_int v ≡ some bs)
        × ((rest : List ℕ) → m.decode_int64 (bs ++ rest) ≡ some (v, rest))

-- What the decoder makes of the fields: those that are 0 are not written.
abbrev put_field : ℕ × ℕ → Interval × Bool → Option (Interval × Bool)
put_field (typ, v) st = if v == 0 then some st else set_field typ v st

abbrev put_fields : List (ℕ × ℕ) → Interval × Bool → Option (Interval × Bool)
put_fields [] st = some st
put_fields (f ∷ fs) st = and_then (put_field f st) (put_fields fs)

abbrev IsField : ℕ × ℕ → Type 0
IsField (typ, v) = IsWord typ × IsWord v

module _ (m : Msgpack) (laws : IsMsgpack m) where
  -- A value that is not 0 is written, and read back with its type.
  value-written :
      (typ v : ℕ)
      → IsWord typ
      → IsWord v
      → (v == 0) ≡ false
      → (ts vs : List ℕ) × (encode_interval_value m typ v ≡ some (ts ++ vs))
        × ((rest : List ℕ) → m.decode_uint (ts ++ rest) ≡ some (typ, rest))
        × ((rest : List ℕ) → m.decode_int64 (vs ++ rest) ≡ some (v, rest))
  unfolding encode_interval_value
  value-written typ v ht hv e =
      let (ts, et, dt, it) = laws.uint typ ht in
      elim (Bool-cases (ltb v (2 ^ 63))) [
        | inl below ↦
            let (vs, ev, dv, iv) = laws.uint v hv in
            (ts, vs, rw (e, et, below, ev) refl, dt, iv (ground arith))
        | inr above ↦
            let (vs, ev, iv) = laws.int v (ground arith) hv in
            (ts, vs, rw (e, et, above, ev) refl, dt, iv)
      ]

  value-skipped : (typ v : ℕ) → (v == 0) ≡ true → encode_interval_value m typ v ≡ some []
  unfolding encode_interval_value
  value-skipped typ v e = rw e refl

  abbrev Written : List (ℕ × ℕ) → Interval × Bool → Interval × Bool → Type 0
  Written fs st st' =
      (bs : List ℕ) × (encode_fields m fs ≡ some bs)
      × ((rest : List ℕ) → decode_fields m (field_num fs) (bs ++ rest) st ≡ some (st', rest))

  skipped :
      (typ v : ℕ) (fs : List (ℕ × ℕ)) (st st' : Interval × Bool)
      → (v == 0) ≡ true
      → Written fs st st'
      → Written ((typ, v) ∷ fs) st st'
  unfolding encode_fields field_num
  skipped typ v fs st st' z (bs, enc, dec) =
      (bs, rw (value-skipped typ v z, enc) refl, λ rest. rw z (dec rest))

  written :
      (typ v : ℕ) (fs : List (ℕ × ℕ)) (st st1 st' : Interval × Bool)
      → IsField (typ, v)
      → (v == 0) ≡ false
      → set_field typ v st ≡ some st1
      → Written fs st1 st'
      → Written ((typ, v) ∷ fs) st st'
  unfolding encode_fields decode_fields field_num
  written typ v fs st st1 st' h z e (bs, enc, dec) =
      let (ts, vs, ev, dt, dv) = value-written typ v h.0 h.1 z in
      (
        ts ++ vs ++ bs,
        rw (ev, enc) refl,
        λ rest.
            let shape : ts ++ vs ++ bs ++ rest ≡ ts ++ (vs ++ (bs ++ rest)) =
              ap (λ l. l ++ rest) (append_assoc ts vs bs)
              ∙ append_assoc ts (vs ++ bs) rest
              ∙ ap (λ l. ts ++ l) (append_assoc vs bs rest) in
            rw (z, shape, dt (vs ++ (bs ++ rest)), dv (bs ++ rest), e) (dec rest),
      )

  nothing-Written : (st st' : Interval × Bool) → some st ≡ some st' → Written [] st st'
  unfolding encode_fields decode_fields field_num
  nothing-Written st st' e = ([], refl, λ rest. ap (λ o. and_then o (λ s. some (s, rest))) e)

  fields-Written :
      (fs : List (ℕ × ℕ)) (st st' : Interval × Bool)
      → All IsField fs
      → put_fields fs st ≡ some st'
      → Written fs st st'
  fields-Written [] st st' h e = nothing-Written st st' e
  fields-Written ((typ, v) ∷ fs) st st' h e = elim (Bool-cases (v == 0)) [
    | inl z ↦
        let e' : put_fields fs st ≡ some st' = rw z at e in
        skipped typ v fs st st' z (fields-Written fs st st' h.1 e')
    | inr z ↦ elim (Option-cases (set_field typ v st)) [
      | inl n ↦ let e' : none ≡ some st' = rw (z, n) at e in absurd (cc)
      | inr (st1, n) ↦
          let e' : put_fields fs st1 ≡ some st' = rw (z, n) at e in
          written typ v fs st st1 st' h.0 z n (fields-Written fs st1 st' h.1 e')
    ]
  ]

-- A field that is still 0 need not be put.
put_zero :
    (typ v : ℕ) (f : ℕ → Interval × Bool)
    → set_field typ v (f 0) ≡ some (f v)
    → put_field (typ, v) (f 0) ≡ some (f v)
put_zero typ zero f e = refl
put_zero typ (suc v) f e = ground (arith, e)

put_next :
    (f : ℕ × ℕ) (fs : List (ℕ × ℕ)) (st st' : Interval × Bool)
    → put_field f st ≡ some st'
    → put_fields (f ∷ fs) st ≡ put_fields fs st'
put_next f fs st st' e = ap (λ o. and_then o (put_fields fs)) e

put_first :
    (typ v : ℕ) (f : ℕ → Interval × Bool) (fs : List (ℕ × ℕ))
    → set_field typ v (f 0) ≡ some (f v)
    → put_fields ((typ, v) ∷ fs) (f 0) ≡ put_fields fs (f v)
put_first typ v f fs e = put_next (typ, v) fs (f 0) (f v) (put_zero typ v f e)

abbrev interval_of : ℕ → ℕ → ℕ → ℕ → ℕ → ℕ → ℕ → ℕ → Interval × Bool
interval_of y mo w d h mi s n = (
  record {
    year = y;
    month = mo;
    week = w;
    day = d;
    hour = h;
    min = mi;
    sec = s;
    nsec = n;
    adjust = none_adjust;
  },
  false,
)

put_fields-fields :
    (x : Interval)
    → put_fields (fields x) (zero_interval, false)
      ≡ put_fields ((8, adjust_to_dt x.adjust) ∷ []) (record x { adjust = none_adjust }, false)
unfolding fields set_field
put_fields-fields x =
    let f8 : List (ℕ × ℕ) = (8, adjust_to_dt x.adjust) ∷ [] in
    let f7 : List (ℕ × ℕ) = (7, x.nsec) ∷ f8 in
    let f6 : List (ℕ × ℕ) = (6, x.sec) ∷ f7 in
    let f5 : List (ℕ × ℕ) = (5, x.min) ∷ f6 in
    let f4 : List (ℕ × ℕ) = (4, x.hour) ∷ f5 in
    let f3 : List (ℕ × ℕ) = (3, x.day) ∷ f4 in
    let f2 : List (ℕ × ℕ) = (2, x.week) ∷ f3 in
    let f1 : List (ℕ × ℕ) = (1, x.month) ∷ f2 in
    put_first 0 x.year (λ v. interval_of v 0 0 0 0 0 0 0) f1 refl
    ∙ put_first 1 x.month (λ v. interval_of x.year v 0 0 0 0 0 0) f2 refl
    ∙ put_first 2 x.week (λ v. interval_of x.year x.month v 0 0 0 0 0) f3 refl
    ∙ put_first 3 x.day (λ v. interval_of x.year x.month x.week v 0 0 0 0) f4 refl
    ∙ put_first 4 x.hour (λ v. interval_of x.year x.month x.week x.day v 0 0 0) f5 refl
    ∙ put_first 5 x.min (λ v. interval_of x.year x.month x.week x.day x.hour v 0 0) f6 refl
    ∙ put_first 6 x.sec (λ v. interval_of x.year x.month x.week x.day x.hour x.min v 0) f7 refl
    ∙ put_first 7 x.nsec (λ v. interval_of x.year x.month x.week x.day x.hour x.min x.sec v) f8 refl

adjusted :
    (x : Interval) (a : Adjust)
    → ((n : ℕ) → a ≢ other_adjust n)
    → (r : Interval × Bool) × (put_fields
          ((8, adjust_to_dt a) ∷ [])
          (record x { adjust = none_adjust }, false)
        ≡ some r)
      × ((if r.1 then r.0 else record (r.0) { adjust = excess_adjust }) ≡ record x { adjust = a })
unfolding set_field adjust_to_dt dt_to_adjust
adjusted x none_adjust known = ((record x { adjust = none_adjust }, true), refl, refl)
adjusted x excess_adjust known = ((record x { adjust = none_adjust }, false), refl, refl)
adjusted x last_adjust known = ((record x { adjust = last_adjust }, true), refl, refl)
adjusted x (other_adjust n) known = absurd (known n refl)

dt-IsWord : (a : Adjust) → IsWord (adjust_to_dt a)
unfolding adjust_to_dt
dt-IsWord none_adjust = omega arith
dt-IsWord excess_adjust = omega arith
dt-IsWord last_adjust = omega arith
dt-IsWord (other_adjust n) = omega arith

fields-IsField : (x : Interval) → IsInterval x → All IsField (fields x)
unfolding fields
fields-IsField x h = (
  (omega arith, h.year),
  (
    (omega arith, h.month),
    (
      (omega arith, h.week),
      (
        (omega arith, h.day),
        (
          (omega arith, h.hour),
          (
            (omega arith, h.min),
            (
              (omega arith, h.sec),
              ((omega arith, h.nsec), ((omega arith, dt-IsWord x.adjust), tt)),
            ),
          ),
        ),
      ),
    ),
  ),
)

field_num-few : (fs : List (ℕ × ℕ)) → field_num fs ≤ length fs
unfolding field_num
field_num-few [] = omega arith
field_num-few ((typ, v) ∷ fs) = ground (arith, field_num-few fs)

field_num-fields : (x : Interval) → field_num (fields x) ≤ 9
unfolding fields
field_num-fields x = field_num-few (fields x)

-- `decodeInterval` reads back what `encodeInterval` has written, whatever follows it: for every
-- interval of int64 numbers with one of the three adjustments, and a msgpack library that reads
-- back the numbers it writes.
pub encode_interval-decode :
    (m : Msgpack) (x : Interval)
    → IsMsgpack m
    → IsInterval x
    → ((n : ℕ) → x.adjust ≢ other_adjust n)
    → (bs : List ℕ) × (encode_interval m x ≡ some bs)
      × ((rest : List ℕ) → decode_interval m (bs ++ rest) ≡ some (x, rest))
unfolding encode_interval decode_interval
encode_interval-decode m x laws h known =
    let (r, e, back) = adjusted x x.adjust known in
    let (bs, enc, dec) =
      fields-Written m laws (fields x) (zero_interval, false) r (fields-IsField x h)
        (put_fields-fields x ∙ e) in
    let few = field_num-fields x in
    let (ns, en, dn, di) = laws.uint (field_num (fields x)) (omega (arith, few)) in
    let below : ltb (field_num (fields x)) (2 ^ 63) ≡ true = ground (arith, few) in
    (
      ns ++ bs,
      rw (en, enc) refl,
      λ rest.
          rw (append_assoc ns bs rest, dn (bs ++ rest), below, dec rest)
            (ap (λ y. some (y, rest)) back),
    )
