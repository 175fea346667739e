-- ===== src/Msgpack/Objects.antt =====
-- Sequences of calls of an encoder, and how many msgpack objects they write.
use go_tarantool.Common.{
  ℕ, zero, suc, ◌+◌, ◌*◌, ◌^◌, ◌<◌, ◌≡◌, refl, ap, subst, ◌∙◌, String, Bool, List, [], ◌++◌, Option,
  none, some, ◌>>=◌, arith,
}
use mathlib.Core.List.{append_assoc}
use mathlib.Core.Option.{some_inj}
use go_tarantool.Msgpack.{Codec, skip_times, IsCodec}
use go_tarantool.Msgpack.{Objects}

bind_assoc :
    (o : Option (List ℕ)) (f g h : List ℕ → Option (List ℕ))
    → ((l : List ℕ) → f l ≡ (g l >>= h))
    → (o >>= f) ≡ (o >>= g >>= h)
bind_assoc none f g h e = refl
bind_assoc (some l) f g h e = e l

-- One call behind another; an error ends the writing.
infixr 60 ◌▸◌
abbrev pub ◌▸◌ : Option (List ℕ) → Option (List ℕ) → Option (List ℕ)
none ▸ w = none
some bs ▸ none = none
some bs ▸ some cs = some (bs ++ cs)

module _ {V : Type 0} (m : Codec V) where
  abbrev pub map_len : ℕ → Option (List ℕ)
  map_len n = some (m.encode_map_len n)

  abbrev pub array_len : ℕ → Option (List ℕ)
  array_len n = some (m.encode_array_len n)

  abbrev pub uint : ℕ → Option (List ℕ)
  uint n = some (m.encode_uint n)

  abbrev pub string : String → Option (List ℕ)
  string s = some (m.encode_string s)

  abbrev pub bool : Bool → Option (List ℕ)
  bool b = some (m.encode_bool b)

  -- What was written, if there was no error, are `n` objects.
  abbrev pub Writes : ℕ → Option (List ℕ) → Type 0
  Writes n w = (bs : List ℕ) → w ≡ some bs → Objects m n bs

  skip_times-add :
      (a b : ℕ) (input : List ℕ)
      → skip_times m (a + b) input ≡ (skip_times m a input >>= skip_times m b)
  unfolding skip_times
  skip_times-add zero b input = let e : 0 + b ≡ b = omega arith in ap (λ k. skip_times m k input) e
  skip_times-add (suc a) b input =
      let e : suc a + b ≡ suc (a + b) = omega arith in
      ap (λ k. skip_times m k input) e
      ∙ bind_assoc (m.skip input) (skip_times m (a + b)) (skip_times m a) (skip_times m b)
          (skip_times-add a b)

  pub Objects-append :
      (a b : ℕ) (bs cs : List ℕ) → Objects m a bs → Objects m b cs → Objects m (a + b) (bs ++ cs)
  Objects-append a b bs cs hb hc rest =
      skip_times-add a b (bs ++ cs ++ rest)
      ∙ ap (λ l. skip_times m a l >>= skip_times m b) (append_assoc bs cs rest)
      ∙ ap (λ o. o >>= skip_times m b) (hb (cs ++ rest))
      ∙ hc rest

  pub Writes-then :
      (a b : ℕ) (v w : Option (List ℕ)) → Writes a v → Writes b w → Writes (a + b) (v ▸ w)
  Writes-then a b none w hv hw bs e = absurd (cc)
  Writes-then a b (some v) none hv hw bs e = absurd (cc)
  Writes-then a b (some v) (some w) hv hw bs e =
      subst (Objects m (a + b)) (some_inj.0 e) (Objects-append a b v w (hv v refl) (hw w refl))

  Writes-some : (n : ℕ) (bs : List ℕ) → Objects m n bs → Writes n (some bs)
  Writes-some n bs h cs e = subst (Objects m n) (some_inj.0 e) h

  pub Writes-head :
      (n k : ℕ) (head : List ℕ) (w : Option (List ℕ))
      → ((bs : List ℕ) → Objects m k bs → Objects m 1 (head ++ bs))
      → Writes k w
      → Writes 1 (some head ▸ w)
  Writes-head n k head none h hw bs e = absurd (cc)
  Writes-head n k head (some w) h hw bs e = subst (Objects m 1) (some_inj.0 e) (h w (hw w refl))

  module _ (laws : IsCodec m) where
    pub Writes-uint : (n : ℕ) → n < 2 ^ 64 → Writes 1 (uint n)
    Writes-uint n h = Writes-some 1 _ (laws.uint_object n h)

    pub Writes-string : (s : String) → Writes 1 (string s)
    Writes-string s = Writes-some 1 _ (laws.string_object s)

    pub Writes-bool : (b : Bool) → Writes 1 (bool b)
    Writes-bool b = Writes-some 1 _ (laws.bool_object b)

    pub Writes-value : (v : V) → Writes 1 (m.encode v)
    Writes-value v bs e = laws.value_object v bs e

    pub Writes-map :
        (n : ℕ) (w : Option (List ℕ)) → n < 2 ^ 32 → Writes (2 * n) w → Writes 1 (map_len n ▸ w)
    Writes-map n w h = Writes-head n (2 * n) (m.encode_map_len n) w (λ bs. laws.map_object n bs h)

    pub Writes-array :
        (n : ℕ) (w : Option (List ℕ)) → n < 2 ^ 32 → Writes n w → Writes 1 (array_len n ▸ w)
    Writes-array n w h = Writes-head n n (m.encode_array_len n) w (λ bs. laws.array_object n bs h)

    -- A pair of a map with a numeric key.
    pub Writes-key :
        (k n : ℕ) (w : Option (List ℕ)) → k < 2 ^ 64 → Writes n w → Writes (1 + n) (uint k ▸ w)
    Writes-key k n w h hw = Writes-then 1 n (uint k) w (Writes-uint k h) hw

    pub Writes-nothing : Writes 0 (some [])
    Writes-nothing = Writes-some 0 [] (λ rest. unfold skip_times in refl)
