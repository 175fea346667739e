-- ===== src/Crud/Pairs.antt =====
-- crud/options.go, count.go, get.go, select.go: the map that the options' encoder writes.
use go_tarantool.Common.{
  ℕ, ◌+◌, ◌*◌, ◌^◌, ◌<◌, ◌≡◌, refl, ap, sym, subst, ◌∙◌, String, List, [], ◌∷◌, ◌++◌, Option, none,
  some, if◌then◌else◌, ltb, lt→ltb, length, All, arith,
}
use mathlib.Core.List.{append-nil, append_assoc}
use mathlib.Core.Option.{some_inj}
use go_tarantool.Msgpack.{Codec, IsCodec}
use go_tarantool.Msgpack.Objects.{
  ◌▸◌, map_len, string, Writes, Writes-then, Writes-string, Writes-value, Writes-map,
  Writes-nothing,
}
use go_tarantool.Crud.Values.{Structs}
use go_tarantool.Crud.Options.{count_given, dropped, write_given, encode_options}

module _ {V : Type 0} where
  -- What is given, with its name.
  abbrev pub given_pairs : List (String × Option V) → List (String × V)
  given_pairs [] = []
  given_pairs ((name, none) ∷ named) = given_pairs named
  given_pairs ((name, some v) ∷ named) = (name, v) ∷ given_pairs named

  abbrev pub all_names : List (String × Option V) → List String
  all_names [] = []
  all_names ((name, slot) ∷ named) = name ∷ all_names named

  abbrev pub all_slots : List (String × Option V) → List (Option V)
  all_slots [] = []
  all_slots ((name, slot) ∷ named) = slot ∷ all_slots named

module _ {V : Type 0} (m : Codec V) where
  -- The library can encode the value.
  abbrev pub Encodes : V → Type 0
  Encodes v = (bs : List ℕ) × (m.encode v ≡ some bs)

  abbrev pub GivenEncodes : Option V → Type 0
  GivenEncodes none = Unit
  GivenEncodes (some v) = Encodes v

  abbrev pub pairs_of : List (String × V) → Option (List ℕ)
  pairs_of [] = some []
  pairs_of ((name, v) ∷ pairs) = string m name ▸ m.encode v ▸ pairs_of pairs

  -- A msgpack map with these keys and values; an error of the encoding is one of the whole.
  abbrev pub encode_pairs : List (String × V) → Option (List ℕ)
  encode_pairs pairs = map_len m (length pairs) ▸ pairs_of pairs

  pairs_of-Writes :
      (laws : IsCodec m) (pairs : List (String × V)) → Writes m (2 * length pairs) (pairs_of pairs)
  pairs_of-Writes laws [] = Writes-nothing m laws
  pairs_of-Writes laws ((name, v) ∷ pairs) =
      let e : 1 + (1 + 2 * length pairs) ≡ 2 * length ((name, v) ∷ pairs) = omega arith in
      subst (λ n. Writes m n (string m name ▸ m.encode v ▸ pairs_of pairs)) e
        (Writes-then m 1 _ (string m name) _ (Writes-string m laws name)
          (Writes-then m 1 _ (m.encode v) _ (Writes-value m laws v) (pairs_of-Writes laws pairs)))

  pub encode_pairs-Writes :
      (laws : IsCodec m) (pairs : List (String × V))
      → length pairs < 2 ^ 32
      → Writes m 1 (encode_pairs pairs)
  encode_pairs-Writes laws pairs h =
      Writes-map m laws (length pairs) (pairs_of pairs) h (pairs_of-Writes laws pairs)

  pair-step :
      (n part w bs : List ℕ) (o p : Option (List ℕ))
      → o ≡ some bs
      → some w ≡ p
      → some (n ++ dropped part o ++ w) ≡ (some n ▸ o ▸ p)
  pair-step n part w bs none p e f = absurd (cc)
  pair-step n part w bs (some b) none e f = absurd (cc)
  pair-step n part w bs (some b) (some x) e f =
      ap some (append_assoc n b w) ∙ ap (λ l. some (n ++ (b ++ l))) (some_inj.0 f)

  head-step :
      (w : List ℕ) (pairs : List (String × V)) (p : Option (List ℕ))
      → some w ≡ p
      → (pairs ≡ [] → p ≡ some [])
      → (if ltb 0 (length pairs)
          then some (m.encode_map_len (length pairs) ++ w)
          else some (m.encode_map_len (length pairs)))
        ≡ (map_len m (length pairs) ▸ p)
  head-step w [] none f g = absurd (cc)
  head-step w [] (some x) f g =
      ap some (sym (append-nil (m.encode_map_len 0)))
      ∙ ap (λ l. some (m.encode_map_len 0 ++ l)) (sym (some_inj.0 (g refl)))
  head-step w (pair ∷ pairs) none f g = absurd (cc)
  head-step w (pair ∷ pairs) (some x) f g =
      ap
        (λ b.
          if b
          then some (m.encode_map_len (length (pair ∷ pairs)) ++ w)
          else some (m.encode_map_len (length (pair ∷ pairs))))
        (lt→ltb 0 (length (pair ∷ pairs)) (omega arith))
      ∙ ap (λ l. some (m.encode_map_len (length (pair ∷ pairs)) ++ l)) (some_inj.0 f)

  module _ (s : Structs V) where
    count_given-length :
        (named : List (String × Option V))
        → count_given (all_slots named) ≡ length (given_pairs named)
    unfolding count_given
    count_given-length [] = refl
    count_given-length ((name, none) ∷ named) = count_given-length named
    count_given-length ((name, some v) ∷ named) = omega (arith, count_given-length named)

    write_given-pairs_of :
        (named : List (String × Option V))
        → All GivenEncodes (all_slots named)
        → some (write_given m s (all_names named) (all_slots named)) ≡ pairs_of (given_pairs named)
    unfolding write_given
    write_given-pairs_of [] h = refl
    write_given-pairs_of ((name, none) ∷ named) (h, hs) = write_given-pairs_of named hs
    write_given-pairs_of ((name, some v) ∷ named) ((bs, e), hs) =
        pair-step (m.encode_string name) (s.partial v) _ bs (m.encode v) _ e
          (write_given-pairs_of named hs)

    -- The loop writes the map of the given options.
    pub encode_options-pairs :
        (named : List (String × Option V))
        → All GivenEncodes (all_slots named)
        → encode_options m s (all_names named) (all_slots named) ≡ encode_pairs (given_pairs named)
    unfolding encode_options
    encode_options-pairs named h =
        ap
          (λ n.
            if ltb 0 n
            then some (m.encode_map_len n ++ write_given m s (all_names named) (all_slots named))
            else some (m.encode_map_len n))
          (count_given-length named)
        ∙ head-step _ (given_pairs named) (pairs_of (given_pairs named))
            (write_given-pairs_of named h) (λ e. ap pairs_of e)
