-- ===== src/BoxError/Fields.antt =====
-- box_error.go: that the fields of an error are read back.
use go_tarantool.Common.{
  ℕ, suc, ◌^◌, ◌<◌, ◌≡◌, refl, ap, sym, subst, ◌∙◌, String, false, List, [], ◌∷◌, ◌++◌, Option,
  some, Outcome, returns, if◌then◌else◌, ltb, lt→ltb, length, All, All-append, str_eq, str_eq_iff,
  arith,
}
use mathlib.Core.List.{append-nil, append_assoc}
use go_tarantool.Common.Assoc.{insert}
use go_tarantool.Msgpack.{Codec}
use go_tarantool.Msgpack.Objects.{◌▸◌, map_len, uint, string}
use go_tarantool.Msgpack.Decoder.{
  Decoder, IsDecoder, ◌>>-◌, each, turns, Decodes, Decodes-then, Decodes-map, Decodes-each-done,
  Decodes-each-turn,
}
use go_tarantool.BoxError.{
  key_error_fields, ErrorEntry, write_fields, write_extra, read_field, read_value, read_pair,
}

-- The key does not occur.
abbrev pub Fresh : {V : Type 0} → String → List (String × V) → Type 0
Fresh k fields = All (λ f. str_eq f.0 k ≡ false) fields

-- The keys of a map are distinct.
abbrev pub Distinct : {V : Type 0} → List (String × V) → Type 0
Distinct [] = Unit
Distinct ((k, v) ∷ fields) = Fresh k fields × Distinct fields

str_eq-swap : (a b : String) → str_eq a b ≡ false → str_eq b a ≡ false
str_eq-swap a b h = ground (arith, str_eq_iff a b, str_eq_iff b a)

module _ {V : Type 0} (m : Codec V) (d : Decoder V) where
  -- The library reads the value back.
  abbrev pub Rereads : String × V → Type 0
  Rereads f = Decodes (m.encode (f.1)) d.value (f.1)

  no_done : (fields : List (String × V)) → All (λ f. Fresh {V = V} f.0 []) fields
  no_done [] = tt
  no_done (f ∷ fields) = (tt, no_done fields)

  -- Whether the map of the fields is written.
  abbrev pub extra_count : List (String × V) → ℕ
  extra_count [] = 0
  extra_count (f ∷ fields) = 1

  pub pairs-extra_count :
      (fields : List (String × V))
      → (if ltb 0 (length fields) then 7 else 6)
        ≡ suc (suc (suc (suc (suc (suc (extra_count fields))))))
  pairs-extra_count [] = refl
  pairs-extra_count (f ∷ fields) =
      ap (λ b. if b then 7 else 6) (lt→ltb 0 (length (f ∷ fields)) (omega arith))

  module _ (laws : IsDecoder m d) where
    -- A key, and what is read behind it.
    pub key-Decodes :
        {A : Type 0} (k : ℕ) (v : Option (List ℕ)) (q : ℕ → A → List ℕ → Outcome (A × List ℕ))
        (a b : A)
        → k < 2 ^ 63
        → Decodes v (q k a) b
        → Decodes (uint m k ▸ v) (λ input. d.int input >>- (λ cd. q cd.0 a cd.1)) b
    key-Decodes k v q a b h hv =
        Decodes-then (uint m k) v d.int (λ cd. q cd.0 a cd.1) k b (laws.int_read k h) hv

    pub pair-Decodes :
        (k : ℕ) (v : Option (List ℕ)) (a b : ErrorEntry V)
        → k < 2 ^ 63
        → Decodes v (read_value d k a) b
        → Decodes (uint m k ▸ v) (read_pair d a) b
    unfolding read_pair
    pair-Decodes k v a b h hv = key-Decodes k v (read_value d) a b h hv

    field-Decodes :
        (k : String) (v : V) (fields : List (String × V))
        → Rereads (k, v)
        → Decodes (string m k ▸ m.encode v) (read_field d fields) (insert k v fields)
    unfolding read_field
    field-Decodes k v fields h =
        Decodes-then (string m k) (m.encode v) d.string
          (λ k'. d.value k'.1 >>- (λ v'. returns (insert k'.0 v'.0 fields, v'.1))) k
          (insert k v fields) (laws.string_read k)
          (Decodes-map (m.encode v) d.value (λ v'. insert k v' fields) v h)

    insert-Fresh :
        (k : String) (v : V) (fields : List (String × V))
        → Fresh k fields
        → insert k v fields ≡ fields ++ ((k, v) ∷ [])
    unfolding insert
    insert-Fresh k v [] h = refl
    insert-Fresh k v ((j, w) ∷ fields) (hj, h) =
        ap (λ b. if b then (k, v) ∷ fields else (j, w) ∷ insert k v fields) hj
        ∙ ap (λ l. (j, w) ∷ l) (insert-Fresh k v fields h)

    Fresh-more :
        (k : String) (v : V) (fields done : List (String × V))
        → All (λ f. Fresh f.0 done) fields
        → Fresh k fields
        → All (λ f. Fresh f.0 (done ++ ((k, v) ∷ []))) fields
    Fresh-more k v [] done h hk = tt
    Fresh-more k v ((j, w) ∷ fields) done (h, hs) (hj, hk) = (
      All-append (λ f. str_eq f.0 j ≡ false) done ((k, v) ∷ []) h (str_eq-swap j k hj, tt),
      Fresh-more k v fields done hs hk,
    )

    write_fields-Decodes :
        (fields done : List (String × V))
        → All (λ f. Fresh f.0 done) fields
        → Distinct fields
        → All Rereads fields
        → Decodes
            (write_fields m fields)
            (each (length fields) (read_field d) done)
            (done ++ fields)
    unfolding write_fields
    write_fields-Decodes [] done hf hd hr =
        subst (Decodes (some []) (each 0 (read_field d) done)) (sym (append-nil done))
          (Decodes-each-done (read_field d) done)
    write_fields-Decodes ((k, v) ∷ fields) done (hk, hf) (hkd, hd) (hv, hr) =
        let rest =
          write_fields-Decodes fields (done ++ ((k, v) ∷ [])) (Fresh-more k v fields done hf hkd) hd
            hr in
        Decodes-each-turn (read_field d) (length fields) (string m k ▸ m.encode v)
          (write_fields m fields) done (done ++ ((k, v) ∷ [])) (done ++ ((k, v) ∷ fields))
          (subst (Decodes (string m k ▸ m.encode v) (read_field d done)) (insert-Fresh k v done hk)
            (field-Decodes k v done hv))
          (subst
            (Decodes (write_fields m fields)
              (each (length fields) (read_field d) (done ++ ((k, v) ∷ []))))
            (append_assoc done ((k, v) ∷ []) fields) rest)

    fields-Decodes :
        (e : ErrorEntry V) (fields : List (String × V))
        → length fields < 2 ^ 32
        → Distinct fields
        → All Rereads fields
        → Decodes
            (map_len m (length fields) ▸ write_fields m fields)
            (read_value d key_error_fields e)
            (record e { fields = fields })
    unfolding read_value
    fields-Decodes e fields h hd hr =
        Decodes-map (map_len m (length fields) ▸ write_fields m fields)
          (λ input. d.map_len input >>- (λ l. each (turns l.0) (read_field d) [] l.1))
          (λ r. record e { fields = r }) fields
          (Decodes-then (map_len m (length fields)) (write_fields m fields) d.map_len
            (λ l. each (turns l.0) (read_field d) [] l.1) (some (length fields)) fields
            (laws.map_len_read (length fields) h)
            (write_fields-Decodes fields [] (no_done fields) hd hr))

    pub extra-Decodes :
        (e : ErrorEntry V) (fields : List (String × V))
        → length fields < 2 ^ 32
        → Distinct fields
        → All Rereads fields
        → Decodes
            (write_extra m fields)
            (each (extra_count fields) (read_pair d) (record e { fields = [] }))
            (record e { fields = fields })
    unfolding write_extra
    extra-Decodes e [] h hd hr = Decodes-each-done (read_pair d) (record e { fields = [] })
    extra-Decodes e (f ∷ fields) h hd hr =
        let start = record e { fields = [] } in
        let full = record e { fields = f ∷ fields } in
        Decodes-each-turn (read_pair d) 0
          (uint m key_error_fields
            ▸ (map_len m (length (f ∷ fields)) ▸ write_fields m (f ∷ fields)))
          (some []) start full full
          (pair-Decodes key_error_fields _ start full (omega arith)
            (fields-Decodes start (f ∷ fields) h hd hr))
          (Decodes-each-done (read_pair d) full)
