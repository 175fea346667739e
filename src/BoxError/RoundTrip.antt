-- ===== src/BoxError/RoundTrip.antt =====
-- box_error.go: that the decoder reads back what the encoder writes.
use go_tarantool.Common.{
  ℕ, suc, ◌+◌, ◌^◌, ◌<◌, ◌≡◌, refl, ap, subst, ◌∙◌, List, [], ◌∷◌, ◌++◌, some, returns, arith,
}
use mathlib.Core.List.{append_assoc}
use go_tarantool.Msgpack.{Codec}
use go_tarantool.Msgpack.Objects.{◌▸◌, map_len, array_len, uint}
use go_tarantool.Msgpack.Decoder.{
  Decoder, IsDecoder, ◌>>-◌, each, turns, Decodes, Decodes-then, Decodes-map, Decodes-each-done,
  Decodes-each-turn,
}
use go_tarantool.BoxError.{
  key_error_stack, ErrorEntry, BoxError, only, above, depth, link, encode_entry, encode_stack,
  encode_box_error, read_entry, read_next_entry, read_entries, read_stack_value, read_stack_pair,
  decode_box_error,
}
use go_tarantool.BoxError.Fields.{key-Decodes}
use go_tarantool.BoxError.Entry.{IsEntry, encode_entry-Decodes}

module _ {V : Type 0} (m : Codec V) (d : Decoder V) where
  abbrev pub IsBoxError : BoxError V → Type 0
  IsBoxError (only e) = IsEntry m d e
  IsBoxError (above e prev) = IsEntry m d e × IsBoxError prev

  abbrev entries_of : BoxError V → List (ErrorEntry V)
  entries_of (only e) = e ∷ []
  entries_of (above e prev) = e ∷ entries_of prev

  module _ (laws : IsDecoder m d) where
    next_entry-Decodes :
        (e : ErrorEntry V) (entries : List (ErrorEntry V))
        → IsEntry m d e
        → Decodes (encode_entry m e) (read_next_entry d entries) (entries ++ (e ∷ []))
    unfolding read_next_entry
    next_entry-Decodes e entries h =
        Decodes-map (encode_entry m e) (read_entry d) (λ r. entries ++ (r ∷ [])) e
          (encode_entry-Decodes m d laws e h)

    encode_stack-Decodes :
        (e : BoxError V) (entries : List (ErrorEntry V))
        → IsBoxError e
        → Decodes
            (encode_stack m e)
            (each (depth e) (read_next_entry d) entries)
            (entries ++ entries_of e)
    unfolding encode_stack depth
    encode_stack-Decodes (only e) entries h =
        Decodes-each-turn (read_next_entry d) 0 (encode_entry m e) (some []) entries
          (entries ++ (e ∷ [])) (entries ++ (e ∷ [])) (next_entry-Decodes e entries h)
          (Decodes-each-done (read_next_entry d) _)
    encode_stack-Decodes (above e prev) entries (h, hp) =
        let n : suc (depth prev) ≡ depth prev + 1 = omega arith in
        subst
          (λ k.
            Decodes (encode_entry m e ▸ encode_stack m prev) (each k (read_next_entry d) entries)
              (entries ++ (e ∷ entries_of prev)))
          n
          (Decodes-each-turn (read_next_entry d) (depth prev) (encode_entry m e)
            (encode_stack m prev) entries (entries ++ (e ∷ [])) (entries ++ (e ∷ entries_of prev))
            (next_entry-Decodes e entries h)
            (subst
              (Decodes (encode_stack m prev)
                (each (depth prev) (read_next_entry d) (entries ++ (e ∷ []))))
              (append_assoc entries (e ∷ []) (entries_of prev))
              (encode_stack-Decodes prev (entries ++ (e ∷ [])) hp)))

    link-cons :
        (e : ErrorEntry V) (entries : List (ErrorEntry V)) (prev : BoxError V)
        → link entries ≡ returns prev
        → link (e ∷ entries) ≡ returns (above e prev)
    unfolding link
    link-cons e [] prev h = absurd (cc)
    link-cons e (f ∷ entries) prev h = ap (λ o. o >>- (λ p. returns (above e p))) h

    link-entries_of : (e : BoxError V) → link (entries_of e) ≡ returns e
    unfolding link
    link-entries_of (only e) = refl
    link-entries_of (above e prev) = link-cons e (entries_of prev) prev (link-entries_of prev)

    stack-Decodes :
        (e : BoxError V)
        → IsBoxError e
        → depth e < 2 ^ 32
        → Decodes
            (uint m key_error_stack ▸ (array_len m (depth e) ▸ encode_stack m e))
            (read_stack_pair d [])
            (entries_of e)
    unfolding read_stack_pair read_stack_value
    stack-Decodes e h hd =
        key-Decodes m d laws key_error_stack (array_len m (depth e) ▸ encode_stack m e)
          (read_stack_value d) [] (entries_of e) (omega arith)
          (Decodes-then (array_len m (depth e)) (encode_stack m e) d.array_len (read_entries d)
            (some (depth e)) (entries_of e) (laws.array_len_read (depth e) hd)
            (encode_stack-Decodes e [] h))

    -- A stack of errors that was encoded without an error is decoded to the same stack, whatever follows its
    -- bytes. The numbers fit 64 bits, the lengths 32 bits, the keys of the fields are distinct and the
    -- library reads the fields' values back.
    pub encode_box_error-decode :
        (e : BoxError V) (bs rest : List ℕ)
        → IsBoxError e
        → depth e < 2 ^ 32
        → encode_box_error m (some e) ≡ some bs
        → decode_box_error d (bs ++ rest) ≡ returns (e, rest)
    unfolding encode_box_error decode_box_error
    encode_box_error-decode e bs rest h hd w =
        let pair = uint m key_error_stack ▸ (array_len m (depth e) ▸ encode_stack m e) in
        let one =
          Decodes-each-turn (read_stack_pair d) 0 pair (some []) [] (entries_of e) (entries_of e)
            (stack-Decodes e h hd) (Decodes-each-done (read_stack_pair d) (entries_of e)) in
        let read =
          Decodes-then (map_len m 1) (pair ▸ some []) d.map_len
            (λ l. each (turns l.0) (read_stack_pair d) [] l.1) (some 1) (entries_of e)
            (laws.map_len_read 1 (omega arith)) one in
        ap (λ o. o >>- (λ r. link r.0 >>- (λ b. returns (b, r.1)))) (read bs rest w)
        ∙ ap (λ o. o >>- (λ b. returns (b, rest))) (link-entries_of e)
