-- ===== src/Response/Header.antt =====
-- response.go: what the decoder makes of a header.
use go_tarantool.Common.{
  ℕ, ◌%◌, ◌^◌, ◌<◌, ◌≡◌, refl, ap, sym, ◌∙◌, true, false, List, [], ◌∷◌, ◌++◌, Option, some,
  returns, if◌then◌else◌, ◌==◌, leb, length, All,
}
use mathlib.Core.Option.{some_inj}
use go_tarantool.Iproto.{key_sync, key_code}
use go_tarantool.Msgpack.{Codec}
use go_tarantool.Msgpack.Objects.{◌▸◌, map_len}
use go_tarantool.Msgpack.Decoder.{
  Decoder, IsDecoder, ◌>>-◌, each, turns, Decodes, Decodes-then, Decodes-map, Decodes-each-done,
  Decodes-each-turn,
}
use go_tarantool.Response.{Response, small_int, header_value, header_pair, decode_header}

-- An entry of a header: the request's id, the response's code, or a key that the client does not know
-- with the bytes behind it.
pub data HeaderItem : Type 0 where
  sync : ℕ → HeaderItem
  status : ℕ → HeaderItem
  other : ℕ → List ℕ → HeaderItem

module _ {V : Type 0} (m : Codec V) (d : Decoder V) where
  abbrev pub write_item : HeaderItem → Option (List ℕ)
  write_item (sync n) = some (key_sync ∷ []) ▸ some (m.encode_uint64 n)
  write_item (status n) = some (key_code ∷ []) ▸ some (m.encode_uint64 n)
  write_item (other k object) = some (k ∷ []) ▸ some object

  abbrev pub write_items : List HeaderItem → Option (List ℕ)
  write_items [] = some []
  write_items (i ∷ items) = write_item i ▸ write_items items

  -- The last entry of a key counts; ids and codes are 32 bits wide.
  abbrev pub apply_items : List HeaderItem → Response V → Response V
  apply_items [] resp = resp
  apply_items (sync n ∷ items) resp = apply_items items (record resp { request_id = n % 2 ^ 32 })
  apply_items (status n ∷ items) resp = apply_items items (record resp { code = n % 2 ^ 32 })
  apply_items (other k object ∷ items) resp = apply_items items resp

  abbrev pub IsItem : HeaderItem → Type 0
  IsItem (sync n) = n < 2 ^ 64
  IsItem (status n) = n < 2 ^ 64
  IsItem (other k object) =
      (leb k 127 ≡ true)
      × ((k == key_sync) ≡ false)
      × ((k == key_code) ≡ false)
      × ((rest : List ℕ) → d.skip (object ++ rest) ≡ returns rest)

  module _ (laws : IsDecoder m d) where
    small_int-Decodes : (k : ℕ) → leb k 127 ≡ true → Decodes (some (k ∷ [])) (small_int d) k
    unfolding small_int
    small_int-Decodes k h bs rest e =
        ap (λ l. small_int d (l ++ rest)) (sym (some_inj.0 e))
        ∙ ap (λ b. if b then returns (k, rest) else d.int (k ∷ rest)) h

    header-Decodes :
        (k : ℕ) (v : Option (List ℕ)) (a b : Response V)
        → leb k 127 ≡ true
        → Decodes v (header_value d k a) b
        → Decodes (some (k ∷ []) ▸ v) (header_pair d a) b
    unfolding header_pair
    header-Decodes k v a b h hv =
        Decodes-then (some (k ∷ [])) v (small_int d) (λ cd. header_value d cd.0 a cd.1) k b
          (small_int-Decodes k h) hv

    sync-Decodes :
        (n : ℕ) (resp : Response V)
        → n < 2 ^ 64
        → Decodes
            (write_item (sync n))
            (header_pair d resp)
            (record resp { request_id = n % 2 ^ 32 })
    unfolding header_value
    sync-Decodes n resp h = header-Decodes key_sync _ resp _ refl (
        Decodes-map (some (m.encode_uint64 n)) d.uint (λ r. record resp { request_id = r % 2 ^ 32 })
          n (laws.uint_read n h))

    status-Decodes :
        (n : ℕ) (resp : Response V)
        → n < 2 ^ 64
        → Decodes (write_item (status n)) (header_pair d resp) (record resp { code = n % 2 ^ 32 })
    unfolding header_value
    status-Decodes n resp h = header-Decodes key_code _ resp _ refl (
        Decodes-map (some (m.encode_uint64 n)) d.uint (λ r. record resp { code = r % 2 ^ 32 }) n
          (laws.uint_read n h))

    other-Decodes :
        (k : ℕ) (object : List ℕ) (resp : Response V)
        → IsItem (other k object)
        → Decodes (write_item (other k object)) (header_pair d resp) resp
    unfolding header_value
    other-Decodes k object resp (hk, hs, hc, hskip) =
        header-Decodes k (some object) resp resp hk (λ bs rest e.
          ap
            (λ b.
              if b
              then d.uint (bs ++ rest)
                >>- (λ r. returns (record resp { request_id = r.0 % 2 ^ 32 }, r.1))
              else if k == key_code
              then d.uint (bs ++ rest) >>- (λ r. returns (record resp { code = r.0 % 2 ^ 32 }, r.1))
              else d.skip (bs ++ rest) >>- (λ left. returns (resp, left)))
            hs
          ∙ ap
              (λ b.
                if b
                then d.uint (bs ++ rest)
                  >>- (λ r. returns (record resp { code = r.0 % 2 ^ 32 }, r.1))
                else d.skip (bs ++ rest) >>- (λ left. returns (resp, left)))
              hc
          ∙ ap (λ l. d.skip (l ++ rest) >>- (λ left. returns (resp, left))) (sym (some_inj.0 e))
          ∙ ap (λ o. o >>- (λ left. returns (resp, left))) (hskip rest))

    items-Decodes :
        (items : List HeaderItem) (resp : Response V)
        → All IsItem items
        → Decodes
            (write_items items)
            (each (length items) (header_pair d) resp)
            (apply_items items resp)
    items-Decodes [] resp h = Decodes-each-done (header_pair d) resp
    items-Decodes (sync n ∷ items) resp (h, hs) =
        Decodes-each-turn (header_pair d) (length items) (write_item (sync n)) (write_items items)
          resp _ _ (sync-Decodes n resp h) (items-Decodes items _ hs)
    items-Decodes (status n ∷ items) resp (h, hs) =
        Decodes-each-turn (header_pair d) (length items) (write_item (status n)) (write_items items)
          resp _ _ (status-Decodes n resp h) (items-Decodes items _ hs)
    items-Decodes (other k object ∷ items) resp (h, hs) =
        Decodes-each-turn (header_pair d) (length items) (write_item (other k object))
          (write_items items) resp _ _ (other-Decodes k object resp h) (items-Decodes items _ hs)

    -- A header with any entries in any order is decoded to the id and the code that its last entries of these
    -- keys have, cut to 32 bits, and to what the response had where there is none; other keys, below 128,
    -- are skipped with their objects, and the input behind the header is left.
    pub decode_header-apply_items :
        (items : List HeaderItem) (resp : Response V) (bs rest : List ℕ)
        → All IsItem items
        → length items < 2 ^ 32
        → (map_len m (length items) ▸ write_items items) ≡ some bs
        → decode_header d resp (bs ++ rest) ≡ returns (apply_items items resp, rest)
    unfolding decode_header
    decode_header-apply_items items resp bs rest h hl e =
        Decodes-then (map_len m (length items)) (write_items items) d.map_len
          (λ l. each (turns l.0) (header_pair d) resp l.1) (some (length items))
          (apply_items items resp) (laws.map_len_read (length items) hl)
          (items-Decodes items resp h) bs rest e
