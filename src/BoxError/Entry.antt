-- ===== src/BoxError/Entry.antt =====
-- box_error.go: that an error of a stack is read back.
use go_tarantool.Common.{
  ℕ, suc, ◌^◌, ◌<◌, ◌≡◌, refl, sym, subst, ◌∙◌, String, Bool, true, false, List, ◌++◌, Option, some,
  returns, if◌then◌else◌, ltb, length, All, arith,
}
use go_tarantool.Msgpack.{Codec}
use go_tarantool.Msgpack.Objects.{◌▸◌, map_len, uint, string}
use go_tarantool.Msgpack.Decoder.{
  Decoder, IsDecoder, ◌>>-◌, each, turns, Decodes, Decodes-then, Decodes-map, Decodes-each-turn,
}
use go_tarantool.BoxError.{
  key_error_type, key_error_file, key_error_line, key_error_message, key_error_errno,
  key_error_errcode, ErrorEntry, empty_entry, uint64, write_extra, encode_entry, read_value,
  read_pair, read_entry,
}
use go_tarantool.BoxError.Fields.{
  Distinct, Rereads, extra_count, pairs-extra_count, pair-Decodes, extra-Decodes,
}

module _ {V : Type 0} (m : Codec V) (d : Decoder V) where
  pub record IsEntry (e : ErrorEntry V) : Type 0 where
    pub line_bound : e.line < 2 ^ 64
    pub errno_bound : e.errno < 2 ^ 64
    pub code_bound : e.code < 2 ^ 64
    pub fields_bound : length e.fields < 2 ^ 32
    pub fields_distinct : Distinct e.fields
    pub fields_reread : All (Rereads m d) e.fields

  seven : (b : Bool) → (if b then 7 else 6) < 2 ^ 32
  seven true = omega arith
  seven false = omega arith

  -- The pairs of an error.
  abbrev chain_of : ErrorEntry V → Option (List ℕ)
  chain_of e =
      (uint m key_error_type ▸ string m e.type)
      ▸ (uint m key_error_file ▸ string m e.file)
      ▸ (uint m key_error_line ▸ uint64 m e.line)
      ▸ (uint m key_error_message ▸ string m e.msg)
      ▸ (uint m key_error_errno ▸ uint64 m e.errno)
      ▸ (uint m key_error_errcode ▸ uint64 m e.code)
      ▸ write_extra m e.fields

  module _ (laws : IsDecoder m d) where
    text-Decodes :
        (k : ℕ) (t : String) (a : ErrorEntry V) (f : String → ErrorEntry V)
        → k < 2 ^ 63
        → ((input : List ℕ)
            → read_value d k a input ≡ (d.string input >>- (λ r. returns (f r.0, r.1))))
        → Decodes (uint m k ▸ string m t) (read_pair d a) (f t)
    text-Decodes k t a f h hk = pair-Decodes m d laws k (string m t) a (f t) h (λ bs rest w.
        hk (bs ++ rest) ∙ Decodes-map (string m t) d.string f t (laws.string_read t) bs rest w)

    number-Decodes :
        (k n : ℕ) (a : ErrorEntry V) (f : ℕ → ErrorEntry V)
        → k < 2 ^ 63
        → n < 2 ^ 64
        → ((input : List ℕ)
            → read_value d k a input ≡ (d.uint input >>- (λ r. returns (f r.0, r.1))))
        → Decodes (uint m k ▸ uint64 m n) (read_pair d a) (f n)
    number-Decodes k n a f h hn hk = pair-Decodes m d laws k (uint64 m n) a (f n) h (λ bs rest w.
        hk (bs ++ rest) ∙ Decodes-map (uint64 m n) d.uint f n (laws.uint_read n hn) bs rest w)

    chain_of-Decodes :
        (e : ErrorEntry V)
        → IsEntry e
        → Decodes
            (chain_of e)
            (each
              (suc (suc (suc (suc (suc (suc (extra_count m d e.fields)))))))
              (read_pair d)
              empty_entry)
            e
    unfolding read_value
    chain_of-Decodes e h =
        let e0 : ErrorEntry V = empty_entry in
        let e1 : ErrorEntry V = record empty_entry { type = e.type } in
        let e2 : ErrorEntry V = record empty_entry { type = e.type; file = e.file } in
        let e3 : ErrorEntry V = record empty_entry {
          type = e.type;
          file = e.file;
          line = e.line;
        } in
        let e4 : ErrorEntry V = record empty_entry {
          type = e.type;
          file = e.file;
          line = e.line;
          msg = e.msg;
        } in
        let e5 : ErrorEntry V = record empty_entry {
          type = e.type;
          file = e.file;
          line = e.line;
          msg = e.msg;
          errno = e.errno;
        } in
        let e6 : ErrorEntry V = record empty_entry {
          type = e.type;
          file = e.file;
          line = e.line;
          msg = e.msg;
          errno = e.errno;
          code = e.code;
        } in
        (Decodes-each-turn (read_pair d) (suc (suc (suc (suc (suc (extra_count m d e.fields)))))) _
          _ e0 e1 e
          (text-Decodes key_error_type e.type e0 (λ v. record e0 { type = v }) (omega arith)
            (λ input. refl))
          (Decodes-each-turn (read_pair d) (suc (suc (suc (suc (extra_count m d e.fields))))) _ _ e1
            e2 e
            (text-Decodes key_error_file e.file e1 (λ v. record e1 { file = v }) (omega arith)
              (λ input. refl))
            (Decodes-each-turn (read_pair d) (suc (suc (suc (extra_count m d e.fields)))) _ _ e2 e3
              e
              (number-Decodes key_error_line e.line e2 (λ v. record e2 { line = v }) (omega arith)
                h.line_bound (λ input. refl))
              (Decodes-each-turn (read_pair d) (suc (suc (extra_count m d e.fields))) _ _ e3 e4 e
                (text-Decodes key_error_message e.msg e3 (λ v. record e3 { msg = v }) (omega arith)
                  (λ input. refl))
                (Decodes-each-turn (read_pair d) (suc (extra_count m d e.fields)) _ _ e4 e5 e
                  (number-Decodes key_error_errno e.errno e4 (λ v. record e4 { errno = v })
                    (omega arith) h.errno_bound (λ input. refl))
                  (Decodes-each-turn (read_pair d) (extra_count m d e.fields) _ _ e5 e6 e
                    (number-Decodes key_error_errcode e.code e5 (λ v. record e5 { code = v })
                      (omega arith) h.code_bound (λ input. refl))
                    (extra-Decodes m d laws e e.fields h.fields_bound h.fields_distinct
                      h.fields_reread)))))))

    pub encode_entry-Decodes :
        (e : ErrorEntry V) → IsEntry e → Decodes (encode_entry m e) (read_entry d) e
    unfolding encode_entry read_entry
    encode_entry-Decodes e h =
        let n = if ltb 0 (length e.fields) then 7 else 6 in
        Decodes-then (map_len m n) (chain_of e) d.map_len
          (λ l. each (turns l.0) (read_pair d) empty_entry l.1) (some n) e
          (laws.map_len_read n (seven (ltb 0 (length e.fields))))
          (subst (λ k. Decodes (chain_of e) (each k (read_pair d) empty_entry) e)
            (sym (pairs-extra_count m d e.fields)) (chain_of-Decodes e h))
