-- ===== src/Frame/RoundTrip.antt =====
-- connection.go: `read` on what `pack` has appended.
use go_tarantool.Common.{
  ℕ, ◌+◌, ◌-◌, ◌*◌, ◌/◌, ◌%◌, ◌^◌, ◌<◌, ◌≡◌, refl, ap, ◌∙◌, false, List, [], ◌∷◌, ◌++◌, some, ◌==◌,
  length, length-append, set, take, drop, arith,
}
use go_tarantool.Frame.{uint32_code, put_uint32, header, set_length, pack, read_full, read}

set-append : (xs ys : List ℕ) (i v : ℕ) → set (xs ++ ys) (length xs + i) v ≡ xs ++ set ys i v
set-append [] ys i v = let none_before : 0 + i ≡ i = omega arith in ap (λ k. set ys k v) none_before
set-append (x ∷ xs) ys i v = ground (arith, set-append xs ys i v)

set_length-append :
    (h c : List ℕ) (l : ℕ)
    → set_length (length h) l (h ++ (uint32_code ∷ 0 ∷ 0 ∷ 0 ∷ 0 ∷ c))
      ≡ h ++ (uint32_code ∷ put_uint32 l ++ c)
unfolding set_length
set_length-append h c l =
    let b1 = l / 2 ^ 24 % 256 in
    let b2 = l / 2 ^ 16 % 256 in
    let b3 = l / 2 ^ 8 % 256 in
    rw
      (
        set-append h (uint32_code ∷ 0 ∷ 0 ∷ 0 ∷ 0 ∷ c) 1 b1,
        set-append h (uint32_code ∷ b1 ∷ 0 ∷ 0 ∷ 0 ∷ c) 2 b2,
        set-append h (uint32_code ∷ b1 ∷ b2 ∷ 0 ∷ 0 ∷ c) 3 b3,
        set-append h (uint32_code ∷ b1 ∷ b2 ∷ b3 ∷ 0 ∷ c) 4 (l % 256),
      )
      refl

take-append : (xs ys : List ℕ) → take (length xs) (xs ++ ys) ≡ xs
take-append [] ys = refl
take-append (x ∷ xs) ys = ap (λ l. x ∷ l) (take-append xs ys)

drop-append : (xs ys : List ℕ) → drop (length xs) (xs ++ ys) ≡ ys
drop-append [] ys = refl
drop-append (x ∷ xs) ys = drop-append xs ys

read_full-append : (xs ys : List ℕ) → read_full (length xs) (xs ++ ys) ≡ some (xs, ys)
unfolding read_full
read_full-append xs ys = ground (arith, length-append xs ys, take-append xs ys, drop-append xs ys)

read-frame :
    (c rest : List ℕ)
    → 0 < length c
    → length c < 2 ^ 32
    → read (uint32_code ∷ put_uint32 (length c) ++ c ++ rest) ≡ some (c, rest)
unfolding read
read-frame c rest some_byte h =
    let n = length c in
    let whole : n / 2 ^ 24 % 256 * 2 ^ 24
          + n / 2 ^ 16 % 256 * 2 ^ 16
          + n / 2 ^ 8 % 256 * 2 ^ 8
          + n % 256
        ≡ n =
      omega (arith, h) in
    let full : (n == 0) ≡ false = ground (arith, some_byte) in
    rw (whole, full) (read_full-append c rest)

header-nonempty :
    (code reqid stream_id : ℕ) (body : List ℕ) → 0 < length (header code reqid stream_id ++ body)
unfolding header
header-nonempty code reqid stream_id body = omega arith

set_length-content :
    (h c : List ℕ)
    → length c < 2 ^ 32
    → let h' = h ++ (uint32_code ∷ 0 ∷ 0 ∷ 0 ∷ 0 ∷ c) in
      set_length (length h) ((length h' - 5 - length h) % 2 ^ 32) h'
      ≡ h ++ (uint32_code ∷ put_uint32 (length c) ++ c)
set_length-content h c short =
    let h' : List ℕ = h ++ (uint32_code ∷ 0 ∷ 0 ∷ 0 ∷ 0 ∷ c) in
    let l : (length h' - 5 - length h) % 2 ^ 32 ≡ length c =
      omega (arith, length-append h (uint32_code ∷ 0 ∷ 0 ∷ 0 ∷ 0 ∷ c), short) in
    ap (λ n. set_length (length h) n h') l ∙ set_length-append h c (length c)

-- `pack` of a request whose body is written appends one frame to the buffer and leaves the bytes
-- before it alone; `read` takes exactly that frame's content, the header and the body, and stops at
-- its end, as long as the content is shorter than 2 ^ 32 bytes.
pub pack-read :
    (h body rest : List ℕ) (code reqid stream_id : ℕ)
    → length (header code reqid stream_id ++ body) < 2 ^ 32
    → (frame : List ℕ) × (pack h code reqid stream_id (some body) ≡ some (h ++ frame))
      × (read (frame ++ rest) ≡ some (header code reqid stream_id ++ body, rest))
unfolding pack
pack-read h body rest code reqid stream_id short =
    let c = header code reqid stream_id ++ body in
    (
      uint32_code ∷ put_uint32 (length c) ++ c,
      ap some (set_length-content h c short),
      read-frame c rest (header-nonempty code reqid stream_id body) short,
    )
