-- ===== src/SmallBuf.antt =====
-- smallbuf.go: the buffer that a decoder reads from. A reader's position never passes the end of its
-- bytes, so the differences of lengths are what they are in the source.
pub mod Reading
mod Tests
use go_tarantool.Common.{
  ℕ, ◌+◌, ◌-◌, Bool, ◌&&◌, List, [], ◌∷◌, Option, none, some, ltb, ◌==◌, if◌then◌else◌, length,
  get_elem?, take, drop,
}

pub record SmallBuf : Type 0 where
  pub b : List ℕ
  pub p : ℕ

-- `Read` into a slice of `n` bytes: what it copies, or the error `io.EOF`.
unfoldable pub read : ℕ → SmallBuf → Option (List ℕ) × SmallBuf
read n s =
    let left = length s.b - s.p in
    let l = if ltb n left then n else left in
    if left == 0 && ltb 0 n
    then (none, s)
    else (some (take l (drop s.p s.b)), record s { p = s.p + l })

unfoldable pub read_byte : SmallBuf → Option ℕ × SmallBuf
read_byte s = if s.p == length s.b then (none, s) else (get_elem? s.b s.p, record s { p = s.p + 1 })

unfoldable pub unread_byte : SmallBuf → Option SmallBuf
unread_byte s = if s.p == 0 then none else some (record s { p = s.p - 1 })

unfoldable pub len : SmallBuf → ℕ
len s = length s.b - s.p

unfoldable pub bytes : SmallBuf → List ℕ
bytes s = if ltb s.p (length s.b) then drop s.p s.b else []

unfoldable pub offset : SmallBuf → ℕ
offset s = s.p

-- `Seek` to an offset that is not negative.
unfoldable pub seek : ℕ → SmallBuf → Option SmallBuf
seek off s = if ltb (length s.b) off then none else some (record s { p = off })
