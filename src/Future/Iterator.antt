-- ===== src/Future/Iterator.antt =====
-- future.go: `asyncResponseIterator`.
use go_tarantool.Common.{
  ℕ, ◌+◌, Bool, true, false, List, [], ◌∷◌, Option, none, some, if◌then◌else◌, ltb, ◌==◌, ◌||◌,
  length, get_elem?,
}
use go_tarantool.Future.{FutureState}

pub record ResponseIterator (E : Type 0) : Type 0 where
  pub resp : Option ℕ
  pub err : Option E
  pub cur_pos : ℕ
  pub finished : Bool

-- What a read that got nothing waits for: a token, with the future as it is then, or the end of
-- the time.
pub data Wake (E : Type 0) : Type 0 where
  token : FutureState E → Wake E
  timed_out : Wake E

abbrev pub is_set : {A : Type 0} → Option A → Bool
is_set none = false
is_set (some a) = true

-- Equality of pointers.
abbrev pub same_response : Option ℕ → Option ℕ → Bool
same_response none none = true
same_response none (some b) = false
same_response (some a) none = false
same_response (some a) (some b) = a == b

module _ {E : Type 0} where
  abbrev pub new_iterator : ResponseIterator E
  new_iterator = record { resp = none; err = none; cur_pos = 0; finished = false }

  unfoldable pub next_response : FutureState E → ℕ → Option ℕ
  next_response fut cur_pos =
      if ltb cur_pos (length fut.pushes)
      then get_elem? fut.pushes cur_pos
      else if cur_pos == length fut.pushes
      then fut.resp
      else none

  unfoldable pub read_next : FutureState E → ResponseIterator E → ResponseIterator E
  unfolding next_response
  read_next fut it = record it { resp = next_response fut it.cur_pos; err = fut.err }

  unfoldable pub is_last : FutureState E → ResponseIterator E → Bool
  is_last fut it = same_response it.resp fut.resp

  abbrev pub decoded : Option E → Bool → ResponseIterator E → Bool × ResponseIterator E
  decoded (some e) last it = (false, record it { err = some e; resp = none })
  decoded none true it = (true, record it { err = none; finished = true })
  decoded none false it = (true, record it { err = none; cur_pos = it.cur_pos + 1 })

  -- What `Next` does behind its loop.
  abbrev pub deliver :
      (ℕ → Option E) → Bool → Option ℕ → ResponseIterator E → Bool × ResponseIterator E
  deliver decode_body last none it = (false, it)
  deliver decode_body last (some r) it = decoded (decode_body r) last it

  -- The loop of `Next`; `none` while it waits. Without a timeout there is nothing to wait for.
  unfoldable pub next_loop :
      (ℕ → Option E)
      → Option (List (Wake E))
      → FutureState E
      → ResponseIterator E
      → Option (Bool × ResponseIterator E)
  unfolding read_next is_last
  next_loop decode_body none fut it =
      let read = read_next fut it in some (deliver decode_body (is_last fut read) read.resp read)
  next_loop decode_body (some []) fut it =
      let read = read_next fut it in
      if is_set read.resp || is_set read.err
      then some (deliver decode_body (is_last fut read) read.resp read)
      else none
  next_loop decode_body (some (timed_out ∷ wakes)) fut it =
      let read = read_next fut it in some (deliver decode_body (is_last fut read) read.resp read)
  next_loop decode_body (some (token fut' ∷ wakes)) fut it =
      let read = read_next fut it in
      let rest = next_loop decode_body (some wakes) fut' read in
      if is_set read.resp || is_set read.err
      then some (deliver decode_body (is_last fut read) read.resp read)
      else rest

  unfoldable pub next :
      (ℕ → Option E)
      → Option (List (Wake E))
      → FutureState E
      → ResponseIterator E
      → Option (Bool × ResponseIterator E)
  unfolding next_loop
  next decode_body wakes fut it =
      if it.finished || is_set it.err
      then some (false, record it { resp = none })
      else next_loop decode_body wakes fut it

  unfoldable pub value : ResponseIterator E → Option ℕ
  value it = it.resp

  unfoldable pub iterator_err : ResponseIterator E → Option E
  iterator_err it = it.err
