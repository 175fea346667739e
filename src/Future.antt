-- ===== src/Future.antt =====
-- future.go: the handle of a request that was sent, and the iterator over its push messages. A response
-- is known by its address, and an error by a value of the type `E`.
pub mod Iterator
pub mod Ops
pub mod Drain
mod Tests
use go_tarantool.Common.{
  ℕ, ◌+◌, String, Bool, true, false, List, [], ◌∷◌, ◌++◌, Option, none, some, Outcome, returns,
  panics, if◌then◌else◌, ltb,
}

-- `done` is `none` for a nil channel, and otherwise tells whether it is closed; `ready` counts the tokens
-- in its channel. The responses in `push_coded` have got the code of a push message.
pub record FutureState (E : Type 0) : Type 0 where
  pub pushes : List ℕ
  pub resp : Option ℕ
  pub err : Option E
  pub ready : ℕ
  pub done : Option Bool
  pub push_coded : List ℕ

abbrev pub ready_room : ℕ
ready_room = 1000000000

abbrev pub closed_or_nil : Option Bool → Bool
closed_or_nil none = true
closed_or_nil (some closed) = closed

module _ {E : Type 0} where
  abbrev pub empty_future : FutureState E
  empty_future = record {
    pushes = [];
    resp = none;
    err = none;
    ready = 0;
    done = some false;
    push_coded = [];
  }

  unfoldable pub is_done : FutureState E → Bool
  is_done fut = closed_or_nil fut.done

  -- `none` when the channel is full, where the code waits.
  unfoldable pub append_push : ℕ → FutureState E → Option (FutureState E)
  unfolding is_done
  append_push r fut =
      if is_done fut
      then some fut
      else if ltb fut.ready ready_room
      then some (record fut {
        pushes = fut.pushes ++ (r ∷ []);
        push_coded = r ∷ fut.push_coded;
        ready = fut.ready + 1;
      })
      else none

  unfoldable pub set_response : ℕ → FutureState E → FutureState E
  unfolding is_done
  set_response r fut = if is_done fut then fut else record fut { resp = some r; done = some true }

  unfoldable pub set_error : E → FutureState E → FutureState E
  unfolding is_done
  set_error e fut = if is_done fut then fut else record fut { err = some e; done = some true }

  -- What `Get` gives behind its wait; a nil response is dereferenced.
  abbrev pub got : (ℕ → Option E) → Option ℕ → Option E → Outcome (Option ℕ × Option E)
  got decode_body r (some e) = returns (r, some e)
  got decode_body none none = panics
  got decode_body (some r) none = returns (some r, decode_body r)

  -- `none` while the call waits. `decode_body` is the error of the response's decoding.
  unfoldable pub get : (ℕ → Option E) → FutureState E → Option (Outcome (Option ℕ × Option E))
  unfolding is_done
  get decode_body fut = if is_done fut then some (got decode_body fut.resp fut.err) else none

  -- `Err`
  unfoldable pub future_err : FutureState E → Option (Option E)
  unfolding is_done
  future_err fut = if is_done fut then some fut.err else none
