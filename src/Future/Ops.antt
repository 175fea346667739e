-- ===== src/Future/Ops.antt =====
-- future.go: the calls that fill a future, in the order in which they take its mutex.
use go_tarantool.Common.{
  ℕ, ◌+◌, ◌<◌, ◌≤◌, ◌≡◌, refl, ap, sym, ◌∙◌, Bool, true, false, List, [], ◌∷◌, ◌++◌, Option, none,
  some, ◌>>=◌, Outcome, returns, if◌then◌else◌, lt→ltb, length, length-append, arith,
}
use mathlib.Core.List.{append-nil, append_assoc}
use go_tarantool.Future.{
  FutureState, ready_room, empty_future, closed_or_nil, is_done, append_push, set_response,
  set_error, got, get,
}

pub data Op (E : Type 0) : Type 0 where
  push : ℕ → Op E
  respond : ℕ → Op E
  fail : E → Op E

module _ {E : Type 0} where
  unfoldable pub apply : Op E → FutureState E → Option (FutureState E)
  unfolding append_push set_response set_error
  apply (push r) fut = append_push r fut
  apply (respond r) fut = some (set_response r fut)
  apply (fail e) fut = some (set_error e fut)

  unfoldable pub apply_all : List (Op E) → FutureState E → Option (FutureState E)
  unfolding apply
  apply_all [] fut = some fut
  apply_all (op ∷ ops) fut = apply op fut >>= apply_all ops

  -- The pushes before the first response or error.
  abbrev pub pushed : List (Op E) → List ℕ
  pushed [] = []
  pushed (push r ∷ ops) = r ∷ pushed ops
  pushed (respond r ∷ ops) = []
  pushed (fail e ∷ ops) = []

  -- The first of the responses and errors.
  abbrev pub responded : List (Op E) → Option ℕ
  responded [] = none
  responded (push r ∷ ops) = responded ops
  responded (respond r ∷ ops) = some r
  responded (fail e ∷ ops) = none

  abbrev pub failed : List (Op E) → Option E
  failed [] = none
  failed (push r ∷ ops) = failed ops
  failed (respond r ∷ ops) = none
  failed (fail e ∷ ops) = some e

  abbrev pub finishes : List (Op E) → Bool
  finishes [] = false
  finishes (push r ∷ ops) = finishes ops
  finishes (respond r ∷ ops) = true
  finishes (fail e ∷ ops) = true

  -- Such a future is still open.
  abbrev pub open_future : List ℕ → List ℕ → FutureState E
  open_future pushes coded = record {
    pushes = pushes;
    resp = none;
    err = none;
    ready = length pushes;
    done = some false;
    push_coded = coded;
  }

  -- What a list of calls leaves of it.
  abbrev pub Filled : List (Op E) → List ℕ → FutureState E → Type 0
  Filled ops pushes left =
      (left.pushes ≡ pushes ++ pushed ops)
      × (left.resp ≡ responded ops)
      × (left.err ≡ failed ops)
      × (left.done ≡ some (finishes ops))

  is_done-apply : (op : Op E) (fut : FutureState E) → is_done fut ≡ true → apply op fut ≡ some fut
  unfolding apply append_push set_response set_error
  is_done-apply (push r) fut h = rw h
  is_done-apply (respond r) fut h = rw h
  is_done-apply (fail e) fut h = rw h

  is_done-apply_all :
      (ops : List (Op E)) (fut : FutureState E) → is_done fut ≡ true → apply_all ops fut ≡ some fut
  unfolding apply_all
  is_done-apply_all [] fut h = refl
  is_done-apply_all (op ∷ ops) fut h =
      ap (λ o. o >>= apply_all ops) (is_done-apply op fut h) ∙ is_done-apply_all ops fut h

  room-lem :
      (pushes coded : List ℕ) (r : ℕ)
      → length pushes < ready_room
      → append_push r (open_future pushes coded)
        ≡ some (open_future (pushes ++ (r ∷ [])) (r ∷ coded))
  unfolding append_push is_done
  room-lem pushes coded r h =
      let left : ℕ → FutureState E =
        λ n. record (open_future (pushes ++ (r ∷ [])) (r ∷ coded)) { ready = n } in
      let n : length pushes + 1 ≡ length (pushes ++ (r ∷ [])) =
        omega (arith, length-append pushes (r ∷ [])) in
      ap (λ b. if b then some (left (length pushes + 1)) else none)
        (lt→ltb (length pushes) ready_room h)
      ∙ ap (λ k. some (left k)) n

  -- Calls of AppendPush, SetResponse and SetError, in whatever order they come to a new future: if the pushes
  -- are no more than the channel has room for, no call waits, the first response or error is what the
  -- future keeps and closes it, the pushes before that are kept in their order, and every call behind it changes nothing.
  apply_all-Filled :
      (ops : List (Op E)) (pushes coded : List ℕ)
      → length pushes + length (pushed ops) ≤ ready_room
      → (left : FutureState E) × (apply_all ops (open_future pushes coded) ≡ some left)
        × Filled ops pushes left
  unfolding apply_all apply set_response set_error is_done
  apply_all-Filled [] pushes coded h =
      (open_future pushes coded, refl, (sym (append-nil pushes), refl, refl, refl))
  apply_all-Filled (push r ∷ ops) pushes coded h =
      let n = length-append pushes (r ∷ []) in
      let rest = apply_all-Filled ops (pushes ++ (r ∷ [])) (r ∷ coded) (omega arith) in
      (
        rest.0,
        ap (λ o. o >>= apply_all ops) (room-lem pushes coded r (omega arith)) ∙ rest.1,
        (rest.2.0 ∙ append_assoc pushes (r ∷ []) (pushed ops), rest.2.1, rest.2.2, rest.2.3),
      )
  apply_all-Filled (respond r ∷ ops) pushes coded h =
      let left = set_response r (open_future pushes coded) in
      (left, is_done-apply_all ops left refl, (sym (append-nil pushes), refl, refl, refl))
  apply_all-Filled (fail e ∷ ops) pushes coded h =
      let left = set_error e (open_future pushes coded) in
      (left, is_done-apply_all ops left refl, (sym (append-nil pushes), refl, refl, refl))

  -- What `Get` answers behind these calls: it waits until the first response or error.
  abbrev pub answer : (ℕ → Option E) → List (Op E) → Option (Outcome (Option ℕ × Option E))
  answer decode_body [] = none
  answer decode_body (push r ∷ ops) = answer decode_body ops
  answer decode_body (respond r ∷ ops) = some (returns (some r, decode_body r))
  answer decode_body (fail e ∷ ops) = some (returns (none, some e))

  got-answer :
      (decode_body : ℕ → Option E) (ops : List (Op E))
      → (if finishes ops then some (got decode_body (responded ops) (failed ops)) else none)
        ≡ answer decode_body ops
  got-answer decode_body [] = refl
  got-answer decode_body (push r ∷ ops) = got-answer decode_body ops
  got-answer decode_body (respond r ∷ ops) = refl
  got-answer decode_body (fail e ∷ ops) = refl

  get-answer :
      (decode_body : ℕ → Option E) (ops : List (Op E)) (left : FutureState E)
      → Filled ops [] left
      → get decode_body left ≡ answer decode_body ops
  unfolding get is_done
  get-answer decode_body ops left (hp, hr, he, hd) =
      ap (λ s. if closed_or_nil s then some (got decode_body left.resp left.err) else none) hd
      ∙ ap (λ s. if finishes ops then some (got decode_body s left.err) else none) hr
      ∙ ap (λ s. if finishes ops then some (got decode_body (responded ops) s) else none) he
      ∙ got-answer decode_body ops

  -- Calls of AppendPush, SetResponse and SetError, in whatever order they come to a new future: if the pushes
  -- are no more than the channel has room for, no call waits. The pushes before the first response or error are
  -- kept in their order, `Get` answers that first response, with its decoding, or that error and waits before it,
  -- and every later call changes nothing. `Get` never panics.
  pub fill-answer :
      (decode_body : ℕ → Option E) (ops : List (Op E))
      → length (pushed ops) ≤ ready_room
      → (left : FutureState E) × (apply_all ops empty_future ≡ some left)
        × (left.pushes ≡ pushed ops)
        × (get decode_body left ≡ answer decode_body ops)
  fill-answer decode_body ops h =
      let filled = apply_all-Filled ops [] [] (omega arith) in
      (filled.0, filled.1, filled.2.0, get-answer decode_body ops filled.0 filled.2)
