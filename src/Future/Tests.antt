-- ===== src/Future/Tests.antt =====
-- future.go: two push messages, a response, and what comes too late.
use go_tarantool.Common.{ℕ, ◌+◌, ◌≡◌, refl, true, List, [], ◌∷◌, Option, none, some, arith}
use go_tarantool.Future.{FutureState, empty_future, get}
use go_tarantool.Future.Iterator.{new_iterator}
use go_tarantool.Future.Ops.{Op, push, respond, fail, apply_all, pushed, answer, fill-answer}
use go_tarantool.Future.Drain.{drain, drain-all}

abbrev late_calls : List (Op ℕ)
late_calls = push 10 ∷ push 11 ∷ respond 7 ∷ fail 3 ∷ push 12 ∷ []

abbrev no_error : ℕ → Option ℕ
no_error r = none

fill-answer_example :
    (left : FutureState ℕ) × (apply_all late_calls empty_future ≡ some left)
    × (left.pushes ≡ pushed late_calls)
    × (get no_error left ≡ answer no_error late_calls)
fill-answer_example = fill-answer no_error late_calls (omega arith)

abbrev finished_future : FutureState ℕ
finished_future = record {
  pushes = 10 ∷ 11 ∷ [];
  resp = some 7;
  err = none;
  ready = 2;
  done = some true;
  push_coded = 11 ∷ 10 ∷ [];
}

drain-all_example : drain (2 + (1 + 3)) no_error finished_future new_iterator ≡ 10 ∷ 11 ∷ 7 ∷ []
drain-all_example = drain-all no_error finished_future 7 3 (λ a. refl) refl refl (refl, (refl, tt))
