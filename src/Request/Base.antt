-- ===== src/Request/Base.antt =====
-- request.go: what every request holds, `baseRequest`. A context is known by its number.
use go_tarantool.Common.{ℕ, Bool, false, Option, none, some, Outcome, returns, fails, panics}

pub record BaseRequest : Type 0 where
  pub request_code : ℕ
  pub async : Bool
  pub ctx : Option ℕ

-- `new(…)`, with `requestCode` set.
abbrev pub new_base : ℕ → BaseRequest
new_base request_code = record { request_code = request_code; async = false; ctx = none }

unfoldable pub set_ctx : ℕ → BaseRequest → BaseRequest
set_ctx ctx req = record req { ctx = some ctx }

-- An error of the encoder is the body's error.
abbrev pub written : {A : Type 0} → Option A → Outcome A
written none = fails
written (some a) = returns a

-- `if err != nil { return err }`
abbrev pub then_with : {A B : Type 0} → Outcome A → (A → Outcome B) → Outcome B
then_with (returns a) f = f a
then_with fails f = fails
then_with panics f = panics
