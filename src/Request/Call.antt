-- ===== src/Request/Call.antt =====
-- request.go: `CallRequest`. `NewCallRequest` takes the code that the build chooses (const_call_16.go,
-- const_call_17.go).
use go_tarantool.Common.{ℕ, String, List, [], Option, none, some, Outcome}
use go_tarantool.Request.Base.{BaseRequest, new_base, set_ctx, written}
use go_tarantool.Msgpack.{Codec}
use go_tarantool.Request.Fill.{fill_call}
use go_tarantool.Iproto.{call16_request_code, call17_request_code}

pub record CallRequest (V : Type 0) : Type 0 where
  pub base : BaseRequest
  pub function : String
  pub args : Option V

module _ {V : Type 0} where
  unfoldable pub new : ℕ → String → CallRequest V
  new call_request_code function = record {
    base = new_base call_request_code;
    function = function;
    args = none;
  }

  unfoldable pub set_args : V → CallRequest V → CallRequest V
  set_args args req = record req { args = some args }

  unfoldable pub new_call16 : String → CallRequest V
  unfolding new
  new_call16 function = new call16_request_code function

  unfoldable pub new_call17 : String → CallRequest V
  unfolding new
  new_call17 function = new call17_request_code function

  abbrev pub args_or_empty : Codec V → Option V → V
  args_or_empty m none = m.slice []
  args_or_empty m (some args) = args

  unfoldable pub body : Codec V → CallRequest V → Outcome (List ℕ)
  unfolding fill_call
  body m req = written (fill_call m req.function (args_or_empty m req.args))

  unfoldable pub context : ℕ → CallRequest V → CallRequest V
  unfolding set_ctx
  context ctx req = record req { base = set_ctx ctx req.base }
