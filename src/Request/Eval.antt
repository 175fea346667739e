-- ===== src/Request/Eval.antt =====
-- request.go: `EvalRequest`.
use go_tarantool.Common.{ℕ, String, List, [], Outcome}
use go_tarantool.Request.Base.{BaseRequest, new_base, set_ctx, written}
use go_tarantool.Msgpack.{Codec}
use go_tarantool.Request.Fill.{fill_eval}
use go_tarantool.Iproto.{eval_request_code}

pub record EvalRequest (V : Type 0) : Type 0 where
  pub base : BaseRequest
  pub expr : String
  pub args : V

module _ {V : Type 0} where
  unfoldable pub new : Codec V → String → EvalRequest V
  new m expr = record { base = new_base eval_request_code; expr = expr; args = m.slice [] }

  unfoldable pub set_args : V → EvalRequest V → EvalRequest V
  set_args args req = record req { args = args }

  unfoldable pub body : Codec V → EvalRequest V → Outcome (List ℕ)
  unfolding fill_eval
  body m req = written (fill_eval m req.expr req.args)

  unfoldable pub context : ℕ → EvalRequest V → EvalRequest V
  unfolding set_ctx
  context ctx req = record req { base = set_ctx ctx req.base }
