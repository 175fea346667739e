-- ===== src/Request/Prepare.antt =====
-- prepared.go: `PrepareRequest`.
use go_tarantool.Common.{ℕ, String, List, Outcome}
use go_tarantool.Request.Base.{BaseRequest, new_base, set_ctx, written}
use go_tarantool.Msgpack.{Codec}
use go_tarantool.Request.Fill.{fill_prepare}
use go_tarantool.Iproto.{prepare_request_code}

pub record PrepareRequest : Type 0 where
  pub base : BaseRequest
  pub expr : String

unfoldable pub new : String → PrepareRequest
new expr = record { base = new_base prepare_request_code; expr = expr }

unfoldable pub body : {V : Type 0} → Codec V → PrepareRequest → Outcome (List ℕ)
unfolding fill_prepare
body m req = written (fill_prepare m req.expr)

unfoldable pub context : ℕ → PrepareRequest → PrepareRequest
unfolding set_ctx
context ctx req = record req { base = set_ctx ctx req.base }
