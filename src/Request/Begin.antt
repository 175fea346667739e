-- ===== src/Request/Begin.antt =====
-- stream.go: `BeginRequest`. A timeout that is not positive is 0.
use go_tarantool.Common.{ℕ, List, Outcome}
use go_tarantool.Request.Base.{BaseRequest, new_base, set_ctx, written}
use go_tarantool.Msgpack.{Codec}
use go_tarantool.Request.Fill.{fill_begin}
use go_tarantool.Iproto.{begin_request_code}

pub record BeginRequest : Type 0 where
  pub base : BaseRequest
  pub isolation : ℕ
  pub timeout : ℕ

unfoldable pub new : BeginRequest
new = record { base = new_base begin_request_code; isolation = 0; timeout = 0 }

unfoldable pub txn_isolation : ℕ → BeginRequest → BeginRequest
txn_isolation level req = record req { isolation = level }

unfoldable pub set_timeout : ℕ → BeginRequest → BeginRequest
set_timeout timeout req = record req { timeout = timeout }

unfoldable pub body : {V : Type 0} → Codec V → BeginRequest → Outcome (List ℕ)
unfolding fill_begin
body m req = written (fill_begin m req.isolation req.timeout)

unfoldable pub context : ℕ → BeginRequest → BeginRequest
unfolding set_ctx
context ctx req = record req { base = set_ctx ctx req.base }
