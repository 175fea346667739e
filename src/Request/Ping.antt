-- ===== src/Request/Ping.antt =====
-- request.go: `PingRequest`.
use go_tarantool.Common.{ℕ, List, Outcome}
use go_tarantool.Request.Base.{BaseRequest, new_base, set_ctx, written}
use go_tarantool.Msgpack.{Codec}
use go_tarantool.Request.Fill.{fill_ping}
use go_tarantool.Iproto.{ping_request_code}

pub record PingRequest : Type 0 where
  pub base : BaseRequest

unfoldable pub new : PingRequest
new = record { base = new_base ping_request_code }

unfoldable pub body : {V : Type 0} → Codec V → PingRequest → Outcome (List ℕ)
unfolding fill_ping
body m req = written (fill_ping m)

unfoldable pub context : ℕ → PingRequest → PingRequest
unfolding set_ctx
context ctx req = record req { base = set_ctx ctx req.base }
