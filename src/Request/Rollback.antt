-- ===== src/Request/Rollback.antt =====
-- stream.go: `RollbackRequest`.
use go_tarantool.Common.{ℕ, List, Outcome}
use go_tarantool.Request.Base.{BaseRequest, new_base, set_ctx, written}
use go_tarantool.Msgpack.{Codec}
use go_tarantool.Request.Fill.{fill_rollback}
use go_tarantool.Iproto.{rollback_request_code}

pub record RollbackRequest : Type 0 where
  pub base : BaseRequest

unfoldable pub new : RollbackRequest
new = record { base = new_base rollback_request_code }

unfoldable pub body : {V : Type 0} → Codec V → RollbackRequest → Outcome (List ℕ)
unfolding fill_rollback
body m req = written (fill_rollback m)

unfoldable pub context : ℕ → RollbackRequest → RollbackRequest
unfolding set_ctx
context ctx req = record req { base = set_ctx ctx req.base }
