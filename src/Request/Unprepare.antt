-- ===== src/Request/Unprepare.antt =====
-- prepared.go: `Prepared` and `UnprepareRequest`. A connection is known by its number.
use go_tarantool.Common.{ℕ, List, Outcome}
use go_tarantool.Request.Base.{BaseRequest, new_base, set_ctx, written}
use go_tarantool.Msgpack.{Codec}
use go_tarantool.Request.Fill.{fill_unprepare}
use go_tarantool.Iproto.{prepare_request_code}

pub record Prepared : Type 0 where
  pub statement_id : ℕ
  pub param_count : ℕ
  pub conn : ℕ

pub record UnprepareRequest : Type 0 where
  pub base : BaseRequest
  pub stmt : Prepared

unfoldable pub new : Prepared → UnprepareRequest
new stmt = record { base = new_base prepare_request_code; stmt = stmt }

unfoldable pub conn : UnprepareRequest → ℕ
conn req = req.stmt.conn

unfoldable pub body : {V : Type 0} → Codec V → UnprepareRequest → Outcome (List ℕ)
unfolding fill_unprepare
body m req = written (fill_unprepare m req.stmt.statement_id)

unfoldable pub context : ℕ → UnprepareRequest → UnprepareRequest
unfolding set_ctx
context ctx req = record req { base = set_ctx ctx req.base }
