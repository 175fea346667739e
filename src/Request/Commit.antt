-- ===== src/Request/Commit.antt =====
-- stream.go: `CommitRequest`.
use go_tarantool.Common.{ℕ, List, Outcome}
use go_tarantool.Request.Base.{BaseRequest, new_base, set_ctx, written}
use go_tarantool.Msgpack.{Codec}
use go_tarantool.Request.Fill.{fill_commit}
use go_tarantool.Iproto.{commit_request_code}

pub record CommitRequest : Type 0 where
  pub base : BaseRequest

unfoldable pub new : CommitRequest
new = record { base = new_base commit_request_code }

unfoldable pub body : {V : Type 0} → Codec V → CommitRequest → Outcome (List ℕ)
unfolding fill_commit
body m req = written (fill_commit m)

unfoldable pub context : ℕ → CommitRequest → CommitRequest
unfolding set_ctx
context ctx req = record req { base = set_ctx ctx req.base }
