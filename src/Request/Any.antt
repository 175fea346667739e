-- ===== src/Request/Any.antt =====
-- request.go: the interface `Request`, over the requests of this library.
use go_tarantool.Common.{ℕ, String, Bool, List, Option, Outcome}
use go_tarantool.Msgpack.{Codec}
use go_tarantool.Request.Base.{BaseRequest}
use go_tarantool.Request.Ping
use go_tarantool.Request.Ping.{PingRequest}
use go_tarantool.Request.Select
use go_tarantool.Request.Select.{SelectRequest}
use go_tarantool.Request.Insert
use go_tarantool.Request.Insert.{InsertRequest}
use go_tarantool.Request.Replace
use go_tarantool.Request.Replace.{ReplaceRequest}
use go_tarantool.Request.Delete
use go_tarantool.Request.Delete.{DeleteRequest}
use go_tarantool.Request.Update
use go_tarantool.Request.Update.{UpdateRequest}
use go_tarantool.Request.Upsert
use go_tarantool.Request.Upsert.{UpsertRequest}
use go_tarantool.Request.Call
use go_tarantool.Request.Call.{CallRequest}
use go_tarantool.Request.Eval
use go_tarantool.Request.Eval.{EvalRequest}
use go_tarantool.Request.Execute
use go_tarantool.Request.Execute.{ExecuteRequest}
use go_tarantool.Request.Prepare
use go_tarantool.Request.Prepare.{PrepareRequest}
use go_tarantool.Request.Unprepare
use go_tarantool.Request.Unprepare.{UnprepareRequest}
use go_tarantool.Request.ExecutePrepared
use go_tarantool.Request.ExecutePrepared.{ExecutePreparedRequest}
use go_tarantool.Request.Begin
use go_tarantool.Request.Begin.{BeginRequest}
use go_tarantool.Request.Commit
use go_tarantool.Request.Commit.{CommitRequest}
use go_tarantool.Request.Rollback
use go_tarantool.Request.Rollback.{RollbackRequest}
use go_tarantool.Request.Identify
use go_tarantool.Request.Identify.{IdRequest}
use go_tarantool.Request.Broadcast
use go_tarantool.Request.Broadcast.{BroadcastRequest}
use go_tarantool.Request.Watch
use go_tarantool.Request.Watch.{WatchRequest}
use go_tarantool.Request.Unwatch
use go_tarantool.Request.Unwatch.{UnwatchRequest}

pub data Request (S I V : Type 0) : Type 0 where
  ping : PingRequest → Request S I V
  select : SelectRequest S I V → Request S I V
  insert : InsertRequest S V → Request S I V
  replace : ReplaceRequest S V → Request S I V
  delete : DeleteRequest S I V → Request S I V
  update : UpdateRequest S I V → Request S I V
  upsert : UpsertRequest S V → Request S I V
  call : CallRequest V → Request S I V
  eval : EvalRequest V → Request S I V
  execute : ExecuteRequest V → Request S I V
  prepare : PrepareRequest → Request S I V
  unprepare : UnprepareRequest → Request S I V
  execute_prepared : ExecutePreparedRequest V → Request S I V
  begin : BeginRequest → Request S I V
  commit : CommitRequest → Request S I V
  rollback : RollbackRequest → Request S I V
  identify : IdRequest → Request S I V
  broadcast : BroadcastRequest V → Request S I V
  watch : WatchRequest → Request S I V
  unwatch : UnwatchRequest → Request S I V

module _ {S I V : Type 0} where
  -- The `baseRequest` whose methods the request has.
  unfoldable pub base : Request S I V → BaseRequest
  base (ping r) = r.base
  base (select r) = r.base
  base (insert r) = r.base
  base (replace r) = r.base
  base (delete r) = r.base
  base (update r) = r.base
  base (upsert r) = r.base
  base (call r) = r.base
  base (eval r) = r.base
  base (execute r) = r.base
  base (prepare r) = r.base
  base (unprepare r) = r.base
  base (execute_prepared r) = r.base
  base (begin r) = r.base
  base (commit r) = r.base
  base (rollback r) = r.base
  base (identify r) = r.base
  base (broadcast r) = r.call.base
  base (watch r) = r.base
  base (unwatch r) = r.base

  unfoldable pub code : Request S I V → ℕ
  unfolding base
  code r = (base r).request_code

  unfoldable pub async : Request S I V → Bool
  unfolding base
  async r = (base r).async

  unfoldable pub request_ctx : Request S I V → Option ℕ
  unfolding base
  request_ctx r = (base r).ctx

  module _ (m : Codec V) (lower : String → String) (resolve : S → Option I → Outcome (ℕ × ℕ)) where
    unfoldable pub body : Request S I V → Outcome (List ℕ)
    unfolding Ping.body Select.body Insert.body Replace.body Delete.body Update.body Upsert.body
        Call.body Eval.body Execute.body Prepare.body Unprepare.body ExecutePrepared.body Begin.body
        Commit.body Rollback.body Identify.body Broadcast.body Watch.body Unwatch.body
    body (ping r) = Ping.body m r
    body (select r) = Select.body m resolve r
    body (insert r) = Insert.body m resolve r
    body (replace r) = Replace.body m resolve r
    body (delete r) = Delete.body m resolve r
    body (update r) = Update.body m resolve r
    body (upsert r) = Upsert.body m resolve r
    body (call r) = Call.body m r
    body (eval r) = Eval.body m r
    body (execute r) = Execute.body m lower r
    body (prepare r) = Prepare.body m r
    body (unprepare r) = Unprepare.body m r
    body (execute_prepared r) = ExecutePrepared.body m lower r
    body (begin r) = Begin.body m r
    body (commit r) = Commit.body m r
    body (rollback r) = Rollback.body m r
    body (identify r) = Identify.body m r
    body (broadcast r) = Broadcast.body m r
    body (watch r) = Watch.body m r
    body (unwatch r) = Unwatch.body m r
