-- ===== src/Request/ExecutePrepared.antt =====
-- prepared.go: `ExecutePreparedRequest` and `fillExecutePrepared`.
use go_tarantool.Common.{ℕ, String, List, [], some, Outcome}
use go_tarantool.Request.Base.{BaseRequest, new_base, set_ctx, written, then_with}
use go_tarantool.Msgpack.{Codec}
use go_tarantool.Request.Bind.{Bind, items, encode_sql_bind}
use go_tarantool.Msgpack.Objects.{◌▸◌, map_len, uint}
use go_tarantool.Iproto.{execute_request_code, key_stmt_id, key_sql_bind}
use go_tarantool.Request.Unprepare.{Prepared}

pub record ExecutePreparedRequest (V : Type 0) : Type 0 where
  pub base : BaseRequest
  pub stmt : Prepared
  pub args : Bind V

module _ {V : Type 0} where
  unfoldable pub new : Prepared → ExecutePreparedRequest V
  new stmt = record { base = new_base execute_request_code; stmt = stmt; args = items [] }

  unfoldable pub conn : ExecutePreparedRequest V → ℕ
  conn req = req.stmt.conn

  unfoldable pub set_args : Bind V → ExecutePreparedRequest V → ExecutePreparedRequest V
  set_args args req = record req { args = args }

  unfoldable pub fill_execute_prepared :
      Codec V → (String → String) → Prepared → Bind V → Outcome (List ℕ)
  fill_execute_prepared m lower stmt args = then_with (encode_sql_bind m lower args) (λ bind.
      written (
        map_len m 2
        ▸ uint m key_stmt_id
        ▸ uint m stmt.statement_id
        ▸ uint m key_sql_bind
        ▸ some bind))

  unfoldable pub body : Codec V → (String → String) → ExecutePreparedRequest V → Outcome (List ℕ)
  unfolding fill_execute_prepared
  body m lower req = fill_execute_prepared m lower req.stmt req.args

  unfoldable pub context : ℕ → ExecutePreparedRequest V → ExecutePreparedRequest V
  unfolding set_ctx
  context ctx req = record req { base = set_ctx ctx req.base }
