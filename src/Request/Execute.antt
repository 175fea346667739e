-- ===== src/Request/Execute.antt =====
-- request.go: `ExecuteRequest` and `fillExecute`.
use go_tarantool.Common.{ℕ, String, List, [], some, Outcome}
use go_tarantool.Request.Base.{BaseRequest, new_base, set_ctx, written, then_with}
use go_tarantool.Msgpack.{Codec}
use go_tarantool.Request.Bind.{Bind, items, encode_sql_bind}
use go_tarantool.Msgpack.Objects.{◌▸◌, map_len, uint, string}
use go_tarantool.Iproto.{execute_request_code, key_sql_text, key_sql_bind}

pub record ExecuteRequest (V : Type 0) : Type 0 where
  pub base : BaseRequest
  pub expr : String
  pub args : Bind V

module _ {V : Type 0} where
  unfoldable pub new : String → ExecuteRequest V
  new expr = record { base = new_base execute_request_code; expr = expr; args = items [] }

  unfoldable pub set_args : Bind V → ExecuteRequest V → ExecuteRequest V
  set_args args req = record req { args = args }

  unfoldable pub fill_execute : Codec V → (String → String) → String → Bind V → Outcome (List ℕ)
  fill_execute m lower expr args = then_with (encode_sql_bind m lower args) (λ bind.
      written (map_len m 2 ▸ uint m key_sql_text ▸ string m expr ▸ uint m key_sql_bind ▸ some bind))

  unfoldable pub body : Codec V → (String → String) → ExecuteRequest V → Outcome (List ℕ)
  unfolding fill_execute
  body m lower req = fill_execute m lower req.expr req.args

  unfoldable pub context : ℕ → ExecuteRequest V → ExecuteRequest V
  unfolding set_ctx
  context ctx req = record req { base = set_ctx ctx req.base }
