-- ===== src/Request/Delete.antt =====
-- request.go: `DeleteRequest`.
use go_tarantool.Common.{ℕ, List, [], Option, none, some, Outcome}
use go_tarantool.Request.Base.{BaseRequest, new_base, set_ctx, written, then_with}
use go_tarantool.Msgpack.{Codec}
use go_tarantool.Request.Fill.{fill_delete}
use go_tarantool.Iproto.{delete_request_code}

pub record DeleteRequest (S I V : Type 0) : Type 0 where
  pub base : BaseRequest
  pub space : S
  pub index : Option I
  pub key : V

module _ {S I V : Type 0} where
  unfoldable pub new : Codec V → S → DeleteRequest S I V
  new m space = record {
    base = new_base delete_request_code;
    space = space;
    index = none;
    key = m.slice [];
  }

  unfoldable pub set_index : I → DeleteRequest S I V → DeleteRequest S I V
  set_index index req = record req { index = some index }

  unfoldable pub set_key : V → DeleteRequest S I V → DeleteRequest S I V
  set_key key req = record req { key = key }

  unfoldable pub body :
      Codec V → (S → Option I → Outcome (ℕ × ℕ)) → DeleteRequest S I V → Outcome (List ℕ)
  unfolding fill_delete
  body m resolve req =
      then_with (resolve req.space req.index) (λ no. written (fill_delete m no.0 no.1 req.key))

  unfoldable pub context : ℕ → DeleteRequest S I V → DeleteRequest S I V
  unfolding set_ctx
  context ctx req = record req { base = set_ctx ctx req.base }
