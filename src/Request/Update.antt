-- ===== src/Request/Update.antt =====
-- request.go: `UpdateRequest`. `Operations` with nil changes nothing.
use go_tarantool.Common.{ℕ, List, [], Option, none, some, Outcome}
use go_tarantool.Request.Base.{BaseRequest, new_base, set_ctx, written, then_with}
use go_tarantool.Msgpack.{Codec}
use go_tarantool.Request.Fill.{fill_update}
use go_tarantool.Iproto.{update_request_code}

pub record UpdateRequest (S I V : Type 0) : Type 0 where
  pub base : BaseRequest
  pub space : S
  pub index : Option I
  pub key : V
  pub ops : V

module _ {S I V : Type 0} where
  unfoldable pub new : Codec V → S → UpdateRequest S I V
  new m space = record {
    base = new_base update_request_code;
    space = space;
    index = none;
    key = m.slice [];
    ops = m.slice [];
  }

  unfoldable pub set_index : I → UpdateRequest S I V → UpdateRequest S I V
  set_index index req = record req { index = some index }

  unfoldable pub set_key : V → UpdateRequest S I V → UpdateRequest S I V
  set_key key req = record req { key = key }

  unfoldable pub operations : Option V → UpdateRequest S I V → UpdateRequest S I V
  operations none req = req
  operations (some ops) req = record req { ops = ops }

  unfoldable pub body :
      Codec V → (S → Option I → Outcome (ℕ × ℕ)) → UpdateRequest S I V → Outcome (List ℕ)
  unfolding fill_update
  body m resolve req =
      then_with (resolve req.space req.index)
        (λ no. written (fill_update m no.0 no.1 req.key req.ops))

  unfoldable pub context : ℕ → UpdateRequest S I V → UpdateRequest S I V
  unfolding set_ctx
  context ctx req = record req { base = set_ctx ctx req.base }
