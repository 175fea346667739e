-- ===== src/Request/Upsert.antt =====
-- request.go: `UpsertRequest`. `Operations` with nil changes nothing.
use go_tarantool.Common.{ℕ, List, [], Option, none, some, Outcome}
use go_tarantool.Request.Base.{BaseRequest, new_base, set_ctx, written, then_with}
use go_tarantool.Msgpack.{Codec}
use go_tarantool.Request.Fill.{fill_upsert}
use go_tarantool.Iproto.{upsert_request_code}

pub record UpsertRequest (S V : Type 0) : Type 0 where
  pub base : BaseRequest
  pub space : S
  pub tuple : V
  pub ops : V

module _ {S V : Type 0} where
  unfoldable pub new : Codec V → S → UpsertRequest S V
  new m space = record {
    base = new_base upsert_request_code;
    space = space;
    tuple = m.slice [];
    ops = m.slice [];
  }

  unfoldable pub set_tuple : V → UpsertRequest S V → UpsertRequest S V
  set_tuple tuple req = record req { tuple = tuple }

  unfoldable pub operations : Option V → UpsertRequest S V → UpsertRequest S V
  operations none req = req
  operations (some ops) req = record req { ops = ops }

  unfoldable pub body :
      {I : Type 0}
      → Codec V
      → (S → Option I → Outcome (ℕ × ℕ))
      → UpsertRequest S V
      → Outcome (List ℕ)
  unfolding fill_upsert
  body m resolve req =
      then_with (resolve req.space none) (λ no. written (fill_upsert m no.0 req.tuple req.ops))

  unfoldable pub context : ℕ → UpsertRequest S V → UpsertRequest S V
  unfolding set_ctx
  context ctx req = record req { base = set_ctx ctx req.base }
