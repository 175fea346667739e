-- ===== src/Request/Replace.antt =====
-- request.go: `ReplaceRequest`.
use go_tarantool.Common.{ℕ, List, [], Option, none, Outcome}
use go_tarantool.Request.Base.{BaseRequest, new_base, set_ctx, written, then_with}
use go_tarantool.Msgpack.{Codec}
use go_tarantool.Request.Fill.{fill_insert}
use go_tarantool.Iproto.{replace_request_code}

pub record ReplaceRequest (S V : Type 0) : Type 0 where
  pub base : BaseRequest
  pub space : S
  pub tuple : V

module _ {S V : Type 0} where
  unfoldable pub new : Codec V → S → ReplaceRequest S V
  new m space = record { base = new_base replace_request_code; space = space; tuple = m.slice [] }

  unfoldable pub set_tuple : V → ReplaceRequest S V → ReplaceRequest S V
  set_tuple tuple req = record req { tuple = tuple }

  unfoldable pub body :
      {I : Type 0}
      → Codec V
      → (S → Option I → Outcome (ℕ × ℕ))
      → ReplaceRequest S V
      → Outcome (List ℕ)
  unfolding fill_insert
  body m resolve req =
      then_with (resolve req.space none) (λ no. written (fill_insert m no.0 req.tuple))

  unfoldable pub context : ℕ → ReplaceRequest S V → ReplaceRequest S V
  unfolding set_ctx
  context ctx req = record req { base = set_ctx ctx req.base }
