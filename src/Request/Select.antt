-- ===== src/Request/Select.antt =====
-- request.go: `SelectRequest`.
use go_tarantool.Common.{
  ℕ, Bool, true, false, not, List, [], Option, none, some, Outcome, if◌then◌else◌,
}
use go_tarantool.Request.Base.{BaseRequest, new_base, set_ctx, written, then_with}
use go_tarantool.Msgpack.{Codec}
use go_tarantool.Request.Fill.{After, no_after, fill_select}
use go_tarantool.Iproto.{select_request_code, iter_all, iter_eq}

pub record SelectRequest (S I V : Type 0) : Type 0 where
  pub base : BaseRequest
  pub space : S
  pub index : Option I
  pub is_iterator_set : Bool
  pub fetch_pos : Bool
  pub offset : ℕ
  pub limit : ℕ
  pub iterator : ℕ
  pub key : V
  pub after : After V

module _ {S I V : Type 0} where
  unfoldable pub new : Codec V → S → SelectRequest S I V
  new m space = record {
    base = new_base select_request_code;
    space = space;
    index = none;
    is_iterator_set = false;
    fetch_pos = false;
    offset = 0;
    limit = 0xffffffff;
    iterator = iter_all;
    key = m.slice [];
    after = no_after;
  }

  unfoldable pub set_index : I → SelectRequest S I V → SelectRequest S I V
  set_index index req = record req { index = some index }

  unfoldable pub set_offset : ℕ → SelectRequest S I V → SelectRequest S I V
  set_offset offset req = record req { offset = offset }

  unfoldable pub set_limit : ℕ → SelectRequest S I V → SelectRequest S I V
  set_limit limit req = record req { limit = limit }

  unfoldable pub set_iterator : ℕ → SelectRequest S I V → SelectRequest S I V
  set_iterator iterator req = record req { iterator = iterator; is_iterator_set = true }

  unfoldable pub set_key : V → SelectRequest S I V → SelectRequest S I V
  set_key key req = record req {
    key = key;
    iterator = if not req.is_iterator_set then iter_eq else req.iterator;
  }

  unfoldable pub set_fetch_pos : Bool → SelectRequest S I V → SelectRequest S I V
  set_fetch_pos fetch req = record req { fetch_pos = fetch }

  unfoldable pub set_after : After V → SelectRequest S I V → SelectRequest S I V
  set_after after req = record req { after = after }

  unfoldable pub body :
      Codec V → (S → Option I → Outcome (ℕ × ℕ)) → SelectRequest S I V → Outcome (List ℕ)
  unfolding fill_select
  body m resolve req = then_with (resolve req.space req.index) (λ no.
      written
        (fill_select m no.0 no.1 req.offset req.limit req.iterator req.key req.after req.fetch_pos))

  unfoldable pub context : ℕ → SelectRequest S I V → SelectRequest S I V
  unfolding set_ctx
  context ctx req = record req { base = set_ctx ctx req.base }
