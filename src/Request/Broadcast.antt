-- ===== src/Request/Broadcast.antt =====
-- watch.go: `BroadcastRequest`, a call of box.broadcast.
use go_tarantool.Common.{ℕ, String, Bool, List, [], ◌∷◌, Option, Outcome}
use go_tarantool.Msgpack.{Codec}
use go_tarantool.Request.Call
use go_tarantool.Request.Call.{CallRequest}

pub record BroadcastRequest (V : Type 0) : Type 0 where
  pub call : CallRequest V
  pub key : String

module _ {V : Type 0} where
  unfoldable pub new : Codec V → ℕ → String → BroadcastRequest V
  unfolding Call.new Call.set_args
  new m call_request_code key = record {
    call = Call.set_args (m.slice (m.text key ∷ [])) (Call.new call_request_code "box.broadcast");
    key = key;
  }

  unfoldable pub set_value : Codec V → V → BroadcastRequest V → BroadcastRequest V
  unfolding Call.set_args
  set_value m value req = record req {
    call = Call.set_args (m.slice (m.text req.key ∷ value ∷ [])) req.call;
  }

  unfoldable pub context : ℕ → BroadcastRequest V → BroadcastRequest V
  unfolding Call.context
  context ctx req = record req { call = Call.context ctx req.call }

  unfoldable pub code : BroadcastRequest V → ℕ
  code req = req.call.base.request_code

  unfoldable pub body : Codec V → BroadcastRequest V → Outcome (List ℕ)
  unfolding Call.body
  body m req = Call.body m req.call

  unfoldable pub request_ctx : BroadcastRequest V → Option ℕ
  request_ctx req = req.call.base.ctx

  unfoldable pub async : BroadcastRequest V → Bool
  async req = req.call.base.async
