-- ===== src/Request/Unwatch.antt =====
-- watch.go: `unwatchRequest`, which expects no response. It has a context of its own beside the one of
-- `baseRequest`.
use go_tarantool.Common.{ℕ, String, true, List, Option, none, some, Outcome}
use go_tarantool.Request.Base.{BaseRequest, new_base, written}
use go_tarantool.Msgpack.{Codec}
use go_tarantool.Request.Fill.{fill_event}
use go_tarantool.Iproto.{unwatch_request_code}

pub record UnwatchRequest : Type 0 where
  pub base : BaseRequest
  pub key : String
  pub ctx : Option ℕ

unfoldable pub new : String → UnwatchRequest
new key = record {
  base = record (new_base unwatch_request_code) { async = true };
  key = key;
  ctx = none;
}

unfoldable pub body : {V : Type 0} → Codec V → UnwatchRequest → Outcome (List ℕ)
unfolding fill_event
body m req = written (fill_event m req.key)

unfoldable pub context : ℕ → UnwatchRequest → UnwatchRequest
context ctx req = record req { ctx = some ctx }
