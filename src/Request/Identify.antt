-- ===== src/Request/Identify.antt =====
-- protocol.go: `ProtocolInfo` and `IdRequest`. The features are `none` for a nil slice; the authentication
-- method is left out, the request does not send it.
use go_tarantool.Common.{ℕ, List, [], ◌∷◌, Option, none, some, Outcome}
use go_tarantool.Request.Base.{BaseRequest, new_base, set_ctx, written}
use go_tarantool.Msgpack.{Codec}
use go_tarantool.Request.Fill.{fill_id}
use go_tarantool.Iproto.{id_request_code}

pub record ProtocolInfo : Type 0 where
  pub version : ℕ
  pub features : Option (List ℕ)

unfoldable pub clone : ProtocolInfo → ProtocolInfo
clone info = info

abbrev pub client_protocol_info : ProtocolInfo
client_protocol_info = record { version = 4; features = some (0 ∷ 1 ∷ 2 ∷ 3 ∷ 4 ∷ []) }

pub record IdRequest : Type 0 where
  pub base : BaseRequest
  pub protocol_info : ProtocolInfo

unfoldable pub new : ProtocolInfo → IdRequest
unfolding clone
new info = record { base = new_base id_request_code; protocol_info = clone info }

abbrev pub features_of : Option (List ℕ) → List ℕ
features_of none = []
features_of (some features) = features

unfoldable pub body : {V : Type 0} → Codec V → IdRequest → Outcome (List ℕ)
unfolding fill_id
body m req = written (fill_id m req.protocol_info.version (features_of req.protocol_info.features))

unfoldable pub context : ℕ → IdRequest → IdRequest
unfolding set_ctx
context ctx req = record req { base = set_ctx ctx req.base }
