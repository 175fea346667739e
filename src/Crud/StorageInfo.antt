-- ===== src/Crud/StorageInfo.antt =====
-- crud/storage_info.go: `StorageInfoRequest`, a call of crud.storage_info.
use go_tarantool.Common.{ℕ, List, [], ◌∷◌, Outcome}
use go_tarantool.Msgpack.{Codec}
use go_tarantool.Request.Call
use go_tarantool.Crud.Values.{Structs}
use go_tarantool.Crud.Options.{BaseOpts, no_base_opts, encode_base_opts}
use go_tarantool.Crud.Base.{BaseRequest, new_call, call_context}

pub record StorageInfoRequest (V : Type 0) : Type 0 where
  pub base : BaseRequest V
  pub opts : BaseOpts V

module _ {V : Type 0} where
  unfoldable pub new : StorageInfoRequest V
  unfolding new_call
  new = record { base = new_call "crud.storage_info"; opts = no_base_opts }

  unfoldable pub set_opts : BaseOpts V → StorageInfoRequest V → StorageInfoRequest V
  set_opts opts req = record req { opts = opts }

  unfoldable pub body : Codec V → Structs V → StorageInfoRequest V → Outcome (List ℕ)
  unfolding Call.body Call.set_args encode_base_opts
  body m s req =
      let args = s.as_array (s.custom (encode_base_opts m s req.opts) ∷ []) in
      Call.body m (Call.set_args args req.base.impl)

  unfoldable pub context : ℕ → StorageInfoRequest V → StorageInfoRequest V
  unfolding call_context
  context ctx req = record req { base = call_context ctx req.base }
