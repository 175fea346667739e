-- ===== src/Crud/Truncate.antt =====
-- crud/truncate.go: `TruncateRequest`, a call of crud.truncate.
use go_tarantool.Common.{ℕ, String, List, [], ◌∷◌, Outcome}
use go_tarantool.Msgpack.{Codec}
use go_tarantool.Request.Call
use go_tarantool.Crud.Values.{Structs}
use go_tarantool.Crud.Options.{BaseOpts, no_base_opts, encode_base_opts}
use go_tarantool.Crud.Base.{SpaceRequest, new_space, space_context}

pub record TruncateRequest (V : Type 0) : Type 0 where
  pub base : SpaceRequest V
  pub opts : BaseOpts V

module _ {V : Type 0} where
  unfoldable pub new : String → TruncateRequest V
  unfolding new_space
  new space = record { base = new_space "crud.truncate" space; opts = no_base_opts }

  unfoldable pub set_opts : BaseOpts V → TruncateRequest V → TruncateRequest V
  set_opts opts req = record req { opts = opts }

  unfoldable pub body : Codec V → Structs V → TruncateRequest V → Outcome (List ℕ)
  unfolding Call.body Call.set_args encode_base_opts
  body m s req =
      let args =
        s.as_array (m.text req.base.space ∷ s.custom (encode_base_opts m s req.opts) ∷ []) in
      Call.body m (Call.set_args args req.base.base.impl)

  unfoldable pub context : ℕ → TruncateRequest V → TruncateRequest V
  unfolding space_context
  context ctx req = record req { base = space_context ctx req.base }
