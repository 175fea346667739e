-- ===== src/Crud/Max.antt =====
-- crud/max.go: `MaxRequest`, a call of crud.max.
use go_tarantool.Common.{ℕ, String, List, [], ◌∷◌, Option, none, Outcome}
use go_tarantool.Msgpack.{Codec}
use go_tarantool.Request.Call
use go_tarantool.Crud.Values.{Structs, or_nil}
use go_tarantool.Crud.Options.{BorderOpts, no_border_opts, encode_border_opts}
use go_tarantool.Crud.Base.{SpaceRequest, new_space, space_context}

pub record MaxRequest (V : Type 0) : Type 0 where
  pub base : SpaceRequest V
  pub index : Option V
  pub opts : BorderOpts V

module _ {V : Type 0} where
  unfoldable pub new : String → MaxRequest V
  unfolding new_space
  new space = record { base = new_space "crud.max" space; index = none; opts = no_border_opts }

  unfoldable pub set_index : Option V → MaxRequest V → MaxRequest V
  set_index index req = record req { index = index }

  unfoldable pub set_opts : BorderOpts V → MaxRequest V → MaxRequest V
  set_opts opts req = record req { opts = opts }

  unfoldable pub body : Codec V → Structs V → MaxRequest V → Outcome (List ℕ)
  unfolding Call.body Call.set_args encode_border_opts
  body m s req =
      let args = s.as_array (
        m.text req.base.space
        ∷ or_nil m s req.index
        ∷ s.custom (encode_border_opts m s req.opts)
        ∷ []) in
      Call.body m (Call.set_args args req.base.base.impl)

  unfoldable pub context : ℕ → MaxRequest V → MaxRequest V
  unfolding space_context
  context ctx req = record req { base = space_context ctx req.base }
