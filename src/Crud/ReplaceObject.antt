-- ===== src/Crud/ReplaceObject.antt =====
-- crud/replace.go: `ReplaceObjectRequest`, a call of crud.replace_object.
use go_tarantool.Common.{ℕ, String, List, [], ◌∷◌, Option, none, Outcome}
use go_tarantool.Msgpack.{Codec}
use go_tarantool.Request.Call
use go_tarantool.Crud.Values.{Structs, or_empty_map}
use go_tarantool.Crud.Options.{
  SimpleOperationObjectOpts, no_simple_operation_object_opts, encode_simple_operation_object_opts,
}
use go_tarantool.Crud.Base.{SpaceRequest, new_space, space_context}

pub record ReplaceObjectRequest (V : Type 0) : Type 0 where
  pub base : SpaceRequest V
  pub object : Option V
  pub opts : SimpleOperationObjectOpts V

module _ {V : Type 0} where
  unfoldable pub new : String → ReplaceObjectRequest V
  unfolding new_space
  new space = record {
    base = new_space "crud.replace_object" space;
    object = none;
    opts = no_simple_operation_object_opts;
  }

  unfoldable pub set_object : Option V → ReplaceObjectRequest V → ReplaceObjectRequest V
  set_object object req = record req { object = object }

  unfoldable pub set_opts :
      SimpleOperationObjectOpts V → ReplaceObjectRequest V → ReplaceObjectRequest V
  set_opts opts req = record req { opts = opts }

  unfoldable pub body : Codec V → Structs V → ReplaceObjectRequest V → Outcome (List ℕ)
  unfolding Call.body Call.set_args encode_simple_operation_object_opts
  body m s req =
      let args = s.as_array (
        m.text req.base.space
        ∷ or_empty_map m s req.object
        ∷ s.custom (encode_simple_operation_object_opts m s req.opts)
        ∷ []) in
      Call.body m (Call.set_args args req.base.base.impl)

  unfoldable pub context : ℕ → ReplaceObjectRequest V → ReplaceObjectRequest V
  unfolding space_context
  context ctx req = record req { base = space_context ctx req.base }
