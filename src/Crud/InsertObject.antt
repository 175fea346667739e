-- ===== src/Crud/InsertObject.antt =====
-- crud/insert.go: `InsertObjectRequest`, a call of crud.insert_object.
use go_tarantool.Common.{ℕ, String, List, [], ◌∷◌, Option, none, Outcome}
use go_tarantool.Msgpack.{Codec}
use go_tarantool.Request.Call
use go_tarantool.Crud.Values.{Structs, or_empty_map}
use go_tarantool.Crud.Options.{
  SimpleOperationObjectOpts, no_simple_operation_object_opts, encode_simple_operation_object_opts,
}
use go_tarantool.Crud.Base.{SpaceRequest, new_space, space_context}

pub record InsertObjectRequest (V : Type 0) : Type 0 where
  pub base : SpaceRequest V
  pub object : Option V
  pub opts : SimpleOperationObjectOpts V

module _ {V : Type 0} where
  unfoldable pub new : String → InsertObjectRequest V
  unfolding new_space
  new space = record {
    base = new_space "crud.insert_object" space;
    object = none;
    opts = no_simple_operation_object_opts;
  }

  unfoldable pub set_object : Option V → InsertObjectRequest V → InsertObjectRequest V
  set_object object req = record req { object = object }

  unfoldable pub set_opts :
      SimpleOperationObjectOpts V → InsertObjectRequest V → InsertObjectRequest V
  set_opts opts req = record req { opts = opts }

  unfoldable pub body : Codec V → Structs V → InsertObjectRequest V → Outcome (List ℕ)
  unfolding Call.body Call.set_args encode_simple_operation_object_opts
  body m s req =
      let args = s.as_array (
        m.text req.base.space
        ∷ or_empty_map m s req.object
        ∷ s.custom (encode_simple_operation_object_opts m s req.opts)
        ∷ []) in
      Call.body m (Call.set_args args req.base.base.impl)

  unfoldable pub context : ℕ → InsertObjectRequest V → InsertObjectRequest V
  unfolding space_context
  context ctx req = record req { base = space_context ctx req.base }
