-- ===== src/Crud/InsertObjectMany.antt =====
-- crud/insert_many.go: `InsertObjectManyRequest`, a call of crud.insert_object_many.
use go_tarantool.Common.{ℕ, String, List, [], ◌∷◌, Option, none, Outcome}
use go_tarantool.Msgpack.{Codec}
use go_tarantool.Request.Call
use go_tarantool.Crud.Values.{Structs, slice_or_empty}
use go_tarantool.Crud.Options.{
  OperationObjectManyOpts, no_operation_object_many_opts, encode_operation_object_many_opts,
}
use go_tarantool.Crud.Base.{SpaceRequest, new_space, space_context}

pub record InsertObjectManyRequest (V : Type 0) : Type 0 where
  pub base : SpaceRequest V
  pub objects : Option (List V)
  pub opts : OperationObjectManyOpts V

module _ {V : Type 0} where
  unfoldable pub new : String → InsertObjectManyRequest V
  unfolding new_space
  new space = record {
    base = new_space "crud.insert_object_many" space;
    objects = none;
    opts = no_operation_object_many_opts;
  }

  unfoldable pub set_objects :
      Option (List V) → InsertObjectManyRequest V → InsertObjectManyRequest V
  set_objects objects req = record req { objects = objects }

  unfoldable pub set_opts :
      OperationObjectManyOpts V → InsertObjectManyRequest V → InsertObjectManyRequest V
  set_opts opts req = record req { opts = opts }

  unfoldable pub body : Codec V → Structs V → InsertObjectManyRequest V → Outcome (List ℕ)
  unfolding Call.body Call.set_args encode_operation_object_many_opts
  body m s req =
      let args = s.as_array (
        m.text req.base.space
        ∷ slice_or_empty m s req.objects
        ∷ s.custom (encode_operation_object_many_opts m s req.opts)
        ∷ []) in
      Call.body m (Call.set_args args req.base.base.impl)

  unfoldable pub context : ℕ → InsertObjectManyRequest V → InsertObjectManyRequest V
  unfolding space_context
  context ctx req = record req { base = space_context ctx req.base }
