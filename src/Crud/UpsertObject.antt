-- ===== src/Crud/UpsertObject.antt =====
-- crud/upsert.go: `UpsertObjectRequest`, a call of crud.upsert_object.
use go_tarantool.Common.{ℕ, String, List, [], ◌∷◌, Option, none, some, Outcome}
use go_tarantool.Msgpack.{Codec}
use go_tarantool.Request.Call
use go_tarantool.Crud.Values.{Structs, Operation, operations_value, or_empty_map}
use go_tarantool.Crud.Options.{
  SimpleOperationOpts, no_simple_operation_opts, encode_simple_operation_opts,
}
use go_tarantool.Crud.Base.{SpaceRequest, new_space, space_context}

pub record UpsertObjectRequest (V : Type 0) : Type 0 where
  pub base : SpaceRequest V
  pub object : Option V
  pub operations : Option (List (Operation V))
  pub opts : SimpleOperationOpts V

module _ {V : Type 0} where
  unfoldable pub new : String → UpsertObjectRequest V
  unfolding new_space
  new space = record {
    base = new_space "crud.upsert_object" space;
    object = none;
    operations = some [];
    opts = no_simple_operation_opts;
  }

  unfoldable pub set_object : Option V → UpsertObjectRequest V → UpsertObjectRequest V
  set_object object req = record req { object = object }

  unfoldable pub set_operations :
      Option (List (Operation V)) → UpsertObjectRequest V → UpsertObjectRequest V
  set_operations operations req = record req { operations = operations }

  unfoldable pub set_opts : SimpleOperationOpts V → UpsertObjectRequest V → UpsertObjectRequest V
  set_opts opts req = record req { opts = opts }

  unfoldable pub body : Codec V → Structs V → UpsertObjectRequest V → Outcome (List ℕ)
  unfolding Call.body Call.set_args encode_simple_operation_opts
  body m s req =
      let args = s.as_array (
        m.text req.base.space
        ∷ or_empty_map m s req.object
        ∷ operations_value m s req.operations
        ∷ s.custom (encode_simple_operation_opts m s req.opts)
        ∷ []) in
      Call.body m (Call.set_args args req.base.base.impl)

  unfoldable pub context : ℕ → UpsertObjectRequest V → UpsertObjectRequest V
  unfolding space_context
  context ctx req = record req { base = space_context ctx req.base }
