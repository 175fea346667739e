-- ===== src/Crud/UpsertMany.antt =====
-- crud/upsert_many.go: `UpsertManyRequest`, a call of crud.upsert_many.
use go_tarantool.Common.{ℕ, String, List, [], ◌∷◌, Option, some, Outcome}
use go_tarantool.Msgpack.{Codec}
use go_tarantool.Request.Call
use go_tarantool.Crud.Values.{Structs, OperationsData, operations_data_value}
use go_tarantool.Crud.Options.{
  OperationManyOpts, no_operation_many_opts, encode_operation_many_opts,
}
use go_tarantool.Crud.Base.{SpaceRequest, new_space, space_context}

pub record UpsertManyRequest (V : Type 0) : Type 0 where
  pub base : SpaceRequest V
  pub tuples_operations_data : Option (List (OperationsData V))
  pub opts : OperationManyOpts V

module _ {V : Type 0} where
  unfoldable pub new : String → UpsertManyRequest V
  unfolding new_space
  new space = record {
    base = new_space "crud.upsert_many" space;
    tuples_operations_data = some [];
    opts = no_operation_many_opts;
  }

  unfoldable pub set_tuples_operations_data :
      Option (List (OperationsData V)) → UpsertManyRequest V → UpsertManyRequest V
  set_tuples_operations_data tuples_operations_data req = record req {
    tuples_operations_data = tuples_operations_data;
  }

  unfoldable pub set_opts : OperationManyOpts V → UpsertManyRequest V → UpsertManyRequest V
  set_opts opts req = record req { opts = opts }

  unfoldable pub body : Codec V → Structs V → UpsertManyRequest V → Outcome (List ℕ)
  unfolding Call.body Call.set_args encode_operation_many_opts
  body m s req =
      let args = s.as_array (
        m.text req.base.space
        ∷ operations_data_value m s req.tuples_operations_data
        ∷ s.custom (encode_operation_many_opts m s req.opts)
        ∷ []) in
      Call.body m (Call.set_args args req.base.base.impl)

  unfoldable pub context : ℕ → UpsertManyRequest V → UpsertManyRequest V
  unfolding space_context
  context ctx req = record req { base = space_context ctx req.base }
