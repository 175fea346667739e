-- ===== src/Crud/InsertMany.antt =====
-- crud/insert_many.go: `InsertManyRequest`, a call of crud.insert_many.
use go_tarantool.Common.{ℕ, String, List, [], ◌∷◌, Option, none, Outcome}
use go_tarantool.Msgpack.{Codec}
use go_tarantool.Request.Call
use go_tarantool.Crud.Values.{Structs, slice_or_empty}
use go_tarantool.Crud.Options.{
  OperationManyOpts, no_operation_many_opts, encode_operation_many_opts,
}
use go_tarantool.Crud.Base.{SpaceRequest, new_space, space_context}

pub record InsertManyRequest (V : Type 0) : Type 0 where
  pub base : SpaceRequest V
  pub tuples : Option (List V)
  pub opts : OperationManyOpts V

module _ {V : Type 0} where
  unfoldable pub new : String → InsertManyRequest V
  unfolding new_space
  new space = record {
    base = new_space "crud.insert_many" space;
    tuples = none;
    opts = no_operation_many_opts;
  }

  unfoldable pub set_tuples : Option (List V) → InsertManyRequest V → InsertManyRequest V
  set_tuples tuples req = record req { tuples = tuples }

  unfoldable pub set_opts : OperationManyOpts V → InsertManyRequest V → InsertManyRequest V
  set_opts opts req = record req { opts = opts }

  unfoldable pub body : Codec V → Structs V → InsertManyRequest V → Outcome (List ℕ)
  unfolding Call.body Call.set_args encode_operation_many_opts
  body m s req =
      let args = s.as_array (
        m.text req.base.space
        ∷ slice_or_empty m s req.tuples
        ∷ s.custom (encode_operation_many_opts m s req.opts)
        ∷ []) in
      Call.body m (Call.set_args args req.base.base.impl)

  unfoldable pub context : ℕ → InsertManyRequest V → InsertManyRequest V
  unfolding space_context
  context ctx req = record req { base = space_context ctx req.base }
