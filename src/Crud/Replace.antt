-- ===== src/Crud/Replace.antt =====
-- crud/replace.go: `ReplaceRequest`, a call of crud.replace.
use go_tarantool.Common.{ℕ, String, List, [], ◌∷◌, Option, none, Outcome}
use go_tarantool.Msgpack.{Codec}
use go_tarantool.Request.Call
use go_tarantool.Crud.Values.{Structs, or_empty}
use go_tarantool.Crud.Options.{
  SimpleOperationOpts, no_simple_operation_opts, encode_simple_operation_opts,
}
use go_tarantool.Crud.Base.{SpaceRequest, new_space, space_context}

pub record ReplaceRequest (V : Type 0) : Type 0 where
  pub base : SpaceRequest V
  pub tuple : Option V
  pub opts : SimpleOperationOpts V

module _ {V : Type 0} where
  unfoldable pub new : String → ReplaceRequest V
  unfolding new_space
  new space = record {
    base = new_space "crud.replace" space;
    tuple = none;
    opts = no_simple_operation_opts;
  }

  unfoldable pub set_tuple : Option V → ReplaceRequest V → ReplaceRequest V
  set_tuple tuple req = record req { tuple = tuple }

  unfoldable pub set_opts : SimpleOperationOpts V → ReplaceRequest V → ReplaceRequest V
  set_opts opts req = record req { opts = opts }

  unfoldable pub body : Codec V → Structs V → ReplaceRequest V → Outcome (List ℕ)
  unfolding Call.body Call.set_args encode_simple_operation_opts
  body m s req =
      let args = s.as_array (
        m.text req.base.space
        ∷ or_empty m s req.tuple
        ∷ s.custom (encode_simple_operation_opts m s req.opts)
        ∷ []) in
      Call.body m (Call.set_args args req.base.base.impl)

  unfoldable pub context : ℕ → ReplaceRequest V → ReplaceRequest V
  unfolding space_context
  context ctx req = record req { base = space_context ctx req.base }
