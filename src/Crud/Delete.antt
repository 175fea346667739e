-- ===== src/Crud/Delete.antt =====
-- crud/delete.go: `DeleteRequest`, a call of crud.delete.
use go_tarantool.Common.{ℕ, String, List, [], ◌∷◌, Option, none, Outcome}
use go_tarantool.Msgpack.{Codec}
use go_tarantool.Request.Call
use go_tarantool.Crud.Values.{Structs, or_empty}
use go_tarantool.Crud.Options.{
  SimpleOperationOpts, no_simple_operation_opts, encode_simple_operation_opts,
}
use go_tarantool.Crud.Base.{SpaceRequest, new_space, space_context}

pub record DeleteRequest (V : Type 0) : Type 0 where
  pub base : SpaceRequest V
  pub key : Option V
  pub opts : SimpleOperationOpts V

module _ {V : Type 0} where
  unfoldable pub new : String → DeleteRequest V
  unfolding new_space
  new space = record {
    base = new_space "crud.delete" space;
    key = none;
    opts = no_simple_operation_opts;
  }

  unfoldable pub set_key : Option V → DeleteRequest V → DeleteRequest V
  set_key key req = record req { key = key }

  unfoldable pub set_opts : SimpleOperationOpts V → DeleteRequest V → DeleteRequest V
  set_opts opts req = record req { opts = opts }

  unfoldable pub body : Codec V → Structs V → DeleteRequest V → Outcome (List ℕ)
  unfolding Call.body Call.set_args encode_simple_operation_opts
  body m s req =
      let args = s.as_array (
        m.text req.base.space
        ∷ or_empty m s req.key
        ∷ s.custom (encode_simple_operation_opts m s req.opts)
        ∷ []) in
      Call.body m (Call.set_args args req.base.base.impl)

  unfoldable pub context : ℕ → DeleteRequest V → DeleteRequest V
  unfolding space_context
  context ctx req = record req { base = space_context ctx req.base }
