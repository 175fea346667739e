-- ===== src/Crud/Select.antt =====
-- crud/select.go: `SelectRequest`, a call of crud.select.
use go_tarantool.Common.{ℕ, String, List, [], ◌∷◌, Option, none, Outcome}
use go_tarantool.Msgpack.{Codec}
use go_tarantool.Request.Call
use go_tarantool.Crud.Values.{Structs, Condition, conditions_value}
use go_tarantool.Crud.SelectOptions.{SelectOpts, no_select_opts, encode_select_opts}
use go_tarantool.Crud.Base.{SpaceRequest, new_space, space_context}

pub record SelectRequest (V : Type 0) : Type 0 where
  pub base : SpaceRequest V
  pub conditions : Option (List (Condition V))
  pub opts : SelectOpts V

module _ {V : Type 0} where
  unfoldable pub new : String → SelectRequest V
  unfolding new_space
  new space = record {
    base = new_space "crud.select" space;
    conditions = none;
    opts = no_select_opts;
  }

  unfoldable pub set_conditions : Option (List (Condition V)) → SelectRequest V → SelectRequest V
  set_conditions conditions req = record req { conditions = conditions }

  unfoldable pub set_opts : SelectOpts V → SelectRequest V → SelectRequest V
  set_opts opts req = record req { opts = opts }

  unfoldable pub body : Codec V → Structs V → SelectRequest V → Outcome (List ℕ)
  unfolding Call.body Call.set_args encode_select_opts
  body m s req =
      let args = s.as_array (
        m.text req.base.space
        ∷ conditions_value m s req.conditions
        ∷ s.custom (encode_select_opts m s req.opts)
        ∷ []) in
      Call.body m (Call.set_args args req.base.base.impl)

  unfoldable pub context : ℕ → SelectRequest V → SelectRequest V
  unfolding space_context
  context ctx req = record req { base = space_context ctx req.base }
