-- ===== src/Crud/Stats.antt =====
-- crud/stats.go: `StatsRequest`, a call of crud.stats.
use go_tarantool.Common.{ℕ, String, List, [], ◌∷◌, Option, none, some, Outcome}
use go_tarantool.Msgpack.{Codec}
use go_tarantool.Request.Call
use go_tarantool.Crud.Options.{make_opt}
use go_tarantool.Crud.Base.{BaseRequest, new_call, call_context}

pub record StatsRequest (V : Type 0) : Type 0 where
  pub base : BaseRequest V
  pub space : Option String

module _ {V : Type 0} where
  unfoldable pub new : StatsRequest V
  unfolding new_call
  new = record { base = new_call "crud.stats"; space = none }

  unfoldable pub set_space : String → StatsRequest V → StatsRequest V
  unfolding make_opt
  set_space space req = record req { space = make_opt space }

  abbrev pub stats_args : Codec V → Option String → V
  stats_args m none = m.slice []
  stats_args m (some value) = m.slice (m.text value ∷ [])

  unfoldable pub body : Codec V → StatsRequest V → Outcome (List ℕ)
  unfolding Call.body Call.set_args
  body m req = Call.body m (Call.set_args (stats_args m req.space) req.base.impl)

  unfoldable pub context : ℕ → StatsRequest V → StatsRequest V
  unfolding call_context
  context ctx req = record req { base = call_context ctx req.base }
