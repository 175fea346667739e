-- ===== src/Crud/CountOptions.antt =====
-- crud/count.go: the options of `crud.count`.
use go_tarantool.Common.{ℕ, String, Bool, List, [], ◌∷◌, Option, none, replicate}
use go_tarantool.Msgpack.{Codec}
use go_tarantool.Crud.Values.{Structs}
use go_tarantool.Crud.Options.{
  given, assign, encode_options, timeout_opt_name, vshard_router_opt_name, mode_opt_name,
  prefer_replica_opt_name, balance_opt_name, yield_every_opt_name, bucket_id_opt_name,
  force_map_call_opt_name, fullscan_opt_name,
}

pub record CountOpts (V : Type 0) : Type 0 where
  pub timeout : Option ℕ
  pub vshard_router : Option String
  pub mode : Option String
  pub prefer_replica : Option Bool
  pub balance : Option Bool
  pub yield_every : Option ℕ
  pub bucket_id : Option ℕ
  pub force_map_call : Option Bool
  pub fullscan : Option Bool

module _ {V : Type 0} where
  abbrev pub no_count_opts : CountOpts V
  no_count_opts = record {
    timeout = none;
    vshard_router = none;
    mode = none;
    prefer_replica = none;
    balance = none;
    yield_every = none;
    bucket_id = none;
    force_map_call = none;
    fullscan = none;
  }

module _ {V : Type 0} (m : Codec V) (s : Structs V) where
  unfoldable pub encode_count_opts : CountOpts V → Option (List ℕ)
  unfolding encode_options
  encode_count_opts opts =
      encode_options m s
        (timeout_opt_name ∷ vshard_router_opt_name ∷ mode_opt_name ∷ prefer_replica_opt_name
          ∷ balance_opt_name ∷ yield_every_opt_name ∷ bucket_id_opt_name ∷ force_map_call_opt_name
          ∷ fullscan_opt_name ∷ [])
        (assign
          ((0, given s.unsigned opts.timeout)
            ∷ (1, given m.text opts.vshard_router)
            ∷ (2, given m.text opts.mode)
            ∷ (3, given s.flag opts.prefer_replica)
            ∷ (4, given s.flag opts.balance)
            ∷ (5, given s.unsigned opts.yield_every)
            ∷ (6, given s.unsigned opts.bucket_id)
            ∷ (7, given s.flag opts.force_map_call)
            ∷ (8, given s.flag opts.fullscan)
            ∷ [])
          (replicate 9 none))
