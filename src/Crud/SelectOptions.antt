-- ===== src/Crud/SelectOptions.antt =====
-- crud/select.go: the options of `crud.select`.
use go_tarantool.Common.{ℕ, String, Bool, List, [], ◌∷◌, Option, none, replicate}
use go_tarantool.Msgpack.{Codec}
use go_tarantool.Crud.Values.{Structs}
use go_tarantool.Crud.Options.{
  given, assign, encode_options, timeout_opt_name, vshard_router_opt_name, fields_opt_name,
  bucket_id_opt_name, mode_opt_name, prefer_replica_opt_name, balance_opt_name, first_opt_name,
  after_opt_name, batch_size_opt_name, force_map_call_opt_name, fullscan_opt_name,
}

pub record SelectOpts (V : Type 0) : Type 0 where
  pub timeout : Option ℕ
  pub vshard_router : Option String
  pub fields : Option V
  pub bucket_id : Option ℕ
  pub mode : Option String
  pub prefer_replica : Option Bool
  pub balance : Option Bool
  pub first : Option ℕ
  pub after : Option V
  pub batch_size : Option ℕ
  pub force_map_call : Option Bool
  pub fullscan : Option Bool

module _ {V : Type 0} where
  abbrev pub no_select_opts : SelectOpts V
  no_select_opts = record {
    timeout = none;
    vshard_router = none;
    fields = none;
    bucket_id = none;
    mode = none;
    prefer_replica = none;
    balance = none;
    first = none;
    after = none;
    batch_size = none;
    force_map_call = none;
    fullscan = none;
  }

module _ {V : Type 0} (m : Codec V) (s : Structs V) where
  unfoldable pub encode_select_opts : SelectOpts V → Option (List ℕ)
  unfolding encode_options
  encode_select_opts opts =
      encode_options m s
        (timeout_opt_name ∷ vshard_router_opt_name ∷ fields_opt_name ∷ bucket_id_opt_name
          ∷ mode_opt_name ∷ prefer_replica_opt_name ∷ balance_opt_name ∷ first_opt_name
          ∷ after_opt_name ∷ batch_size_opt_name ∷ force_map_call_opt_name ∷ fullscan_opt_name ∷ [])
        (assign
          ((0, given s.unsigned opts.timeout)
            ∷ (1, given m.text opts.vshard_router)
            ∷ (2, opts.fields)
            ∷ (3, given s.unsigned opts.bucket_id)
            ∷ (4, given m.text opts.mode)
            ∷ (5, given s.flag opts.prefer_replica)
            ∷ (6, given s.flag opts.balance)
            ∷ (7, given s.integer opts.first)
            ∷ (8, opts.after)
            ∷ (8, given s.unsigned opts.batch_size)
            ∷ (8, given s.flag opts.force_map_call)
            ∷ (8, given s.flag opts.fullscan)
            ∷ [])
          (replicate 12 none))
