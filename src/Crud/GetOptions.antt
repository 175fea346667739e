-- ===== src/Crud/GetOptions.antt =====
-- crud/get.go: the options of `crud.get`.
use go_tarantool.Common.{ℕ, String, Bool, List, [], ◌∷◌, Option, none, replicate}
use go_tarantool.Msgpack.{Codec}
use go_tarantool.Crud.Values.{Structs}
use go_tarantool.Crud.Options.{
  given, assign, encode_options, timeout_opt_name, vshard_router_opt_name, fields_opt_name,
  bucket_id_opt_name, mode_opt_name, prefer_replica_opt_name, balance_opt_name,
}

pub record GetOpts (V : Type 0) : Type 0 where
  pub timeout : Option ℕ
  pub vshard_router : Option String
  pub fields : Option V
  pub bucket_id : Option ℕ
  pub mode : Option String
  pub prefer_replica : Option Bool
  pub balance : Option Bool

module _ {V : Type 0} where
  abbrev pub no_get_opts : GetOpts V
  no_get_opts = record {
    timeout = none;
    vshard_router = none;
    fields = none;
    bucket_id = none;
    mode = none;
    prefer_replica = none;
    balance = none;
  }

module _ {V : Type 0} (m : Codec V) (s : Structs V) where
  unfoldable pub encode_get_opts : GetOpts V → Option (List ℕ)
  unfolding encode_options
  encode_get_opts opts =
      encode_options m s
        (timeout_opt_name ∷ vshard_router_opt_name ∷ fields_opt_name ∷ bucket_id_opt_name
          ∷ mode_opt_name ∷ prefer_replica_opt_name ∷ balance_opt_name ∷ [])
        (assign
          ((0, given s.unsigned opts.timeout)
            ∷ (1, given m.text opts.vshard_router)
            ∷ (1, given s.unsigned opts.bucket_id)
            ∷ (2, given m.text opts.mode)
            ∷ (3, given s.flag opts.prefer_replica)
            ∷ (4, given s.flag opts.balance)
            ∷ [])
          (replicate 7 none))
