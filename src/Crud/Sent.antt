-- ===== src/Crud/Sent.antt =====
-- crud/options.go, count.go, get.go, select.go: which options go out, and under which names.
use go_tarantool.Common.{ℕ, ◌≡◌, String, Bool, List, [], ◌∷◌, Option, none, some}
use go_tarantool.Msgpack.{Codec}
use go_tarantool.Crud.Values.{Structs, IsStructs}
use go_tarantool.Crud.Options.{
  given, timeout_opt_name, vshard_router_opt_name, fields_opt_name, bucket_id_opt_name,
  skip_nullability_check_on_flatten_opt_name, stop_on_error_opt_name, rollback_on_error_opt_name,
  mode_opt_name, prefer_replica_opt_name, balance_opt_name, yield_every_opt_name,
  force_map_call_opt_name, fullscan_opt_name, first_opt_name, after_opt_name, batch_size_opt_name,
  BaseOpts, encode_base_opts, SimpleOperationOpts, encode_simple_operation_opts,
  SimpleOperationObjectOpts, encode_simple_operation_object_opts, OperationManyOpts,
  encode_operation_many_opts, OperationObjectManyOpts, encode_operation_object_many_opts,
  BorderOpts, encode_border_opts,
}
use go_tarantool.Crud.CountOptions.{CountOpts, encode_count_opts}
use go_tarantool.Crud.GetOptions.{GetOpts, encode_get_opts}
use go_tarantool.Crud.SelectOptions.{SelectOpts, encode_select_opts}
use go_tarantool.Crud.Pairs.{given_pairs, GivenEncodes, encode_pairs, encode_options-pairs}

-- The options of every request but `get` and `select`.
pub data Opts (V : Type 0) : Type 0 where
  base : BaseOpts V → Opts V
  simple : SimpleOperationOpts V → Opts V
  simple_object : SimpleOperationObjectOpts V → Opts V
  many : OperationManyOpts V → Opts V
  object_many : OperationObjectManyOpts V → Opts V
  border : BorderOpts V → Opts V
  count : CountOpts V → Opts V

module _ {V : Type 0} (m : Codec V) (s : Structs V) where
  -- The method `EncodeMsgpack` of the options.
  unfoldable pub encode_opts : Opts V → Option (List ℕ)
  unfolding encode_base_opts encode_simple_operation_opts encode_simple_operation_object_opts
      encode_operation_many_opts encode_operation_object_many_opts encode_border_opts
      encode_count_opts
  encode_opts (base opts) = encode_base_opts m s opts
  encode_opts (simple opts) = encode_simple_operation_opts m s opts
  encode_opts (simple_object opts) = encode_simple_operation_object_opts m s opts
  encode_opts (many opts) = encode_operation_many_opts m s opts
  encode_opts (object_many opts) = encode_operation_object_many_opts m s opts
  encode_opts (border opts) = encode_border_opts m s opts
  encode_opts (count opts) = encode_count_opts m s opts

  -- The documented options, by their names.
  abbrev pub named : Opts V → List (String × Option V)
  named (base opts) =
      (timeout_opt_name, given s.unsigned opts.timeout)
      ∷ (vshard_router_opt_name, given m.text opts.vshard_router)
      ∷ []
  named (simple opts) =
      (timeout_opt_name, given s.unsigned opts.timeout)
      ∷ (vshard_router_opt_name, given m.text opts.vshard_router)
      ∷ (fields_opt_name, opts.fields)
      ∷ (bucket_id_opt_name, given s.unsigned opts.bucket_id)
      ∷ []
  named (simple_object opts) =
      (timeout_opt_name, given s.unsigned opts.timeout)
      ∷ (vshard_router_opt_name, given m.text opts.vshard_router)
      ∷ (fields_opt_name, opts.fields)
      ∷ (bucket_id_opt_name, given s.unsigned opts.bucket_id)
      ∷ (
        skip_nullability_check_on_flatten_opt_name,
        given s.flag opts.skip_nullability_check_on_flatten,
      )
      ∷ []
  named (many opts) =
      (timeout_opt_name, given s.unsigned opts.timeout)
      ∷ (vshard_router_opt_name, given m.text opts.vshard_router)
      ∷ (fields_opt_name, opts.fields)
      ∷ (stop_on_error_opt_name, given s.flag opts.stop_on_error)
      ∷ (rollback_on_error_opt_name, given s.flag opts.rollback_on_error)
      ∷ []
  named (object_many opts) =
      (timeout_opt_name, given s.unsigned opts.timeout)
      ∷ (vshard_router_opt_name, given m.text opts.vshard_router)
      ∷ (fields_opt_name, opts.fields)
      ∷ (stop_on_error_opt_name, given s.flag opts.stop_on_error)
      ∷ (rollback_on_error_opt_name, given s.flag opts.rollback_on_error)
      ∷ (
        skip_nullability_check_on_flatten_opt_name,
        given s.flag opts.skip_nullability_check_on_flatten,
      )
      ∷ []
  named (border opts) =
      (timeout_opt_name, given s.unsigned opts.timeout)
      ∷ (vshard_router_opt_name, given m.text opts.vshard_router)
      ∷ (fields_opt_name, opts.fields)
      ∷ []
  named (count opts) =
      (timeout_opt_name, given s.unsigned opts.timeout)
      ∷ (vshard_router_opt_name, given m.text opts.vshard_router)
      ∷ (mode_opt_name, given m.text opts.mode)
      ∷ (prefer_replica_opt_name, given s.flag opts.prefer_replica)
      ∷ (balance_opt_name, given s.flag opts.balance)
      ∷ (yield_every_opt_name, given s.unsigned opts.yield_every)
      ∷ (bucket_id_opt_name, given s.unsigned opts.bucket_id)
      ∷ (force_map_call_opt_name, given s.flag opts.force_map_call)
      ∷ (fullscan_opt_name, given s.flag opts.fullscan)
      ∷ []

  -- The value of the option `fields`, a user's one.
  abbrev pub user_fields : Opts V → Option V
  user_fields (base opts) = none
  user_fields (simple opts) = opts.fields
  user_fields (simple_object opts) = opts.fields
  user_fields (many opts) = opts.fields
  user_fields (object_many opts) = opts.fields
  user_fields (border opts) = opts.fields
  user_fields (count opts) = none

  -- What `get` and `select` send under each name, and `none` under the others.
  abbrev pub sent_by_get : GetOpts V → List (String × Option V)
  sent_by_get opts =
      (timeout_opt_name, given s.unsigned opts.timeout)
      ∷ (vshard_router_opt_name, given s.unsigned opts.bucket_id)
      ∷ (fields_opt_name, given m.text opts.mode)
      ∷ (bucket_id_opt_name, given s.flag opts.prefer_replica)
      ∷ (mode_opt_name, given s.flag opts.balance)
      ∷ (prefer_replica_opt_name, none)
      ∷ (balance_opt_name, none)
      ∷ []

  abbrev pub sent_by_select : SelectOpts V → List (String × Option V)
  sent_by_select opts =
      (timeout_opt_name, given s.unsigned opts.timeout)
      ∷ (vshard_router_opt_name, given m.text opts.vshard_router)
      ∷ (fields_opt_name, opts.fields)
      ∷ (bucket_id_opt_name, given s.unsigned opts.bucket_id)
      ∷ (mode_opt_name, given m.text opts.mode)
      ∷ (prefer_replica_opt_name, given s.flag opts.prefer_replica)
      ∷ (balance_opt_name, given s.flag opts.balance)
      ∷ (first_opt_name, given s.integer opts.first)
      ∷ (after_opt_name, given s.flag opts.fullscan)
      ∷ (batch_size_opt_name, none)
      ∷ (force_map_call_opt_name, none)
      ∷ (fullscan_opt_name, none)
      ∷ []

module _ {V : Type 0} (m : Codec V) (s : Structs V) (structs : IsStructs m s) where
  unsigned-Encodes : (o : Option ℕ) → GivenEncodes m (given s.unsigned o)
  unsigned-Encodes none = tt
  unsigned-Encodes (some n) = structs.unsigned_some n

  integer-Encodes : (o : Option ℕ) → GivenEncodes m (given s.integer o)
  integer-Encodes none = tt
  integer-Encodes (some n) = structs.integer_some n

  flag-Encodes : (o : Option Bool) → GivenEncodes m (given s.flag o)
  flag-Encodes none = tt
  flag-Encodes (some b) = structs.flag_some b

  text-Encodes : (o : Option String) → GivenEncodes m (given m.text o)
  text-Encodes none = tt
  text-Encodes (some t) = (m.encode_string t, structs.text_some t)

  -- Every option that is given is sent, once and under its own name, in a msgpack map that announces as many
  -- pairs as follow, for each type of options but those of `get` and `select`; the option `fields`, if it
  -- is given, can be encoded.
  pub encode_opts-pairs :
      (opts : Opts V)
      → GivenEncodes m (user_fields m s opts)
      → encode_opts m s opts ≡ encode_pairs m (given_pairs (named m s opts))
  unfolding encode_opts encode_base_opts encode_simple_operation_opts
      encode_simple_operation_object_opts encode_operation_many_opts
      encode_operation_object_many_opts encode_border_opts encode_count_opts
  encode_opts-pairs (base opts) h =
      encode_options-pairs m s (named m s (base opts))
        (unsigned-Encodes opts.timeout, (text-Encodes opts.vshard_router, tt))
  encode_opts-pairs (simple opts) h = encode_options-pairs m s (named m s (simple opts)) (
    unsigned-Encodes opts.timeout,
    (text-Encodes opts.vshard_router, (h, (unsigned-Encodes opts.bucket_id, tt))),
  )
  encode_opts-pairs (simple_object opts) h =
      encode_options-pairs m s (named m s (simple_object opts)) (
        unsigned-Encodes opts.timeout,
        (
          text-Encodes opts.vshard_router,
          (
            h,
            (
              unsigned-Encodes opts.bucket_id,
              (flag-Encodes opts.skip_nullability_check_on_flatten, tt),
            ),
          ),
        ),
      )
  encode_opts-pairs (many opts) h = encode_options-pairs m s (named m s (many opts)) (
    unsigned-Encodes opts.timeout,
    (
      text-Encodes opts.vshard_router,
      (h, (flag-Encodes opts.stop_on_error, (flag-Encodes opts.rollback_on_error, tt))),
    ),
  )
  encode_opts-pairs (object_many opts) h = encode_options-pairs m s (named m s (object_many opts)) (
    unsigned-Encodes opts.timeout,
    (
      text-Encodes opts.vshard_router,
      (
        h,
        (
          flag-Encodes opts.stop_on_error,
          (
            flag-Encodes opts.rollback_on_error,
            (flag-Encodes opts.skip_nullability_check_on_flatten, tt),
          ),
        ),
      ),
    ),
  )
  encode_opts-pairs (border opts) h =
      encode_options-pairs m s (named m s (border opts))
        (unsigned-Encodes opts.timeout, (text-Encodes opts.vshard_router, (h, tt)))
  encode_opts-pairs (count opts) h = encode_options-pairs m s (named m s (count opts)) (
    unsigned-Encodes opts.timeout,
    (
      text-Encodes opts.vshard_router,
      (
        text-Encodes opts.mode,
        (
          flag-Encodes opts.prefer_replica,
          (
            flag-Encodes opts.balance,
            (
              unsigned-Encodes opts.yield_every,
              (
                unsigned-Encodes opts.bucket_id,
                (flag-Encodes opts.force_map_call, (flag-Encodes opts.fullscan, tt)),
              ),
            ),
          ),
        ),
      ),
    ),
  )

  -- The options of `get` go out under the names of others: the bucket as "vshard_router", the mode as
  -- "fields", the replica's preference as "bucket_id" and the balance as "mode"; the router and the fields are lost.
  pub encode_get_opts-pairs :
      (opts : GetOpts V)
      → encode_get_opts m s opts ≡ encode_pairs m (given_pairs (sent_by_get m s opts))
  unfolding encode_get_opts
  encode_get_opts-pairs opts = encode_options-pairs m s (sent_by_get m s opts) (
    unsigned-Encodes opts.timeout,
    (
      unsigned-Encodes opts.bucket_id,
      (
        text-Encodes opts.mode,
        (flag-Encodes opts.prefer_replica, (flag-Encodes opts.balance, (tt, (tt, tt)))),
      ),
    ),
  )

  -- The first eight options of `select` go out under their names, if the option `fields` can be encoded;
  -- the full scan goes out as "after", and the options `after`, `batch_size` and `force_map_call` are lost.
  pub encode_select_opts-pairs :
      (opts : SelectOpts V)
      → GivenEncodes m opts.fields
      → encode_select_opts m s opts ≡ encode_pairs m (given_pairs (sent_by_select m s opts))
  unfolding encode_select_opts
  encode_select_opts-pairs opts h = encode_options-pairs m s (sent_by_select m s opts) (
    unsigned-Encodes opts.timeout,
    (
      text-Encodes opts.vshard_router,
      (
        h,
        (
          unsigned-Encodes opts.bucket_id,
          (
            text-Encodes opts.mode,
            (
              flag-Encodes opts.prefer_replica,
              (
                flag-Encodes opts.balance,
                (integer-Encodes opts.first, (flag-Encodes opts.fullscan, (tt, (tt, (tt, tt))))),
              ),
            ),
          ),
        ),
      ),
    ),
  )
