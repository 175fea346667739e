-- ===== src/Crud/Options.antt =====
-- crud/options.go: the options of the crud requests. An option that is not given is `none`.
use go_tarantool.Common.{
  ℕ, ◌+◌, String, Bool, true, false, List, [], ◌∷◌, ◌++◌, Option, none, some, if◌then◌else◌, ltb,
  set, replicate,
}
use go_tarantool.Msgpack.{Codec}
use go_tarantool.Crud.Values.{Structs}

abbrev pub timeout_opt_name : String
timeout_opt_name = "timeout"

abbrev pub vshard_router_opt_name : String
vshard_router_opt_name = "vshard_router"

abbrev pub fields_opt_name : String
fields_opt_name = "fields"

abbrev pub bucket_id_opt_name : String
bucket_id_opt_name = "bucket_id"

abbrev pub skip_nullability_check_on_flatten_opt_name : String
skip_nullability_check_on_flatten_opt_name = "skip_nullability_check_on_flatten"

abbrev pub stop_on_error_opt_name : String
stop_on_error_opt_name = "stop_on_error"

abbrev pub rollback_on_error_opt_name : String
rollback_on_error_opt_name = "rollback_on_error"

abbrev pub mode_opt_name : String
mode_opt_name = "mode"

abbrev pub prefer_replica_opt_name : String
prefer_replica_opt_name = "prefer_replica"

abbrev pub balance_opt_name : String
balance_opt_name = "balance"

abbrev pub yield_every_opt_name : String
yield_every_opt_name = "yield_every"

abbrev pub force_map_call_opt_name : String
force_map_call_opt_name = "force_map_call"

abbrev pub fullscan_opt_name : String
fullscan_opt_name = "fullscan"

abbrev pub first_opt_name : String
first_opt_name = "first"

abbrev pub after_opt_name : String
after_opt_name = "after"

abbrev pub batch_size_opt_name : String
batch_size_opt_name = "batch_size"

-- `MakeOptUint`, `MakeOptInt`, `MakeOptString`, `MakeOptBool` and `MakeOptTuple`
unfoldable pub make_opt : {A : Type 0} → A → Option A
make_opt value = some value

abbrev pub is_given : {A : Type 0} → Option A → Bool
is_given none = false
is_given (some v) = true

-- The value of an option as an `interface{}`.
abbrev pub given : {A V : Type 0} → (A → V) → Option A → Option V
given f none = none
given f (some a) = some (f a)

abbrev pub dropped : List ℕ → Option (List ℕ) → List ℕ
dropped partial none = partial
dropped partial (some bs) = bs

-- `values[i], exists[i] = …`, one behind the other.
abbrev pub assign : {A : Type 0} → List (ℕ × A) → List A → List A
assign [] slots = slots
assign ((i, v) ∷ writes) slots = assign writes (set slots i v)

module _ {V : Type 0} where
  unfoldable pub count_given : List (Option V) → ℕ
  count_given [] = 0
  count_given (none ∷ slots) = count_given slots
  count_given (some v ∷ slots) = count_given slots + 1

  module _ (m : Codec V) (s : Structs V) where
    -- `enc.Encode`, whose error is dropped.
    abbrev pub encode_dropped : V → List ℕ
    encode_dropped v = dropped (s.partial v) (m.encode v)

    unfoldable pub write_given : List String → List (Option V) → List ℕ
    write_given (name ∷ names) (none ∷ slots) = write_given names slots
    write_given (name ∷ names) (some v ∷ slots) =
        m.encode_string name ++ encode_dropped v ++ write_given names slots
    write_given names slots = []

    unfoldable pub encode_options : List String → List (Option V) → Option (List ℕ)
    unfolding count_given write_given
    encode_options names slots =
        let map_len = count_given slots in
        if ltb 0 map_len
        then some (m.encode_map_len map_len ++ write_given names slots)
        else some (m.encode_map_len map_len)

pub record BaseOpts (V : Type 0) : Type 0 where
  pub timeout : Option ℕ
  pub vshard_router : Option String

pub record SimpleOperationOpts (V : Type 0) : Type 0 where
  pub timeout : Option ℕ
  pub vshard_router : Option String
  pub fields : Option V
  pub bucket_id : Option ℕ

pub record SimpleOperationObjectOpts (V : Type 0) : Type 0 where
  pub timeout : Option ℕ
  pub vshard_router : Option String
  pub fields : Option V
  pub bucket_id : Option ℕ
  pub skip_nullability_check_on_flatten : Option Bool

pub record OperationManyOpts (V : Type 0) : Type 0 where
  pub timeout : Option ℕ
  pub vshard_router : Option String
  pub fields : Option V
  pub stop_on_error : Option Bool
  pub rollback_on_error : Option Bool

pub record OperationObjectManyOpts (V : Type 0) : Type 0 where
  pub timeout : Option ℕ
  pub vshard_router : Option String
  pub fields : Option V
  pub stop_on_error : Option Bool
  pub rollback_on_error : Option Bool
  pub skip_nullability_check_on_flatten : Option Bool

pub record BorderOpts (V : Type 0) : Type 0 where
  pub timeout : Option ℕ
  pub vshard_router : Option String
  pub fields : Option V

module _ {V : Type 0} where
  abbrev pub no_base_opts : BaseOpts V
  no_base_opts = record { timeout = none; vshard_router = none }

  abbrev pub no_simple_operation_opts : SimpleOperationOpts V
  no_simple_operation_opts = record {
    timeout = none;
    vshard_router = none;
    fields = none;
    bucket_id = none;
  }

  abbrev pub no_simple_operation_object_opts : SimpleOperationObjectOpts V
  no_simple_operation_object_opts = record {
    timeout = none;
    vshard_router = none;
    fields = none;
    bucket_id = none;
    skip_nullability_check_on_flatten = none;
  }

  abbrev pub no_operation_many_opts : OperationManyOpts V
  no_operation_many_opts = record {
    timeout = none;
    vshard_router = none;
    fields = none;
    stop_on_error = none;
    rollback_on_error = none;
  }

  abbrev pub no_operation_object_many_opts : OperationObjectManyOpts V
  no_operation_object_many_opts = record {
    timeout = none;
    vshard_router = none;
    fields = none;
    stop_on_error = none;
    rollback_on_error = none;
    skip_nullability_check_on_flatten = none;
  }

  abbrev pub no_border_opts : BorderOpts V
  no_border_opts = record { timeout = none; vshard_router = none; fields = none }

module _ {V : Type 0} (m : Codec V) (s : Structs V) where
  unfoldable pub encode_base_opts : BaseOpts V → Option (List ℕ)
  unfolding encode_options
  encode_base_opts opts = encode_options m s (timeout_opt_name ∷ vshard_router_opt_name ∷ []) (
      assign ((0, given s.unsigned opts.timeout) ∷ (1, given m.text opts.vshard_router) ∷ [])
        (replicate 2 none))

  unfoldable pub encode_simple_operation_opts : SimpleOperationOpts V → Option (List ℕ)
  unfolding encode_options
  encode_simple_operation_opts opts =
      encode_options m s
        (timeout_opt_name ∷ vshard_router_opt_name ∷ fields_opt_name ∷ bucket_id_opt_name ∷ [])
        (assign
          ((0, given s.unsigned opts.timeout)
            ∷ (1, given m.text opts.vshard_router)
            ∷ (2, opts.fields)
            ∷ (3, given s.unsigned opts.bucket_id)
            ∷ [])
          (replicate 4 none))

  unfoldable pub encode_simple_operation_object_opts : SimpleOperationObjectOpts V → Option (List ℕ)
  unfolding encode_options
  encode_simple_operation_object_opts opts =
      encode_options m s
        (timeout_opt_name ∷ vshard_router_opt_name ∷ fields_opt_name ∷ bucket_id_opt_name
          ∷ skip_nullability_check_on_flatten_opt_name ∷ [])
        (assign
          ((0, given s.unsigned opts.timeout)
            ∷ (1, given m.text opts.vshard_router)
            ∷ (2, opts.fields)
            ∷ (3, given s.unsigned opts.bucket_id)
            ∷ (4, given s.flag opts.skip_nullability_check_on_flatten)
            ∷ [])
          (replicate 5 none))

  unfoldable pub encode_operation_many_opts : OperationManyOpts V → Option (List ℕ)
  unfolding encode_options
  encode_operation_many_opts opts =
      encode_options m s
        (timeout_opt_name ∷ vshard_router_opt_name ∷ fields_opt_name ∷ stop_on_error_opt_name
          ∷ rollback_on_error_opt_name ∷ [])
        (assign
          ((0, given s.unsigned opts.timeout)
            ∷ (1, given m.text opts.vshard_router)
            ∷ (2, opts.fields)
            ∷ (3, given s.flag opts.stop_on_error)
            ∷ (4, given s.flag opts.rollback_on_error)
            ∷ [])
          (replicate 5 none))

  unfoldable pub encode_operation_object_many_opts : OperationObjectManyOpts V → Option (List ℕ)
  unfolding encode_options
  encode_operation_object_many_opts opts =
      encode_options m s
        (timeout_opt_name ∷ vshard_router_opt_name ∷ fields_opt_name ∷ stop_on_error_opt_name
          ∷ rollback_on_error_opt_name ∷ skip_nullability_check_on_flatten_opt_name ∷ [])
        (assign
          ((0, given s.unsigned opts.timeout)
            ∷ (1, given m.text opts.vshard_router)
            ∷ (2, opts.fields)
            ∷ (3, given s.flag opts.stop_on_error)
            ∷ (4, given s.flag opts.rollback_on_error)
            ∷ (5, given s.flag opts.skip_nullability_check_on_flatten)
            ∷ [])
          (replicate 6 none))

  unfoldable pub encode_border_opts : BorderOpts V → Option (List ℕ)
  unfolding encode_options
  encode_border_opts opts =
      encode_options m s (timeout_opt_name ∷ vshard_router_opt_name ∷ fields_opt_name ∷ []) (
        assign
          ((0, given s.unsigned opts.timeout)
            ∷ (1, given m.text opts.vshard_router)
            ∷ (2, opts.fields)
            ∷ [])
          (replicate 3 none))
