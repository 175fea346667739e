-- ===== src/Crud/Calls.antt =====
-- crud/: that the body of a request is a call of its function with its arguments and its options.
use go_tarantool.Common.{
  ℕ, ◌+◌, ◌≤◌, ◌<◌, ◌≡◌, refl, ap, sym, subst, ◌∙◌, String, List, [], ◌∷◌, ◌++◌, Option, none, some,
  length, arith,
}
use mathlib.Core.List.{append-nil, append_assoc}
use go_tarantool.Msgpack.{Codec, IsCodec}
use go_tarantool.Msgpack.Objects.{◌▸◌, map_len, array_len, uint, string, Writes}
use go_tarantool.Iproto.{key_function_name, key_tuple}
use go_tarantool.Request.Base.{written}
use go_tarantool.Request.Call
use go_tarantool.Request.Call.{CallRequest}
use go_tarantool.Request.Fill.{fill_call}
use go_tarantool.Crud.Values.{Structs, IsStructs, encode_all}
use go_tarantool.Crud.GetOptions.{GetOpts, encode_get_opts}
use go_tarantool.Crud.SelectOptions.{SelectOpts, encode_select_opts}
use go_tarantool.Crud.Pairs.{given_pairs, GivenEncodes, encode_pairs, encode_pairs-Writes}
use go_tarantool.Crud.Sent.{
  Opts, base, simple, simple_object, many, object_many, border, count, encode_opts, named,
  user_fields, sent_by_get, sent_by_select, encode_opts-pairs, encode_get_opts-pairs,
  encode_select_opts-pairs,
}
use go_tarantool.Crud.Any.{
  CrudRequest, insert_request, insert_object_request, insert_many_request,
  insert_object_many_request, replace_request, replace_object_request, replace_many_request,
  replace_object_many_request, upsert_request, upsert_object_request, upsert_many_request,
  upsert_object_many_request, update_request, delete_request, get_request, select_request,
  count_request, min_request, max_request, len_request, truncate_request, storage_info_request,
  stats_request, call_of, fields_of, stats_arguments, crud_body, arguments, options,
}
use go_tarantool.Crud.Insert
use go_tarantool.Crud.InsertObject
use go_tarantool.Crud.InsertMany
use go_tarantool.Crud.InsertObjectMany
use go_tarantool.Crud.Replace
use go_tarantool.Crud.ReplaceObject
use go_tarantool.Crud.ReplaceMany
use go_tarantool.Crud.ReplaceObjectMany
use go_tarantool.Crud.Upsert
use go_tarantool.Crud.UpsertObject
use go_tarantool.Crud.UpsertMany
use go_tarantool.Crud.UpsertObjectMany
use go_tarantool.Crud.Update
use go_tarantool.Crud.Delete
use go_tarantool.Crud.Get
use go_tarantool.Crud.Select
use go_tarantool.Crud.Count
use go_tarantool.Crud.Min
use go_tarantool.Crud.Max
use go_tarantool.Crud.Len
use go_tarantool.Crud.Truncate
use go_tarantool.Crud.StorageInfo
use go_tarantool.Crud.Stats

-- A call as the protocol has it: the function's name and an array of its arguments, the last of them the
-- map of the options.
abbrev pub call_with :
    {V : Type 0} → Codec V → String → List V → Option (Option (List ℕ)) → Option (List ℕ)
call_with m function vs none =
    map_len m 2
    ▸ uint m key_function_name
    ▸ string m function
    ▸ uint m key_tuple
    ▸ m.encode (m.slice vs)
call_with m function vs (some opts) =
    map_len m 2
    ▸ uint m key_function_name
    ▸ string m function
    ▸ uint m key_tuple
    ▸ (array_len m (length vs + 1) ▸ (encode_all m vs ▸ opts))

▸_assoc : (u v w : Option (List ℕ)) → ((u ▸ v) ▸ w) ≡ (u ▸ v ▸ w)
▸_assoc none v w = refl
▸_assoc (some u) none w = refl
▸_assoc (some u) (some v) none = refl
▸_assoc (some u) (some v) (some w) = ap some (append_assoc u v w)

▸_nothing : (w : Option (List ℕ)) → (w ▸ some []) ≡ w
▸_nothing none = refl
▸_nothing (some w) = ap some (append-nil w)

nothing_▸ : (w : Option (List ℕ)) → (some [] ▸ w) ≡ w
nothing_▸ none = refl
nothing_▸ (some w) = refl

length-given_pairs :
    {V : Type 0} (named : List (String × Option V)) → length (given_pairs named) ≤ length named
length-given_pairs [] = omega arith
length-given_pairs ((name, none) ∷ named) = omega (arith, length-given_pairs named)
length-given_pairs ((name, some v) ∷ named) = omega (arith, length-given_pairs named)

module _ {V : Type 0} (m : Codec V) (s : Structs V) (structs : IsStructs m s) where
  encode_all-custom :
      (vs : List V) (w : Option (List ℕ))
      → Writes m 1 w
      → encode_all m (vs ++ (s.custom w ∷ [])) ≡ (encode_all m vs ▸ w)
  unfolding encode_all
  encode_all-custom [] w h =
      ▸_nothing (m.encode (s.custom w)) ∙ structs.custom_encode w h ∙ sym (nothing_▸ w)
  encode_all-custom (v ∷ vs) w h =
      ap (λ o. m.encode v ▸ o) (encode_all-custom vs w h)
      ∙ sym (▸_assoc (m.encode v) (encode_all m vs) w)

  length-custom : (vs : List V) (v : V) → length (vs ++ (v ∷ [])) ≡ length vs + 1
  length-custom [] v = refl
  length-custom (x ∷ vs) v = omega (arith, length-custom vs v)

  body-call_with :
      (c : CallRequest V) (vs : List V) (w : Option (List ℕ))
      → Writes m 1 w
      → Call.body m (Call.set_args (s.as_array (vs ++ (s.custom w ∷ []))) c)
        ≡ written (call_with m c.function vs (some w))
  unfolding Call.body Call.set_args fill_call
  body-call_with c vs w h =
      ap
        (λ o.
          written
            (map_len m 2 ▸ uint m key_function_name ▸ string m c.function ▸ uint m key_tuple ▸ o))
        (structs.as_array_encode (vs ++ (s.custom w ∷ []))
          ∙ ap (λ n. array_len m n ▸ encode_all m (vs ++ (s.custom w ∷ [])))
              (length-custom vs (s.custom w))
          ∙ ap (λ o. array_len m (length vs + 1) ▸ o) (encode_all-custom vs w h))

  stats-call :
      (c : CallRequest V) (space : Option String)
      → Call.body m (Call.set_args (Stats.stats_args m space) c)
        ≡ written (call_with m c.function (stats_arguments m space) none)
  unfolding Call.body Call.set_args fill_call
  stats-call c none = refl
  stats-call c (some space) = refl

  module _ (laws : IsCodec m) where
    table-Writes :
        (table : List (String × Option V)) (w : Option (List ℕ))
        → length table < 20
        → w ≡ encode_pairs m (given_pairs table)
        → Writes m 1 w
    table-Writes table w h e =
        let b = length-given_pairs table in
        subst (Writes m 1) (sym e) (encode_pairs-Writes m laws (given_pairs table) (omega arith))

    length-named : (opts : Opts V) → length (named m s opts) < 20
    length-named (base opts) = omega arith
    length-named (simple opts) = omega arith
    length-named (simple_object opts) = omega arith
    length-named (many opts) = omega arith
    length-named (object_many opts) = omega arith
    length-named (border opts) = omega arith
    length-named (count opts) = omega arith

    encode_opts-Writes :
        (opts : Opts V) → GivenEncodes m (user_fields m s opts) → Writes m 1 (encode_opts m s opts)
    encode_opts-Writes opts h =
        table-Writes (named m s opts) _ (length-named opts) (encode_opts-pairs m s structs opts h)

    encode_get_opts-Writes : (opts : GetOpts V) → Writes m 1 (encode_get_opts m s opts)
    encode_get_opts-Writes opts =
        table-Writes (sent_by_get m s opts) _ (omega arith) (encode_get_opts-pairs m s structs opts)

    encode_select_opts-Writes :
        (opts : SelectOpts V)
        → GivenEncodes m opts.fields
        → Writes m 1 (encode_select_opts m s opts)
    encode_select_opts-Writes opts h =
        table-Writes (sent_by_select m s opts) _ (omega arith)
          (encode_select_opts-pairs m s structs opts h)

    -- Whatever crud request it is, its body is the call of its function with the space, the arguments that
    -- were set or their defaults, and one map of options behind them; the option `fields` can be encoded.
    pub crud_body-call_with :
        (r : CrudRequest V)
        → GivenEncodes m (fields_of m s r)
        → crud_body m s r
          ≡ written (call_with m ((call_of r).function) (arguments m s r) (options m s r))
    unfolding crud_body arguments options call_of encode_opts Insert.body InsertObject.body
        InsertMany.body InsertObjectMany.body Replace.body ReplaceObject.body ReplaceMany.body
        ReplaceObjectMany.body Upsert.body UpsertObject.body UpsertMany.body UpsertObjectMany.body
        Update.body Delete.body Get.body Select.body Count.body Min.body Max.body Len.body
        Truncate.body StorageInfo.body Stats.body
    crud_body-call_with (insert_request r) h =
        body-call_with (call_of (insert_request r)) (arguments m s (insert_request r)) _
          (encode_opts-Writes (simple r.opts) h)
    crud_body-call_with (insert_object_request r) h =
        body-call_with (call_of (insert_object_request r)) (arguments m s (insert_object_request r))
          _ (encode_opts-Writes (simple_object r.opts) h)
    crud_body-call_with (insert_many_request r) h =
        body-call_with (call_of (insert_many_request r)) (arguments m s (insert_many_request r)) _
          (encode_opts-Writes (many r.opts) h)
    crud_body-call_with (insert_object_many_request r) h =
        body-call_with (call_of (insert_object_many_request r))
          (arguments m s (insert_object_many_request r)) _
          (encode_opts-Writes (object_many r.opts) h)
    crud_body-call_with (replace_request r) h =
        body-call_with (call_of (replace_request r)) (arguments m s (replace_request r)) _
          (encode_opts-Writes (simple r.opts) h)
    crud_body-call_with (replace_object_request r) h =
        body-call_with (call_of (replace_object_request r))
          (arguments m s (replace_object_request r)) _ (encode_opts-Writes (simple_object r.opts) h)
    crud_body-call_with (replace_many_request r) h =
        body-call_with (call_of (replace_many_request r)) (arguments m s (replace_many_request r)) _
          (encode_opts-Writes (many r.opts) h)
    crud_body-call_with (replace_object_many_request r) h =
        body-call_with (call_of (replace_object_many_request r))
          (arguments m s (replace_object_many_request r)) _
          (encode_opts-Writes (object_many r.opts) h)
    crud_body-call_with (upsert_request r) h =
        body-call_with (call_of (upsert_request r)) (arguments m s (upsert_request r)) _
          (encode_opts-Writes (simple r.opts) h)
    crud_body-call_with (upsert_object_request r) h =
        body-call_with (call_of (upsert_object_request r)) (arguments m s (upsert_object_request r))
          _ (encode_opts-Writes (simple r.opts) h)
    crud_body-call_with (upsert_many_request r) h =
        body-call_with (call_of (upsert_many_request r)) (arguments m s (upsert_many_request r)) _
          (encode_opts-Writes (many r.opts) h)
    crud_body-call_with (upsert_object_many_request r) h =
        body-call_with (call_of (upsert_object_many_request r))
          (arguments m s (upsert_object_many_request r)) _ (encode_opts-Writes (many r.opts) h)
    crud_body-call_with (update_request r) h =
        body-call_with (call_of (update_request r)) (arguments m s (update_request r)) _
          (encode_opts-Writes (simple r.opts) h)
    crud_body-call_with (delete_request r) h =
        body-call_with (call_of (delete_request r)) (arguments m s (delete_request r)) _
          (encode_opts-Writes (simple r.opts) h)
    crud_body-call_with (get_request r) h =
        body-call_with (call_of (get_request r)) (arguments m s (get_request r)) _
          (encode_get_opts-Writes r.opts)
    crud_body-call_with (select_request r) h =
        body-call_with (call_of (select_request r)) (arguments m s (select_request r)) _
          (encode_select_opts-Writes r.opts h)
    crud_body-call_with (count_request r) h =
        body-call_with (call_of (count_request r)) (arguments m s (count_request r)) _
          (encode_opts-Writes (count r.opts) h)
    crud_body-call_with (min_request r) h =
        body-call_with (call_of (min_request r)) (arguments m s (min_request r)) _
          (encode_opts-Writes (border r.opts) h)
    crud_body-call_with (max_request r) h =
        body-call_with (call_of (max_request r)) (arguments m s (max_request r)) _
          (encode_opts-Writes (border r.opts) h)
    crud_body-call_with (len_request r) h =
        body-call_with (call_of (len_request r)) (arguments m s (len_request r)) _
          (encode_opts-Writes (base r.opts) h)
    crud_body-call_with (truncate_request r) h =
        body-call_with (call_of (truncate_request r)) (arguments m s (truncate_request r)) _
          (encode_opts-Writes (base r.opts) h)
    crud_body-call_with (storage_info_request r) h =
        body-call_with (call_of (storage_info_request r)) (arguments m s (storage_info_request r)) _
          (encode_opts-Writes (base r.opts) h)
    crud_body-call_with (stats_request r) h = stats-call (call_of (stats_request r)) r.space
