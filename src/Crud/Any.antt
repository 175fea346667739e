-- ===== src/Crud/Any.antt =====
-- crud/: what every request of the crud module is: its call, its body and its arguments.
use go_tarantool.Common.{ℕ, String, List, [], ◌∷◌, Option, none, some, Outcome}
use go_tarantool.Msgpack.{Codec}
use go_tarantool.Request.Call.{CallRequest}
use go_tarantool.Crud.Values.{
  Structs, conditions_value, operations_data_value, operations_value, or_empty, or_empty_map,
  or_nil, slice_or_empty,
}
use go_tarantool.Crud.GetOptions.{encode_get_opts}
use go_tarantool.Crud.SelectOptions.{encode_select_opts}
use go_tarantool.Crud.Sent.{
  base, simple, simple_object, many, object_many, border, count, encode_opts, user_fields,
}
use go_tarantool.Crud.Insert
use go_tarantool.Crud.Insert.{InsertRequest}
use go_tarantool.Crud.InsertObject
use go_tarantool.Crud.InsertObject.{InsertObjectRequest}
use go_tarantool.Crud.InsertMany
use go_tarantool.Crud.InsertMany.{InsertManyRequest}
use go_tarantool.Crud.InsertObjectMany
use go_tarantool.Crud.InsertObjectMany.{InsertObjectManyRequest}
use go_tarantool.Crud.Replace
use go_tarantool.Crud.Replace.{ReplaceRequest}
use go_tarantool.Crud.ReplaceObject
use go_tarantool.Crud.ReplaceObject.{ReplaceObjectRequest}
use go_tarantool.Crud.ReplaceMany
use go_tarantool.Crud.ReplaceMany.{ReplaceManyRequest}
use go_tarantool.Crud.ReplaceObjectMany
use go_tarantool.Crud.ReplaceObjectMany.{ReplaceObjectManyRequest}
use go_tarantool.Crud.Upsert
use go_tarantool.Crud.Upsert.{UpsertRequest}
use go_tarantool.Crud.UpsertObject
use go_tarantool.Crud.UpsertObject.{UpsertObjectRequest}
use go_tarantool.Crud.UpsertMany
use go_tarantool.Crud.UpsertMany.{UpsertManyRequest}
use go_tarantool.Crud.UpsertObjectMany
use go_tarantool.Crud.UpsertObjectMany.{UpsertObjectManyRequest}
use go_tarantool.Crud.Update
use go_tarantool.Crud.Update.{UpdateRequest}
use go_tarantool.Crud.Delete
use go_tarantool.Crud.Delete.{DeleteRequest}
use go_tarantool.Crud.Get
use go_tarantool.Crud.Get.{GetRequest}
use go_tarantool.Crud.Select
use go_tarantool.Crud.Select.{SelectRequest}
use go_tarantool.Crud.Count
use go_tarantool.Crud.Count.{CountRequest}
use go_tarantool.Crud.Min
use go_tarantool.Crud.Min.{MinRequest}
use go_tarantool.Crud.Max
use go_tarantool.Crud.Max.{MaxRequest}
use go_tarantool.Crud.Len
use go_tarantool.Crud.Len.{LenRequest}
use go_tarantool.Crud.Truncate
use go_tarantool.Crud.Truncate.{TruncateRequest}
use go_tarantool.Crud.StorageInfo
use go_tarantool.Crud.StorageInfo.{StorageInfoRequest}
use go_tarantool.Crud.Stats
use go_tarantool.Crud.Stats.{StatsRequest}

pub data CrudRequest (V : Type 0) : Type 0 where
  insert_request : InsertRequest V → CrudRequest V
  insert_object_request : InsertObjectRequest V → CrudRequest V
  insert_many_request : InsertManyRequest V → CrudRequest V
  insert_object_many_request : InsertObjectManyRequest V → CrudRequest V
  replace_request : ReplaceRequest V → CrudRequest V
  replace_object_request : ReplaceObjectRequest V → CrudRequest V
  replace_many_request : ReplaceManyRequest V → CrudRequest V
  replace_object_many_request : ReplaceObjectManyRequest V → CrudRequest V
  upsert_request : UpsertRequest V → CrudRequest V
  upsert_object_request : UpsertObjectRequest V → CrudRequest V
  upsert_many_request : UpsertManyRequest V → CrudRequest V
  upsert_object_many_request : UpsertObjectManyRequest V → CrudRequest V
  update_request : UpdateRequest V → CrudRequest V
  delete_request : DeleteRequest V → CrudRequest V
  get_request : GetRequest V → CrudRequest V
  select_request : SelectRequest V → CrudRequest V
  count_request : CountRequest V → CrudRequest V
  min_request : MinRequest V → CrudRequest V
  max_request : MaxRequest V → CrudRequest V
  len_request : LenRequest V → CrudRequest V
  truncate_request : TruncateRequest V → CrudRequest V
  storage_info_request : StorageInfoRequest V → CrudRequest V
  stats_request : StatsRequest V → CrudRequest V

module _ {V : Type 0} where
  -- The call that the request makes.
  unfoldable pub call_of : CrudRequest V → CallRequest V
  call_of (insert_request r) = r.base.base.impl
  call_of (insert_object_request r) = r.base.base.impl
  call_of (insert_many_request r) = r.base.base.impl
  call_of (insert_object_many_request r) = r.base.base.impl
  call_of (replace_request r) = r.base.base.impl
  call_of (replace_object_request r) = r.base.base.impl
  call_of (replace_many_request r) = r.base.base.impl
  call_of (replace_object_many_request r) = r.base.base.impl
  call_of (upsert_request r) = r.base.base.impl
  call_of (upsert_object_request r) = r.base.base.impl
  call_of (upsert_many_request r) = r.base.base.impl
  call_of (upsert_object_many_request r) = r.base.base.impl
  call_of (update_request r) = r.base.base.impl
  call_of (delete_request r) = r.base.base.impl
  call_of (get_request r) = r.base.base.impl
  call_of (select_request r) = r.base.base.impl
  call_of (count_request r) = r.base.base.impl
  call_of (min_request r) = r.base.base.impl
  call_of (max_request r) = r.base.base.impl
  call_of (len_request r) = r.base.base.impl
  call_of (truncate_request r) = r.base.base.impl
  call_of (storage_info_request r) = r.base.impl
  call_of (stats_request r) = r.base.impl

  -- Its option `fields`, a user's value.
  abbrev pub fields_of : Codec V → Structs V → CrudRequest V → Option V
  fields_of m s (insert_request r) = user_fields m s (simple r.opts)
  fields_of m s (insert_object_request r) = user_fields m s (simple_object r.opts)
  fields_of m s (insert_many_request r) = user_fields m s (many r.opts)
  fields_of m s (insert_object_many_request r) = user_fields m s (object_many r.opts)
  fields_of m s (replace_request r) = user_fields m s (simple r.opts)
  fields_of m s (replace_object_request r) = user_fields m s (simple_object r.opts)
  fields_of m s (replace_many_request r) = user_fields m s (many r.opts)
  fields_of m s (replace_object_many_request r) = user_fields m s (object_many r.opts)
  fields_of m s (upsert_request r) = user_fields m s (simple r.opts)
  fields_of m s (upsert_object_request r) = user_fields m s (simple r.opts)
  fields_of m s (upsert_many_request r) = user_fields m s (many r.opts)
  fields_of m s (upsert_object_many_request r) = user_fields m s (many r.opts)
  fields_of m s (update_request r) = user_fields m s (simple r.opts)
  fields_of m s (delete_request r) = user_fields m s (simple r.opts)
  fields_of m s (get_request r) = none
  fields_of m s (select_request r) = r.opts.fields
  fields_of m s (count_request r) = user_fields m s (count r.opts)
  fields_of m s (min_request r) = user_fields m s (border r.opts)
  fields_of m s (max_request r) = user_fields m s (border r.opts)
  fields_of m s (len_request r) = user_fields m s (base r.opts)
  fields_of m s (truncate_request r) = user_fields m s (base r.opts)
  fields_of m s (storage_info_request r) = user_fields m s (base r.opts)
  fields_of m s (stats_request r) = none

  abbrev pub stats_arguments : Codec V → Option String → List V
  stats_arguments m none = []
  stats_arguments m (some space) = m.text space ∷ []

module _ {V : Type 0} (m : Codec V) (s : Structs V) where
  unfoldable pub crud_body : CrudRequest V → Outcome (List ℕ)
  unfolding Insert.body InsertObject.body InsertMany.body InsertObjectMany.body Replace.body
      ReplaceObject.body ReplaceMany.body ReplaceObjectMany.body Upsert.body UpsertObject.body
      UpsertMany.body UpsertObjectMany.body Update.body Delete.body Get.body Select.body Count.body
      Min.body Max.body Len.body Truncate.body StorageInfo.body Stats.body
  crud_body (insert_request r) = Insert.body m s r
  crud_body (insert_object_request r) = InsertObject.body m s r
  crud_body (insert_many_request r) = InsertMany.body m s r
  crud_body (insert_object_many_request r) = InsertObjectMany.body m s r
  crud_body (replace_request r) = Replace.body m s r
  crud_body (replace_object_request r) = ReplaceObject.body m s r
  crud_body (replace_many_request r) = ReplaceMany.body m s r
  crud_body (replace_object_many_request r) = ReplaceObjectMany.body m s r
  crud_body (upsert_request r) = Upsert.body m s r
  crud_body (upsert_object_request r) = UpsertObject.body m s r
  crud_body (upsert_many_request r) = UpsertMany.body m s r
  crud_body (upsert_object_many_request r) = UpsertObjectMany.body m s r
  crud_body (update_request r) = Update.body m s r
  crud_body (delete_request r) = Delete.body m s r
  crud_body (get_request r) = Get.body m s r
  crud_body (select_request r) = Select.body m s r
  crud_body (count_request r) = Count.body m s r
  crud_body (min_request r) = Min.body m s r
  crud_body (max_request r) = Max.body m s r
  crud_body (len_request r) = Len.body m s r
  crud_body (truncate_request r) = Truncate.body m s r
  crud_body (storage_info_request r) = StorageInfo.body m s r
  crud_body (stats_request r) = Stats.body m r

  -- The arguments of the function before its options.
  unfoldable pub arguments : CrudRequest V → List V
  arguments (insert_request r) = m.text r.base.space ∷ or_empty m s r.tuple ∷ []
  arguments (insert_object_request r) = m.text r.base.space ∷ or_empty_map m s r.object ∷ []
  arguments (insert_many_request r) = m.text r.base.space ∷ slice_or_empty m s r.tuples ∷ []
  arguments (insert_object_many_request r) = m.text r.base.space ∷ slice_or_empty m s r.objects ∷ []
  arguments (replace_request r) = m.text r.base.space ∷ or_empty m s r.tuple ∷ []
  arguments (replace_object_request r) = m.text r.base.space ∷ or_empty_map m s r.object ∷ []
  arguments (replace_many_request r) = m.text r.base.space ∷ slice_or_empty m s r.tuples ∷ []
  arguments (replace_object_many_request r) =
      m.text r.base.space ∷ slice_or_empty m s r.objects ∷ []
  arguments (upsert_request r) =
      m.text r.base.space ∷ or_empty m s r.tuple ∷ operations_value m s r.operations ∷ []
  arguments (upsert_object_request r) =
      m.text r.base.space ∷ or_empty_map m s r.object ∷ operations_value m s r.operations ∷ []
  arguments (upsert_many_request r) =
      m.text r.base.space ∷ operations_data_value m s r.tuples_operations_data ∷ []
  arguments (upsert_object_many_request r) =
      m.text r.base.space ∷ operations_data_value m s r.objects_operations_data ∷ []
  arguments (update_request r) =
      m.text r.base.space ∷ or_empty m s r.key ∷ operations_value m s r.operations ∷ []
  arguments (delete_request r) = m.text r.base.space ∷ or_empty m s r.key ∷ []
  arguments (get_request r) = m.text r.base.space ∷ or_empty m s r.key ∷ []
  arguments (select_request r) = m.text r.base.space ∷ conditions_value m s r.conditions ∷ []
  arguments (count_request r) = m.text r.base.space ∷ conditions_value m s r.conditions ∷ []
  arguments (min_request r) = m.text r.base.space ∷ or_nil m s r.index ∷ []
  arguments (max_request r) = m.text r.base.space ∷ or_nil m s r.index ∷ []
  arguments (len_request r) = m.text r.base.space ∷ []
  arguments (truncate_request r) = m.text r.base.space ∷ []
  arguments (storage_info_request r) = []
  arguments (stats_request r) = stats_arguments m r.space

  -- The options as they are written; `stats` has none.
  unfoldable pub options : CrudRequest V → Option (Option (List ℕ))
  unfolding encode_opts encode_get_opts encode_select_opts
  options (insert_request r) = some (encode_opts m s (simple r.opts))
  options (insert_object_request r) = some (encode_opts m s (simple_object r.opts))
  options (insert_many_request r) = some (encode_opts m s (many r.opts))
  options (insert_object_many_request r) = some (encode_opts m s (object_many r.opts))
  options (replace_request r) = some (encode_opts m s (simple r.opts))
  options (replace_object_request r) = some (encode_opts m s (simple_object r.opts))
  options (replace_many_request r) = some (encode_opts m s (many r.opts))
  options (replace_object_many_request r) = some (encode_opts m s (object_many r.opts))
  options (upsert_request r) = some (encode_opts m s (simple r.opts))
  options (upsert_object_request r) = some (encode_opts m s (simple r.opts))
  options (upsert_many_request r) = some (encode_opts m s (many r.opts))
  options (upsert_object_many_request r) = some (encode_opts m s (many r.opts))
  options (update_request r) = some (encode_opts m s (simple r.opts))
  options (delete_request r) = some (encode_opts m s (simple r.opts))
  options (get_request r) = some (encode_get_opts m s r.opts)
  options (select_request r) = some (encode_select_opts m s r.opts)
  options (count_request r) = some (encode_opts m s (count r.opts))
  options (min_request r) = some (encode_opts m s (border r.opts))
  options (max_request r) = some (encode_opts m s (border r.opts))
  options (len_request r) = some (encode_opts m s (base r.opts))
  options (truncate_request r) = some (encode_opts m s (base r.opts))
  options (storage_info_request r) = some (encode_opts m s (base r.opts))
  options (stats_request r) = none
