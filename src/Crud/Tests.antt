-- ===== src/Crud/Tests.antt =====
-- crud/: options that are given, over the cells of the tests.
use go_tarantool.Common.{◌≡◌, refl, true, [], ◌∷◌, none, some}
use go_tarantool.Msgpack.Cells.{Cell, cells, cells-IsCodec, shapes, shapes-IsStructs}
use go_tarantool.Request.Base.{written}
use go_tarantool.Crud.Options.{SimpleOperationOpts}
use go_tarantool.Crud.GetOptions.{GetOpts, encode_get_opts}
use go_tarantool.Crud.SelectOptions.{SelectOpts, encode_select_opts, no_select_opts}
use go_tarantool.Crud.Pairs.{given_pairs, encode_pairs}
use go_tarantool.Crud.Sent.{
  simple, encode_opts, named, sent_by_get, sent_by_select, encode_opts-pairs, encode_get_opts-pairs,
  encode_select_opts-pairs,
}
use go_tarantool.Crud.Update
use go_tarantool.Crud.Any.{CrudRequest, update_request, crud_body, call_of, arguments, options}
use go_tarantool.Crud.Calls.{call_with, crud_body-call_with}

abbrev simple_opts : SimpleOperationOpts Cell
simple_opts = record {
  timeout = some 5;
  vshard_router = none;
  fields = some (some (0 ∷ 9 ∷ []));
  bucket_id = some 33;
}

encode_opts-pairs_example :
    encode_opts cells shapes (simple simple_opts)
    ≡ encode_pairs cells (given_pairs (named cells shapes (simple simple_opts)))
encode_opts-pairs_example =
    encode_opts-pairs cells shapes shapes-IsStructs (simple simple_opts) (0 ∷ 9 ∷ [], refl)

abbrev get_opts : GetOpts Cell
get_opts = record {
  timeout = none;
  vshard_router = some "router";
  fields = some (some (0 ∷ 9 ∷ []));
  bucket_id = some 33;
  mode = some "write";
  prefer_replica = some true;
  balance = none;
}

encode_get_opts-pairs_example :
    encode_get_opts cells shapes get_opts
    ≡ encode_pairs cells (given_pairs (sent_by_get cells shapes get_opts))
encode_get_opts-pairs_example = encode_get_opts-pairs cells shapes shapes-IsStructs get_opts

abbrev select_opts : SelectOpts Cell
select_opts = record no_select_opts {
  fields = some (some (0 ∷ 9 ∷ []));
  after = some (some (0 ∷ 8 ∷ []));
  fullscan = some true;
}

encode_select_opts-pairs_example :
    encode_select_opts cells shapes select_opts
    ≡ encode_pairs cells (given_pairs (sent_by_select cells shapes select_opts))
encode_select_opts-pairs_example =
    encode_select_opts-pairs cells shapes shapes-IsStructs select_opts (0 ∷ 9 ∷ [], refl)

abbrev renamed : CrudRequest Cell
renamed =
    update_request
      (Update.set_opts simple_opts (Update.set_key (some (some (0 ∷ 4 ∷ []))) (Update.new "users")))

crud_body-call_with_example :
    crud_body cells shapes renamed
    ≡ written (
        call_with cells
          ((call_of renamed).function)
          (arguments cells shapes renamed)
          (options cells shapes renamed))
unfolding Update.new Update.set_opts Update.set_key
crud_body-call_with_example =
    crud_body-call_with cells shapes shapes-IsStructs cells-IsCodec renamed (0 ∷ 9 ∷ [], refl)
