-- ===== src/Response/Tests.antt =====
-- response.go: a header with an unknown key, and the codes of errors.
use go_tarantool.Common.{
  ℕ, ◌≡◌, refl, List, [], ◌∷◌, ◌++◌, Option, none, some, returns, fails, arith,
}
use go_tarantool.Msgpack.Plain.{plain, plain_decoder, plain_decoder-IsDecoder}
use go_tarantool.Response.Errors.{IsErrorOf}
use go_tarantool.Response.Again.{decode_body-again}
use go_tarantool.Response.{
  Response, ServerError, ResponseReader, decode_body, decode_header, clear_error_bit, with_error,
}
use go_tarantool.Response.Header.{
  HeaderItem, sync, status, other, apply_items, decode_header-apply_items,
}

abbrev no_response : Response ℕ
no_response = record {
  request_id = 0;
  code = 0;
  error = "";
  items = [];
  pos = [];
  meta_data = [];
  sql_info = record { affected_count = 0; info_autoincrement_ids = [] };
  buf = [];
}

abbrev header_items : List HeaderItem
header_items = status 32770 ∷ other 5 (80 ∷ []) ∷ sync 4294967303 ∷ []

decode_header-apply_items_example :
    decode_header plain_decoder no_response
      ((3 ∷ 0 ∷ 32770 ∷ 5 ∷ 80 ∷ 1 ∷ 4294967303 ∷ []) ++ (6 ∷ []))
    ≡ returns (apply_items plain plain_decoder header_items no_response, 6 ∷ [])
decode_header-apply_items_example =
    decode_header-apply_items plain plain_decoder plain_decoder-IsDecoder header_items no_response
      (3 ∷ 0 ∷ 32770 ∷ 5 ∷ 80 ∷ 1 ∷ 4294967303 ∷ []) (6 ∷ [])
      (omega arith, ((refl, refl, refl, λ rest. refl), (omega arith, tt))) (omega arith) refl

-- An error with the code 128 is a push message when it is decoded again.
push_clash : (with_error none ((with_error none (record no_response { code = 32896 })).0)).1 ≡ none
unfolding with_error clear_error_bit
push_clash = refl

abbrev plain_reader : ResponseReader ℕ
plain_reader = record {
  read_meta_data = λ input. fails;
  read_sql_info = λ input. fails;
  as_slice = λ v. none;
}

-- A body with an empty text of the error and a position.
abbrev denied : Response ℕ
denied = record no_response { code = 32770; buf = 2 ∷ 49 ∷ 0 ∷ 53 ∷ 7 ∷ [] }

abbrev denied_left : Response ℕ
denied_left = record denied { code = 2; pos = 7 ∷ [] }

abbrev denied_error : Option (ServerError ℕ)
denied_error = some (record { code = 2; msg = ""; extended_info = none })

decode_body-denied :
    decode_body plain_decoder plain_reader denied ≡ returns (denied_left, denied_error)
unfolding decode_body with_error clear_error_bit
decode_body-denied = refl

decode_body-again_example :
    IsErrorOf 32770 denied_error
    × (decode_body plain_decoder plain_reader denied_left ≡ returns (denied_left, denied_error))
    × (denied_left.buf ≡ denied.buf)
unfolding clear_error_bit
decode_body-again_example =
    decode_body-again plain_decoder plain_reader denied denied_left denied_error refl refl
      decode_body-denied
