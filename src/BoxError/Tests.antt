-- ===== src/BoxError/Tests.antt =====
-- box_error.go: a stack of two errors, the first with a field.
use go_tarantool.Common.{ℕ, ◌≡◌, refl, List, [], ◌∷◌, ◌++◌, some, returns, arith}
use go_tarantool.Msgpack.Plain.{plain, plain_decoder, plain_decoder-IsDecoder, value-Decodes}
use go_tarantool.BoxError.{
  ErrorEntry, BoxError, only, above, depth, encode_box_error, decode_box_error,
}
use go_tarantool.BoxError.Entry.{IsEntry}
use go_tarantool.BoxError.RoundTrip.{encode_box_error-decode}

abbrev denied : ErrorEntry ℕ
denied = record {
  type = "A";
  file = "b";
  line = 12;
  msg = "no";
  errno = 2;
  code = 42;
  fields = ("k", 5) ∷ [];
}

abbrev cause : ErrorEntry ℕ
cause = record { type = "C"; file = "d"; line = 1; msg = ""; errno = 0; code = 0; fields = [] }

denied-IsEntry : IsEntry plain plain_decoder denied
denied-IsEntry = record {
  line_bound = omega arith;
  errno_bound = omega arith;
  code_bound = omega arith;
  fields_bound = omega arith;
  fields_distinct = (tt, tt);
  fields_reread = (value-Decodes 5, tt);
}

cause-IsEntry : IsEntry plain plain_decoder cause
cause-IsEntry = record {
  line_bound = omega arith;
  errno_bound = omega arith;
  code_bound = omega arith;
  fields_bound = omega arith;
  fields_distinct = tt;
  fields_reread = tt;
}

abbrev two_errors : BoxError ℕ
two_errors = above denied (only cause)

abbrev two_errors_bytes : List ℕ
two_errors_bytes =
    1 ∷ 0 ∷ 2 ∷ 7 ∷ 0 ∷ 1 ∷ 65 ∷ 1 ∷ 1 ∷ 98 ∷ 2 ∷ 12 ∷ 3 ∷ 2 ∷ 110 ∷ 111 ∷ 4 ∷ 2 ∷ 5 ∷ 42 ∷ 6 ∷ 1
    ∷ 1 ∷ 107 ∷ 5 ∷ 6 ∷ 0 ∷ 1 ∷ 67 ∷ 1 ∷ 1 ∷ 100 ∷ 2 ∷ 1 ∷ 3 ∷ 0 ∷ 4 ∷ 0 ∷ 5 ∷ 0 ∷ []

two_errors-encode : encode_box_error plain (some two_errors) ≡ some two_errors_bytes
unfolding encode_box_error
two_errors-encode = refl

two_errors-depth : depth two_errors ≡ 2
unfolding depth
two_errors-depth = refl

encode_box_error-decode_example :
    decode_box_error plain_decoder (two_errors_bytes ++ (9 ∷ [])) ≡ returns (two_errors, 9 ∷ [])
encode_box_error-decode_example =
    encode_box_error-decode plain plain_decoder plain_decoder-IsDecoder two_errors two_errors_bytes
      (9 ∷ []) (denied-IsEntry, cause-IsEntry) (omega (arith, two_errors-depth)) two_errors-encode
