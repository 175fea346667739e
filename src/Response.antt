-- ===== src/Response.antt =====
-- response.go: the decoders of a response's header and body. The buffer is the list of the bytes behind its
-- position; a decoder of the body gives it back, since the code seeks back to where it began.
pub mod Header
pub mod Uniform
pub mod Errors
pub mod Filled
pub mod Again
mod Tests
use go_tarantool.Common.{
  ℕ, zero, suc, ◌+◌, ◌-◌, ◌^◌, ◌/◌, ◌%◌, String, Bool, true, false, not, ◌&&◌, ◌||◌, List, [], ◌∷◌,
  ◌++◌, Option, none, some, Outcome, returns, fails, panics, if◌then◌else◌, ◌==◌, ltb, leb, str_eq,
  length,
}
use go_tarantool.Iproto.{
  key_sync, key_code, key_data, key_error, key_error24, key_sql_info, key_meta_data, key_stmt_id,
  key_bind_count, key_version, key_features, key_auth_type, key_pos, ok_code, push_code,
  error_code_bit,
}
use go_tarantool.Msgpack.Decoder.{Decoder, ◌>>-◌, each, turns}
use go_tarantool.BoxError.{BoxError, decode_box_error}

pub record ColumnMetaData : Type 0 where
  pub field_name : String
  pub field_type : String
  pub field_collation : String
  pub field_is_nullable : Bool
  pub field_is_autoincrement : Bool
  pub field_span : String

pub record SqlInfo : Type 0 where
  pub affected_count : ℕ
  pub info_autoincrement_ids : List ℕ

-- The elements of `Data`: values, a prepared statement or what a server says of its protocol.
pub data Datum (V : Type 0) : Type 0 where
  datum : V → Datum V
  prepared : ℕ → ℕ → List ColumnMetaData → Datum V
  protocol : ℕ → List ℕ → Option String → Datum V

pub record Response (V : Type 0) : Type 0 where
  pub request_id : ℕ
  pub code : ℕ
  pub error : String
  pub items : List (Datum V)
  pub pos : List ℕ
  pub meta_data : List ColumnMetaData
  pub sql_info : SqlInfo
  pub buf : List ℕ

-- `Error`, what an instance answered.
pub record ServerError (V : Type 0) : Type 0 where
  pub code : ℕ
  pub msg : String
  pub extended_info : Option (BoxError V)

-- What the library decodes by the methods `DecodeMsgpack` of the column and the SQL descriptions, and the
-- test whether a value is a slice.
pub record ResponseReader (V : Type 0) : Type 0 where
  pub read_meta_data : List ℕ → Outcome (List ColumnMetaData × List ℕ)
  pub read_sql_info : List ℕ → Outcome (SqlInfo × List ℕ)
  pub as_slice : V → Option (List V)

-- The variables of the loop of `decodeBody`.
pub record BodyState (V : Type 0) : Type 0 where
  pub resp : Response V
  pub stmt_id : ℕ
  pub bind_count : ℕ
  pub version : ℕ
  pub features : Option (List ℕ)
  pub auth : Option String
  pub error_info : Option (BoxError V)

-- `code &^ ErrorCodeBit`, without the bit of 2 ^ 15.
unfoldable pub clear_error_bit : ℕ → ℕ
clear_error_bit code = if code / error_code_bit % 2 == 1 then code - error_code_bit else code

module _ {V : Type 0} where
  unfoldable pub with_error : Option (BoxError V) → Response V → Response V × Option (ServerError V)
  unfolding clear_error_bit
  with_error info resp = if resp.code == ok_code || resp.code == push_code then (resp, none) else (
    record resp { code = clear_error_bit resp.code },
    some (record { code = clear_error_bit resp.code; msg = resp.error; extended_info = info }),
  )

module _ {V : Type 0} (d : Decoder V) where
  -- A byte below 128 is the number itself.
  unfoldable pub small_int : List ℕ → Outcome (ℕ × List ℕ)
  small_int [] = fails
  small_int (b ∷ input) = if leb b 127 then returns (b, input) else d.int (b ∷ input)

  unfoldable pub header_value : ℕ → Response V → List ℕ → Outcome (Response V × List ℕ)
  header_value cd resp input =
      if cd == key_sync
      then d.uint input >>- (λ r. returns (record resp { request_id = r.0 % 2 ^ 32 }, r.1))
      else if cd == key_code
      then d.uint input >>- (λ r. returns (record resp { code = r.0 % 2 ^ 32 }, r.1))
      else d.skip input >>- (λ rest. returns (resp, rest))

  unfoldable pub header_pair : Response V → List ℕ → Outcome (Response V × List ℕ)
  unfolding small_int header_value
  header_pair resp input = small_int input >>- (λ cd. header_value cd.0 resp cd.1)

  -- The rest of the input is what is left in the response's buffer.
  unfoldable pub decode_header : Response V → List ℕ → Outcome (Response V × List ℕ)
  unfolding header_pair each
  decode_header resp input = d.map_len input >>- (λ l. each (turns l.0) header_pair resp l.1)

  unfoldable pub read_feature : List ℕ → List ℕ → Outcome (List ℕ × List ℕ)
  read_feature features input = d.uint input >>- (λ r. returns (features ++ (r.0 ∷ []), r.1))

  -- A slice of a negative length cannot be made.
  abbrev pub read_features : Option ℕ × List ℕ → Outcome (List ℕ × List ℕ)
  read_features (none, input) = panics
  read_features (some larr, input) = each larr read_feature [] input

  -- The methods that the client knows.
  abbrev pub known_auth : BodyState V → String → List ℕ → Outcome (BodyState V × List ℕ)
  known_auth s auth input =
      if str_eq auth "chap-sha1" || str_eq auth "pap-sha256"
      then returns (record s { auth = some auth }, input)
      else fails

  abbrev pub all_data : List V → List (Datum V)
  all_data [] = []
  all_data (v ∷ vs) = datum v ∷ all_data vs

  abbrev pub with_items : BodyState V → Option (List V) → List ℕ → Outcome (BodyState V × List ℕ)
  with_items s none input = fails
  with_items s (some vs) input =
      returns (record s { resp = record s.resp { items = all_data vs } }, input)

  module _ (rr : ResponseReader V) where
    unfoldable pub body_value : ℕ → BodyState V → List ℕ → Outcome (BodyState V × List ℕ)
    unfolding read_feature each decode_box_error
    body_value cd s input =
        if cd == key_data
        then d.value input >>- (λ r. with_items s (rr.as_slice r.0) r.1)
        else if cd == key_error
        then decode_box_error d input >>- (λ r. returns (record s { error_info = some r.0 }, r.1))
        else if cd == key_error24
        then d.string input
          >>- (λ r. returns (record s { resp = record s.resp { error = r.0 } }, r.1))
        else if cd == key_sql_info
        then rr.read_sql_info input
          >>- (λ r. returns (record s { resp = record s.resp { sql_info = r.0 } }, r.1))
        else if cd == key_meta_data
        then rr.read_meta_data input
          >>- (λ r. returns (record s { resp = record s.resp { meta_data = r.0 } }, r.1))
        else if cd == key_stmt_id
        then d.uint input >>- (λ r. returns (record s { stmt_id = r.0 }, r.1))
        else if cd == key_bind_count
        then d.uint input >>- (λ r. returns (record s { bind_count = r.0 }, r.1))
        else if cd == key_version
        then d.uint input >>- (λ r. returns (record s { version = r.0 }, r.1))
        else if cd == key_features
        then d.array_len input
          >>- read_features
          >>- (λ r. returns (record s { features = some r.0 }, r.1))
        else if cd == key_auth_type
        then d.string input >>- (λ r. known_auth s r.0 r.1)
        else if cd == key_pos
        then d.bytes input >>- (λ r. returns (record s { resp = record s.resp { pos = r.0 } }, r.1))
        else d.skip input >>- (λ rest. returns (s, rest))

    unfoldable pub body_pair : BodyState V → List ℕ → Outcome (BodyState V × List ℕ)
    unfolding small_int body_value
    body_pair s input = small_int input >>- (λ cd. body_value cd.0 s cd.1)

    abbrev pub start_body : Response V → BodyState V
    start_body resp = record {
      resp = resp;
      stmt_id = 0;
      bind_count = 0;
      version = 0;
      features = none;
      auth = none;
      error_info = none;
    }

    unfoldable pub with_prepared : BodyState V → Response V
    with_prepared s =
        if s.stmt_id == 0
        then s.resp
        else record s.resp { items = prepared s.stmt_id s.bind_count s.resp.meta_data ∷ [] }

    -- Both the version and the features, or neither of them.
    abbrev pub with_protocol :
        ℕ → Option (List ℕ) → Option String → Response V → Outcome (Response V)
    with_protocol version none auth resp = if version == 0 then returns resp else fails
    with_protocol version (some features) auth resp =
        if version == 0
        then fails
        else returns (record resp { items = protocol version features auth ∷ [] })

    -- The fields that were set before an error of the decoding are left out of `fails`.
    unfoldable pub decode_body : Response V → Outcome (Response V × Option (ServerError V))
    unfolding body_pair each with_prepared with_error
    decode_body resp =
        if ltb 2 (length resp.buf)
        then d.map_len resp.buf
          >>- (λ l. each (turns l.0) body_pair (start_body resp) l.1)
          >>- (λ r.
              with_protocol r.0.version r.0.features r.0.auth (with_prepared r.0)
              >>- (λ left. returns (with_error r.0.error_info left)))
        else returns (resp, none)
