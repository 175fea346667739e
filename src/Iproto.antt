-- ===== src/Iproto.antt =====
-- const.go: the codes of requests, the keys of headers and bodies, the iterators and the codes of
-- responses.
use go_tarantool.Common.{ℕ}

abbrev pub select_request_code : ℕ
select_request_code = 1

abbrev pub insert_request_code : ℕ
insert_request_code = 2

abbrev pub replace_request_code : ℕ
replace_request_code = 3

abbrev pub update_request_code : ℕ
update_request_code = 4

abbrev pub delete_request_code : ℕ
delete_request_code = 5

abbrev pub call16_request_code : ℕ
call16_request_code = 6

abbrev pub auth_request_code : ℕ
auth_request_code = 7

abbrev pub eval_request_code : ℕ
eval_request_code = 8

abbrev pub upsert_request_code : ℕ
upsert_request_code = 9

abbrev pub call17_request_code : ℕ
call17_request_code = 10

abbrev pub execute_request_code : ℕ
execute_request_code = 11

abbrev pub prepare_request_code : ℕ
prepare_request_code = 13

abbrev pub begin_request_code : ℕ
begin_request_code = 14

abbrev pub commit_request_code : ℕ
commit_request_code = 15

abbrev pub rollback_request_code : ℕ
rollback_request_code = 16

abbrev pub ping_request_code : ℕ
ping_request_code = 64

abbrev pub subscribe_request_code : ℕ
subscribe_request_code = 66

abbrev pub id_request_code : ℕ
id_request_code = 73

abbrev pub watch_request_code : ℕ
watch_request_code = 74

abbrev pub unwatch_request_code : ℕ
unwatch_request_code = 75

abbrev pub key_code : ℕ
key_code = 0x00

abbrev pub key_sync : ℕ
key_sync = 0x01

abbrev pub key_stream_id : ℕ
key_stream_id = 0x0a

abbrev pub key_space_no : ℕ
key_space_no = 0x10

abbrev pub key_index_no : ℕ
key_index_no = 0x11

abbrev pub key_limit : ℕ
key_limit = 0x12

abbrev pub key_offset : ℕ
key_offset = 0x13

abbrev pub key_iterator : ℕ
key_iterator = 0x14

abbrev pub key_fetch_pos : ℕ
key_fetch_pos = 0x1f

abbrev pub key_key : ℕ
key_key = 0x20

abbrev pub key_tuple : ℕ
key_tuple = 0x21

abbrev pub key_function_name : ℕ
key_function_name = 0x22

abbrev pub key_user_name : ℕ
key_user_name = 0x23

abbrev pub key_expression : ℕ
key_expression = 0x27

abbrev pub key_after_pos : ℕ
key_after_pos = 0x2e

abbrev pub key_after_tuple : ℕ
key_after_tuple = 0x2f

abbrev pub key_def_tuple : ℕ
key_def_tuple = 0x28

abbrev pub key_data : ℕ
key_data = 0x30

abbrev pub key_error24 : ℕ
key_error24 = 0x31

abbrev pub key_meta_data : ℕ
key_meta_data = 0x32

abbrev pub key_bind_count : ℕ
key_bind_count = 0x34

abbrev pub key_pos : ℕ
key_pos = 0x35

abbrev pub key_sql_text : ℕ
key_sql_text = 0x40

abbrev pub key_sql_bind : ℕ
key_sql_bind = 0x41

abbrev pub key_sql_info : ℕ
key_sql_info = 0x42

abbrev pub key_stmt_id : ℕ
key_stmt_id = 0x43

abbrev pub key_error : ℕ
key_error = 0x52

abbrev pub key_version : ℕ
key_version = 0x54

abbrev pub key_features : ℕ
key_features = 0x55

abbrev pub key_timeout : ℕ
key_timeout = 0x56

abbrev pub key_event : ℕ
key_event = 0x57

abbrev pub key_event_data : ℕ
key_event_data = 0x58

abbrev pub key_txn_isolation : ℕ
key_txn_isolation = 0x59

abbrev pub key_auth_type : ℕ
key_auth_type = 0x5b

abbrev pub key_field_name : ℕ
key_field_name = 0x00

abbrev pub key_field_type : ℕ
key_field_type = 0x01

abbrev pub key_field_coll : ℕ
key_field_coll = 0x02

abbrev pub key_field_is_nullable : ℕ
key_field_is_nullable = 0x03

abbrev pub key_is_autoincrement : ℕ
key_is_autoincrement = 0x04

abbrev pub key_field_span : ℕ
key_field_span = 0x05

abbrev pub key_sql_info_row_count : ℕ
key_sql_info_row_count = 0x00

abbrev pub key_sql_info_autoincrement_ids : ℕ
key_sql_info_autoincrement_ids = 0x01

abbrev pub iter_eq : ℕ
iter_eq = 0

abbrev pub iter_req : ℕ
iter_req = 1

abbrev pub iter_all : ℕ
iter_all = 2

abbrev pub iter_lt : ℕ
iter_lt = 3

abbrev pub iter_le : ℕ
iter_le = 4

abbrev pub iter_ge : ℕ
iter_ge = 5

abbrev pub iter_gt : ℕ
iter_gt = 6

abbrev pub iter_bits_all_set : ℕ
iter_bits_all_set = 7

abbrev pub iter_bits_any_set : ℕ
iter_bits_any_set = 8

abbrev pub iter_bits_all_not_set : ℕ
iter_bits_all_not_set = 9

abbrev pub ok_code : ℕ
ok_code = 0

abbrev pub event_code : ℕ
event_code = 0x4c

abbrev pub push_code : ℕ
push_code = 0x80

abbrev pub error_code_bit : ℕ
error_code_bit = 0x8000
