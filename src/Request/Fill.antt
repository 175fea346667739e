-- ===== src/Request/Fill.antt =====
-- request.go, prepared.go, stream.go and protocol.go: the `fill…` functions, which write the bodies of
-- requests. The errors that some of them drop are those of writing to memory, which does not fail.
use go_tarantool.Common.{
  ℕ, ◌+◌, String, Bool, true, false, List, [], ◌∷◌, Option, some, ltb, ◌==◌, if◌then◌else◌, length,
}
use go_tarantool.Iproto.{
  key_space_no, key_index_no, key_limit, key_offset, key_iterator, key_fetch_pos, key_key,
  key_tuple, key_function_name, key_expression, key_after_pos, key_after_tuple, key_def_tuple,
  key_sql_text, key_stmt_id, key_version, key_features, key_timeout, key_event, key_txn_isolation,
}
use go_tarantool.Msgpack.{Codec}
use go_tarantool.Msgpack.Objects.{◌▸◌, map_len, array_len, uint, string, bool}

-- What a select request continues after: nothing, a position (`[]byte`) or a tuple.
pub data After (V : Type 0) : Type 0 where
  no_after : After V
  after_pos : String → After V
  after_tuple : V → After V

abbrev pub one_if : Bool → ℕ
one_if true = 1
one_if false = 0

abbrev pub is_after : {V : Type 0} → After V → Bool
is_after no_after = false
is_after (after_pos pos) = true
is_after (after_tuple v) = true

module _ {V : Type 0} (m : Codec V) where
  unfoldable pub fill_search : ℕ → ℕ → V → Option (List ℕ)
  fill_search space_no index_no key =
      uint m key_space_no
      ▸ uint m space_no
      ▸ uint m key_index_no
      ▸ uint m index_no
      ▸ uint m key_key
      ▸ m.encode key

  unfoldable pub fill_iterator : ℕ → ℕ → ℕ → Option (List ℕ)
  fill_iterator offset limit iterator =
      uint m key_iterator
      ▸ uint m iterator
      ▸ uint m key_offset
      ▸ uint m offset
      ▸ uint m key_limit
      ▸ uint m limit

  unfoldable pub fill_insert : ℕ → V → Option (List ℕ)
  fill_insert space_no tuple =
      map_len m 2 ▸ uint m key_space_no ▸ uint m space_no ▸ uint m key_tuple ▸ m.encode tuple

  unfoldable pub fill_after : After V → Option (List ℕ)
  fill_after no_after = some []
  fill_after (after_pos pos) = uint m key_after_pos ▸ string m pos
  fill_after (after_tuple v) = uint m key_after_tuple ▸ m.encode v

  unfoldable pub fill_fetch_pos : Bool → Option (List ℕ)
  fill_fetch_pos true = uint m key_fetch_pos ▸ bool m true
  fill_fetch_pos false = some []

  unfoldable pub fill_select : ℕ → ℕ → ℕ → ℕ → ℕ → V → After V → Bool → Option (List ℕ)
  unfolding fill_iterator fill_search fill_fetch_pos fill_after
  fill_select space_no index_no offset limit iterator key after fetch_pos =
      map_len m (6 + one_if fetch_pos + one_if (is_after after))
      ▸ fill_iterator offset limit iterator
      ▸ fill_search space_no index_no key
      ▸ fill_fetch_pos fetch_pos
      ▸ fill_after after

  unfoldable pub fill_update : ℕ → ℕ → V → V → Option (List ℕ)
  unfolding fill_search
  fill_update space_no index_no key ops =
      map_len m 4 ▸ fill_search space_no index_no key ▸ uint m key_tuple ▸ m.encode ops

  unfoldable pub fill_upsert : ℕ → V → V → Option (List ℕ)
  fill_upsert space_no tuple ops =
      map_len m 3
      ▸ uint m key_space_no
      ▸ uint m space_no
      ▸ uint m key_tuple
      ▸ m.encode tuple
      ▸ uint m key_def_tuple
      ▸ m.encode ops

  unfoldable pub fill_delete : ℕ → ℕ → V → Option (List ℕ)
  unfolding fill_search
  fill_delete space_no index_no key = map_len m 3 ▸ fill_search space_no index_no key

  unfoldable pub fill_call : String → V → Option (List ℕ)
  fill_call function args =
      map_len m 2 ▸ uint m key_function_name ▸ string m function ▸ uint m key_tuple ▸ m.encode args

  unfoldable pub fill_eval : String → V → Option (List ℕ)
  fill_eval expr args =
      map_len m 2 ▸ uint m key_expression ▸ string m expr ▸ uint m key_tuple ▸ m.encode args

  unfoldable pub fill_ping : Option (List ℕ)
  fill_ping = map_len m 0

  -- `timeout` is 0 for the durations that are not positive.
  unfoldable pub fill_timeout : ℕ → Option (List ℕ)
  fill_timeout timeout =
      if ltb 0 timeout then uint m key_timeout ▸ m.encode (m.seconds timeout) else some []

  unfoldable pub fill_isolation : ℕ → Option (List ℕ)
  fill_isolation level = if level == 0 then some [] else uint m key_txn_isolation ▸ uint m level

  unfoldable pub fill_begin : ℕ → ℕ → Option (List ℕ)
  unfolding fill_timeout fill_isolation
  fill_begin txn_isolation timeout =
      map_len m ((if ltb 0 timeout then 1 else 0) + (if txn_isolation == 0 then 0 else 1))
      ▸ fill_timeout timeout
      ▸ fill_isolation txn_isolation

  unfoldable pub fill_commit : Option (List ℕ)
  fill_commit = map_len m 0

  unfoldable pub fill_rollback : Option (List ℕ)
  fill_rollback = map_len m 0

  unfoldable pub fill_prepare : String → Option (List ℕ)
  fill_prepare expr = map_len m 1 ▸ uint m key_sql_text ▸ string m expr

  unfoldable pub fill_unprepare : ℕ → Option (List ℕ)
  fill_unprepare statement_id = map_len m 1 ▸ uint m key_stmt_id ▸ uint m statement_id

  unfoldable pub fill_features : List ℕ → Option (List ℕ)
  fill_features [] = some []
  fill_features (feature ∷ features) = m.encode (m.unsigned feature) ▸ fill_features features

  unfoldable pub fill_id : ℕ → List ℕ → Option (List ℕ)
  unfolding fill_features
  fill_id version features =
      map_len m 2
      ▸ uint m key_version
      ▸ m.encode (m.unsigned version)
      ▸ uint m key_features
      ▸ array_len m (length features)
      ▸ fill_features features

  -- The bodies of `watchRequest` and `unwatchRequest`.
  unfoldable pub fill_event : String → Option (List ℕ)
  fill_event key = map_len m 1 ▸ uint m key_event ▸ string m key
