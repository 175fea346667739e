-- ===== src/Request/WellFormed.antt =====
-- request.go: that the body of a request is one msgpack object.
use go_tarantool.Common.{
  ℕ, ◌+◌, ◌^◌, ◌<◌, ◌≡◌, suc, refl, ap, subst, String, List, [], ◌∷◌, Option, none, some, Outcome,
  returns, fails, panics, length, arith,
}
use go_tarantool.Msgpack.{Codec, IsCodec, Objects}
use go_tarantool.Msgpack.Objects.{
  ◌▸◌, array_len, uint, string, Writes, Writes-then, Writes-uint, Writes-string, Writes-value,
  Writes-map, Writes-array, Writes-nothing,
}
use go_tarantool.Request.Fill.{
  fill_ping, fill_commit, fill_rollback, fill_prepare, fill_unprepare, fill_event,
}
use go_tarantool.Request.Base.{written, then_with}
use go_tarantool.Request.Bind.{
  BindItem, key_value, plain, Bind, string_map, other_map, struct, items, key_values, other_slice,
  other_kind, encode_key, encode_keys, encode_item, encode_items, lower_names, encode_sql_bind,
}
use go_tarantool.Request.Execute.{fill_execute}
use go_tarantool.Request.ExecutePrepared.{fill_execute_prepared}
use go_tarantool.Request.Unprepare.{Prepared}
use go_tarantool.Request.Identify.{features_of}
use go_tarantool.Request.Any.{
  Request, ping, select, insert, replace, delete, update, upsert, call, eval, execute, prepare,
  unprepare, execute_prepared, begin, commit, rollback, identify, broadcast, watch, unwatch, body,
}
use go_tarantool.Request.Bodies.{
  IsWord, pair, last, no_pairs-Writes, one_pair-Writes, fill_select-Writes, fill_insert-Writes,
  fill_update-Writes, fill_delete-Writes, fill_upsert-Writes, fill_call-Writes, fill_eval-Writes,
  fill_begin-Writes, fill_id-Writes,
}

-- Arguments that the code knows, in a number that a msgpack array can have.
abbrev pub IsBind : {V : Type 0} → Bind V → Type 0
IsBind (string_map mp) = length mp < 2 ^ 32
IsBind other_map = Unit
IsBind (struct fields) = length fields < 2 ^ 32
IsBind (items vs) = length vs < 2 ^ 32
IsBind (key_values kvs) = length kvs < 2 ^ 32
IsBind other_slice = Unit
IsBind other_kind = ⊥

-- The numbers of a request fit the machine's words, and its lists a msgpack array.
abbrev pub IsRequest : {S I V : Type 0} → Request S I V → Type 0
IsRequest (select r) = IsWord r.offset × IsWord r.limit × IsWord r.iterator
IsRequest (execute r) = IsBind r.args
IsRequest (unprepare r) = IsWord r.stmt.statement_id
IsRequest (execute_prepared r) = IsWord r.stmt.statement_id × IsBind r.args
IsRequest (begin r) = IsWord r.isolation
IsRequest (identify r) = length (features_of r.protocol_info.features) < 2 ^ 32
IsRequest _ = Unit

-- What the schema resolves to are words.
abbrev pub IsResolver : {S I : Type 0} → (S → Option I → Outcome (ℕ × ℕ)) → Type 0
IsResolver {S} {I} resolve =
    (s : S) (i : Option I) (no : ℕ × ℕ) → resolve s i ≡ returns no → IsWord no.0 × IsWord no.1

pub returns_inj : {A : Type 0} {a b : A} → returns a ≡ returns b → a ≡ b
returns_inj h = cc

module _ {V : Type 0} (m : Codec V) where
  abbrev Yields : ℕ → Outcome (List ℕ) → Type 0
  Yields n o = (bs : List ℕ) → o ≡ returns bs → Objects m n bs

  fails-Yields : (n : ℕ) → Yields n fails
  fails-Yields n bs e = absurd (cc)

  panics-Yields : (n : ℕ) → Yields n panics
  panics-Yields n bs e = absurd (cc)

  written-Yields : (n : ℕ) (w : Option (List ℕ)) → Writes m n w → Yields n (written w)
  written-Yields n none h bs e = absurd (cc)
  written-Yields n (some w) h bs e = h bs (ap some (returns_inj e))

  then_with-Yields :
      {A : Type 0} (n : ℕ) (o : Outcome A) (f : A → Outcome (List ℕ))
      → ((a : A) → o ≡ returns a → Yields n (f a))
      → Yields n (then_with o f)
  then_with-Yields n (returns a) f h = h a refl
  then_with-Yields n fails f h = fails-Yields n
  then_with-Yields n panics f h = panics-Yields n

module _ {V : Type 0} (m : Codec V) (laws : IsCodec m) (lower : String → String) where
  encode_key-Writes : (k : String) (v : V) → Writes m 1 (encode_key m lower k v)
  unfolding encode_key
  encode_key-Writes k v =
      Writes-map m laws 1 _ (omega arith) (
        Writes-then m 1 1 (string m _) (m.encode v) (Writes-string m laws _)
          (Writes-value m laws v))

  one_more :
      (n : ℕ) (v w : Option (List ℕ)) → Writes m 1 v → Writes m n w → Writes m (n + 1) (v ▸ w)
  one_more n v w hv hw =
      let e : 1 + n ≡ n + 1 = omega arith in
      subst (λ k. Writes m k (v ▸ w)) e (Writes-then m 1 n v w hv hw)

  encode_keys-Writes : (mp : List (String × V)) → Writes m (length mp) (encode_keys m lower mp)
  unfolding encode_keys
  encode_keys-Writes [] = Writes-nothing m laws
  encode_keys-Writes ((k, v) ∷ mp) =
      let n : length mp + 1 ≡ length ((k, v) ∷ mp) = omega arith in
      subst (λ c. Writes m c (encode_key m lower k v ▸ encode_keys m lower mp)) n
        (one_more (length mp) _ _ (encode_key-Writes k v) (encode_keys-Writes mp))

  encode_item-Writes : (v : BindItem V) → Writes m 1 (encode_item m lower v)
  unfolding encode_item
  encode_item-Writes (key_value k v) = encode_key-Writes k v
  encode_item-Writes (plain v) = Writes-value m laws v

  encode_items-Writes : (vs : List (BindItem V)) → Writes m (length vs) (encode_items m lower vs)
  unfolding encode_items
  encode_items-Writes [] = Writes-nothing m laws
  encode_items-Writes (v ∷ vs) =
      let n : length vs + 1 ≡ length (v ∷ vs) = omega arith in
      subst (λ c. Writes m c (encode_item m lower v ▸ encode_items m lower vs)) n
        (one_more (length vs) _ _ (encode_item-Writes v) (encode_items-Writes vs))

  length-lower_names :
      (fields : List (String × V)) → length (lower_names m lower fields) ≡ length fields
  length-lower_names [] = refl
  length-lower_names ((k, v) ∷ fields) = ap suc (length-lower_names fields)

  array-Yields :
      (n : ℕ) (w : Option (List ℕ))
      → n < 2 ^ 32
      → Writes m n w
      → Yields m 1 (written (array_len m n ▸ w))
  array-Yields n w h hw = written-Yields m 1 _ (Writes-array m laws n w h hw)

  encode_sql_bind-Yields : (b : Bind V) → IsBind b → Yields m 1 (encode_sql_bind m lower b)
  unfolding encode_sql_bind
  encode_sql_bind-Yields (string_map mp) h = array-Yields (length mp) _ h (encode_keys-Writes mp)
  encode_sql_bind-Yields other_map h = fails-Yields m 1
  encode_sql_bind-Yields (struct fields) h = array-Yields (length fields) _ h (
      subst (λ k. Writes m k (encode_keys m lower (lower_names m lower fields)))
        (length-lower_names fields) (encode_keys-Writes (lower_names m lower fields)))
  encode_sql_bind-Yields (items vs) h = array-Yields (length vs) _ h (encode_items-Writes vs)
  encode_sql_bind-Yields (key_values kvs) h = array-Yields (length kvs) _ h (encode_keys-Writes kvs)
  encode_sql_bind-Yields other_slice h = panics-Yields m 1
  encode_sql_bind-Yields other_kind h = absurd h

  Writes-bytes : (bs : List ℕ) → Objects m 1 bs → Writes m 1 (some bs)
  Writes-bytes bs h cs e = subst (Objects m 1) (cc) h

  fill_execute-Yields :
      (expr : String) (b : Bind V) → IsBind b → Yields m 1 (fill_execute m lower expr b)
  unfolding fill_execute
  fill_execute-Yields expr b h = then_with-Yields m 1 (encode_sql_bind m lower b) _ (λ bs e.
      written-Yields m 1 _ (
        Writes-map m laws 2 _ (omega arith) (
          pair m laws _ 2 (string m expr) _ (omega arith) (Writes-string m laws expr) (
            last m laws _ (some bs) (omega arith)
              (Writes-bytes bs (encode_sql_bind-Yields b h bs e))))))

  fill_execute_prepared-Yields :
      (stmt : Prepared) (b : Bind V)
      → IsWord stmt.statement_id
      → IsBind b
      → Yields m 1 (fill_execute_prepared m lower stmt b)
  unfolding fill_execute_prepared
  fill_execute_prepared-Yields stmt b hs h =
      then_with-Yields m 1 (encode_sql_bind m lower b) _ (λ bs e. written-Yields m 1 _ (
        Writes-map m laws 2 _ (omega arith) (
          pair m laws _ 2 (uint m stmt.statement_id) _ (omega arith) (Writes-uint m laws _ hs) (
            last m laws _ (some bs) (omega arith)
              (Writes-bytes bs (encode_sql_bind-Yields b h bs e))))))

  resolved-Yields :
      (o : Outcome (ℕ × ℕ)) (w : ℕ × ℕ → Option (List ℕ))
      → ((no : ℕ × ℕ) → o ≡ returns no → Writes m 1 (w no))
      → Yields m 1 (then_with o (λ no. written (w no)))
  resolved-Yields o w h =
      then_with-Yields m 1 o (λ no. written (w no)) (λ no e. written-Yields m 1 (w no) (h no e))

  event-Yields : (key : String) → Yields m 1 (written (fill_event m key))
  unfolding fill_event
  event-Yields key =
      written-Yields m 1 _
        (one_pair-Writes m laws _ (string m key) (omega arith) (Writes-string m laws key))

  -- Whatever request it is, the body that it gives is one msgpack object: the heads of its
  -- maps and arrays announce the entries that follow. The numbers of the request and of the resolver fit their
  -- words, its lists the heads of an array, and SQL arguments are of a kind that the code knows.
  pub body-Object :
      {S I : Type 0} (resolve : S → Option I → Outcome (ℕ × ℕ)) (r : Request S I V) (bs : List ℕ)
      → IsResolver resolve
      → IsRequest r
      → body m lower resolve r ≡ returns bs
      → Objects m 1 bs
  unfolding body fill_ping fill_commit fill_rollback fill_prepare fill_unprepare
  body-Object resolve (ping r) bs hres h = written-Yields m 1 _ (no_pairs-Writes m laws) bs
  body-Object resolve (select r) bs hres (ho, hl, hi) =
      resolved-Yields (resolve r.space r.index) _
        (λ no e.
          let w = hres r.space r.index no e in
          fill_select-Writes m laws no.0 no.1 r.offset r.limit r.iterator r.key r.after r.fetch_pos
            w.0 w.1 ho hl hi)
        bs
  body-Object resolve (insert r) bs hres h =
      resolved-Yields (resolve r.space none) _
        (λ no e. fill_insert-Writes m laws no.0 r.tuple (hres r.space none no e).0) bs
  body-Object resolve (replace r) bs hres h =
      resolved-Yields (resolve r.space none) _
        (λ no e. fill_insert-Writes m laws no.0 r.tuple (hres r.space none no e).0) bs
  body-Object resolve (delete r) bs hres h =
      resolved-Yields (resolve r.space r.index) _
        (λ no e.
          let w = hres r.space r.index no e in fill_delete-Writes m laws no.0 no.1 r.key w.0 w.1)
        bs
  body-Object resolve (update r) bs hres h =
      resolved-Yields (resolve r.space r.index) _
        (λ no e.
          let w = hres r.space r.index no e in
          fill_update-Writes m laws no.0 no.1 r.key r.ops w.0 w.1)
        bs
  body-Object resolve (upsert r) bs hres h =
      resolved-Yields (resolve r.space none) _
        (λ no e. fill_upsert-Writes m laws no.0 r.tuple r.ops (hres r.space none no e).0) bs
  body-Object resolve (call r) bs hres h =
      written-Yields m 1 _ (fill_call-Writes m laws r.function _) bs
  body-Object resolve (eval r) bs hres h =
      written-Yields m 1 _ (fill_eval-Writes m laws r.expr _) bs
  body-Object resolve (execute r) bs hres h = fill_execute-Yields r.expr r.args h bs
  body-Object resolve (prepare r) bs hres h =
      written-Yields m 1 _
        (one_pair-Writes m laws _ (string m r.expr) (omega arith) (Writes-string m laws r.expr)) bs
  body-Object resolve (unprepare r) bs hres h =
      written-Yields m 1 _
        (one_pair-Writes m laws _ (uint m r.stmt.statement_id) (omega arith)
          (Writes-uint m laws _ h))
        bs
  body-Object resolve (execute_prepared r) bs hres (hs, h) =
      fill_execute_prepared-Yields r.stmt r.args hs h bs
  body-Object resolve (begin r) bs hres h =
      written-Yields m 1 _ (fill_begin-Writes m laws r.isolation r.timeout h) bs
  body-Object resolve (commit r) bs hres h = written-Yields m 1 _ (no_pairs-Writes m laws) bs
  body-Object resolve (rollback r) bs hres h = written-Yields m 1 _ (no_pairs-Writes m laws) bs
  body-Object resolve (identify r) bs hres hl =
      written-Yields m 1 _ (fill_id-Writes m laws r.protocol_info.version _ hl) bs
  body-Object resolve (broadcast r) bs hres h =
      written-Yields m 1 _ (fill_call-Writes m laws r.call.function _) bs
  body-Object resolve (watch r) bs hres h = event-Yields r.key bs
  body-Object resolve (unwatch r) bs hres h = event-Yields r.key bs
