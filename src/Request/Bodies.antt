-- ===== src/Request/Bodies.antt =====
-- request.go, prepared.go, stream.go, watch.go and protocol.go: what the bodies are as msgpack.
use go_tarantool.Common.{
  ℕ, ◌+◌, ◌*◌, ◌^◌, ◌<◌, ◌≡◌, ap, ◌∙◌, subst, String, Bool, true, false, List, [], ◌∷◌, Option,
  some, ltb, ◌==◌, if◌then◌else◌, length, arith,
}
use mathlib.Core.List.{append-nil}
use go_tarantool.Msgpack.{Codec, IsCodec}
use go_tarantool.Msgpack.Objects.{
  ◌▸◌, map_len, array_len, uint, string, bool, Writes, Writes-then, Writes-uint, Writes-string,
  Writes-bool, Writes-value, Writes-map, Writes-array, Writes-key, Writes-nothing,
}
use go_tarantool.Request.Fill.{
  After, no_after, after_pos, after_tuple, one_if, is_after, fill_search, fill_iterator,
  fill_insert, fill_after, fill_fetch_pos, fill_select, fill_update, fill_upsert, fill_delete,
  fill_call, fill_eval, fill_timeout, fill_isolation, fill_begin, fill_features, fill_id,
}

abbrev pub IsWord : ℕ → Type 0
IsWord n = n < 2 ^ 64

module _ {V : Type 0} (m : Codec V) (laws : IsCodec m) where
  -- A pair with a numeric key and one object.
  pub pair :
      (k a : ℕ) (v w : Option (List ℕ))
      → IsWord k
      → Writes m 1 v
      → Writes m a w
      → Writes m (1 + (1 + a)) (uint m k ▸ v ▸ w)
  pair k a v w hk hv hw = Writes-key m laws k (1 + a) (v ▸ w) hk (Writes-then m 1 a v w hv hw)

  pub last : (k : ℕ) (v : Option (List ℕ)) → IsWord k → Writes m 1 v → Writes m 2 (uint m k ▸ v)
  last k v hk hv = Writes-key m laws k 1 v hk hv

  fill_search-Writes :
      (s i : ℕ) (key : V) → IsWord s → IsWord i → Writes m 6 (fill_search m s i key)
  unfolding fill_search
  fill_search-Writes s i key hs hi = pair _ 4 (uint m s) _ (omega arith) (Writes-uint m laws s hs) (
      pair _ 2 (uint m i) _ (omega arith) (Writes-uint m laws i hi)
        (last _ (m.encode key) (omega arith) (Writes-value m laws key)))

  fill_iterator-Writes :
      (offset limit iterator : ℕ)
      → IsWord offset
      → IsWord limit
      → IsWord iterator
      → Writes m 6 (fill_iterator m offset limit iterator)
  unfolding fill_iterator
  fill_iterator-Writes offset limit iterator ho hl hi =
      pair _ 4 (uint m iterator) _ (omega arith) (Writes-uint m laws iterator hi) (
        pair _ 2 (uint m offset) _ (omega arith) (Writes-uint m laws offset ho)
          (last _ (uint m limit) (omega arith) (Writes-uint m laws limit hl)))

  pub fill_insert-Writes : (s : ℕ) (tuple : V) → IsWord s → Writes m 1 (fill_insert m s tuple)
  unfolding fill_insert
  fill_insert-Writes s tuple hs = Writes-map m laws 2 _ (omega arith) (
      pair _ 2 (uint m s) _ (omega arith) (Writes-uint m laws s hs)
        (last _ (m.encode tuple) (omega arith) (Writes-value m laws tuple)))

  fill_fetch_pos-Writes : (b : Bool) → Writes m (2 * one_if b) (fill_fetch_pos m b)
  unfolding fill_fetch_pos
  fill_fetch_pos-Writes true = last _ (bool m true) (omega arith) (Writes-bool m laws true)
  fill_fetch_pos-Writes false = Writes-nothing m laws

  fill_after-Writes : (a : After V) → Writes m (2 * one_if (is_after a)) (fill_after m a)
  unfolding fill_after
  fill_after-Writes no_after = Writes-nothing m laws
  fill_after-Writes (after_pos pos) = last _ (string m pos) (omega arith) (Writes-string m laws pos)
  fill_after-Writes (after_tuple v) = last _ (m.encode v) (omega arith) (Writes-value m laws v)

  one_if-bound : (b : Bool) → one_if b < 2
  one_if-bound true = omega arith
  one_if-bound false = omega arith

  two_flags : (a b : Bool) → (if a then 1 else 0) + (if b then 0 else 1) < 2 ^ 32
  two_flags true true = omega arith
  two_flags true false = omega arith
  two_flags false true = omega arith
  two_flags false false = omega arith

  pub fill_select-Writes :
      (s i offset limit iterator : ℕ) (key : V) (after : After V) (fetch_pos : Bool)
      → IsWord s
      → IsWord i
      → IsWord offset
      → IsWord limit
      → IsWord iterator
      → Writes m 1 (fill_select m s i offset limit iterator key after fetch_pos)
  unfolding fill_select
  fill_select-Writes s i offset limit iterator key after fetch_pos hs hi ho hl hit =
      let fb : one_if fetch_pos < 2 = one_if-bound fetch_pos in
      let ab : one_if (is_after after) < 2 = one_if-bound (is_after after) in
      let n : 6 + (6 + (2 * one_if fetch_pos + 2 * one_if (is_after after)))
          ≡ 2 * (6 + one_if fetch_pos + one_if (is_after after)) =
        omega arith in
      Writes-map m laws _ _ (omega arith) (
        subst
          (λ k. Writes m k (
            fill_iterator m offset limit iterator
            ▸ fill_search m s i key
            ▸ fill_fetch_pos m fetch_pos
            ▸ fill_after m after))
          n
          (Writes-then m 6 _ _ _ (fill_iterator-Writes offset limit iterator ho hl hit) (
            Writes-then m 6 _ _ _ (fill_search-Writes s i key hs hi) (
              Writes-then m (2 * one_if fetch_pos) _ _ _ (fill_fetch_pos-Writes fetch_pos)
                (fill_after-Writes after)))))

  pub fill_update-Writes :
      (s i : ℕ) (key ops : V) → IsWord s → IsWord i → Writes m 1 (fill_update m s i key ops)
  unfolding fill_update
  fill_update-Writes s i key ops hs hi = Writes-map m laws 4 _ (omega arith) (
      Writes-then m 6 2 _ _ (fill_search-Writes s i key hs hi)
        (last _ (m.encode ops) (omega arith) (Writes-value m laws ops)))

  pub fill_delete-Writes :
      (s i : ℕ) (key : V) → IsWord s → IsWord i → Writes m 1 (fill_delete m s i key)
  unfolding fill_delete
  fill_delete-Writes s i key hs hi =
      Writes-map m laws 3 _ (omega arith) (fill_search-Writes s i key hs hi)

  pub fill_upsert-Writes :
      (s : ℕ) (tuple ops : V) → IsWord s → Writes m 1 (fill_upsert m s tuple ops)
  unfolding fill_upsert
  fill_upsert-Writes s tuple ops hs = Writes-map m laws 3 _ (omega arith) (
      pair _ 4 (uint m s) _ (omega arith) (Writes-uint m laws s hs) (
        pair _ 2 (m.encode tuple) _ (omega arith) (Writes-value m laws tuple)
          (last _ (m.encode ops) (omega arith) (Writes-value m laws ops))))

  -- A map with a text and a value.
  text_value-Writes :
      (j k : ℕ) (t : String) (v : Option (List ℕ))
      → IsWord j
      → IsWord k
      → Writes m 1 v
      → Writes m 1 (map_len m 2 ▸ uint m j ▸ string m t ▸ uint m k ▸ v)
  text_value-Writes j k t v hj hk hv =
      Writes-map m laws 2 _ (omega arith)
        (pair j 2 (string m t) _ hj (Writes-string m laws t) (last k v hk hv))

  pub fill_call-Writes : (function : String) (args : V) → Writes m 1 (fill_call m function args)
  unfolding fill_call
  fill_call-Writes function args =
      text_value-Writes _ _ function (m.encode args) (omega arith) (omega arith)
        (Writes-value m laws args)

  pub fill_eval-Writes : (expr : String) (args : V) → Writes m 1 (fill_eval m expr args)
  unfolding fill_eval
  fill_eval-Writes expr args =
      text_value-Writes _ _ expr (m.encode args) (omega arith) (omega arith)
        (Writes-value m laws args)

  pub no_pairs-Writes : Writes m 1 (map_len m 0)
  no_pairs-Writes bs e =
      Writes-map m laws 0 (some []) (omega arith) (Writes-nothing m laws) bs
        (ap some (append-nil (m.encode_map_len 0)) ∙ e)

  flag-Writes :
      (b : Bool) (v : Option (List ℕ))
      → Writes m 2 v
      → Writes m (2 * (if b then 1 else 0)) (if b then v else some [])
  flag-Writes true v h = h
  flag-Writes false v h = Writes-nothing m laws

  no_flag-Writes :
      (b : Bool) (v : Option (List ℕ))
      → Writes m 2 v
      → Writes m (2 * (if b then 0 else 1)) (if b then some [] else v)
  no_flag-Writes true v h = Writes-nothing m laws
  no_flag-Writes false v h = h

  fill_timeout-Writes : (t : ℕ) → Writes m (2 * (if ltb 0 t then 1 else 0)) (fill_timeout m t)
  unfolding fill_timeout
  fill_timeout-Writes t =
      flag-Writes (ltb 0 t) _
        (last _ (m.encode (m.seconds t)) (omega arith) (Writes-value m laws (m.seconds t)))

  fill_isolation-Writes :
      (level : ℕ)
      → IsWord level
      → Writes m (2 * (if level == 0 then 0 else 1)) (fill_isolation m level)
  unfolding fill_isolation
  fill_isolation-Writes level h =
      no_flag-Writes (level == 0) _
        (last _ (uint m level) (omega arith) (Writes-uint m laws level h))

  pub fill_begin-Writes : (level t : ℕ) → IsWord level → Writes m 1 (fill_begin m level t)
  unfolding fill_begin
  fill_begin-Writes level t h =
      let a = (if ltb 0 t then 1 else 0) in
      let b = (if level == 0 then 0 else 1) in
      let n : 2 * a + 2 * b ≡ 2 * (a + b) = omega arith in
      Writes-map m laws (a + b) _ (two_flags (ltb 0 t) (level == 0)) (
        subst (λ k. Writes m k (fill_timeout m t ▸ fill_isolation m level)) n
          (Writes-then m (2 * a) _ _ _ (fill_timeout-Writes t) (fill_isolation-Writes level h)))

  pub one_pair-Writes :
      (k : ℕ) (v : Option (List ℕ))
      → IsWord k
      → Writes m 1 v
      → Writes m 1 (map_len m 1 ▸ uint m k ▸ v)
  one_pair-Writes k v hk hv = Writes-map m laws 1 _ (omega arith) (last k v hk hv)

  fill_features-Writes : (fs : List ℕ) → Writes m (length fs) (fill_features m fs)
  unfolding fill_features
  fill_features-Writes [] = Writes-nothing m laws
  fill_features-Writes (f ∷ fs) =
      let n : 1 + length fs ≡ length (f ∷ fs) = omega arith in
      subst (λ k. Writes m k (m.encode (m.unsigned f) ▸ fill_features m fs)) n
        (Writes-then m 1 (length fs) _ _ (Writes-value m laws (m.unsigned f))
          (fill_features-Writes fs))

  pub fill_id-Writes :
      (version : ℕ) (fs : List ℕ) → length fs < 2 ^ 32 → Writes m 1 (fill_id m version fs)
  unfolding fill_id
  fill_id-Writes version fs hl = Writes-map m laws 2 _ (omega arith) (
      pair _ 2 (m.encode (m.unsigned version)) _ (omega arith)
        (Writes-value m laws (m.unsigned version))
        (last _ (array_len m (length fs) ▸ fill_features m fs) (omega arith)
          (Writes-array m laws (length fs) _ hl (fill_features-Writes fs))))
