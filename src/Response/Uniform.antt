-- ===== src/Response/Uniform.antt =====
-- response.go: what the loop of `decodeBody` reads does not depend on the response that it fills.
use go_tarantool.Common.{
  ℕ, zero, suc, ◌≡◌, refl, sym, ap, ◌∙◌, ◌⊎◌, inl, inr, String, Bool, true, false, List, [], ◌∷◌,
  ◌++◌, Option, none, some, Outcome, returns, fails, panics, if◌then◌else◌, ◌==◌,
}
use go_tarantool.Iproto.{
  key_data, key_error, key_error24, key_sql_info, key_meta_data, key_stmt_id, key_bind_count,
  key_version, key_features, key_auth_type, key_pos,
}
use go_tarantool.Msgpack.Decoder.{Decoder, ◌>>-◌, each, turns}
use go_tarantool.BoxError.{BoxError, decode_box_error}
use go_tarantool.Response.{
  ColumnMetaData, SqlInfo, Datum, ResponseReader, BodyState, small_int, read_features, known_auth,
  all_data, with_items, body_value, body_pair,
}

-- What a pair of the body sets.
pub data Update (V : Type 0) : Type 0 where
  set_items : List (Datum V) → Update V
  set_error : String → Update V
  set_sql_info : SqlInfo → Update V
  set_meta_data : List ColumnMetaData → Update V
  set_pos : List ℕ → Update V
  set_info : BoxError V → Update V
  set_stmt_id : ℕ → Update V
  set_bind_count : ℕ → Update V
  set_version : ℕ → Update V
  set_features : List ℕ → Update V
  set_auth : String → Update V
  skipped : Update V

module _ {V : Type 0} where
  abbrev pub update : Update V → BodyState V → BodyState V
  update (set_items l) s = record s { resp = record s.resp { items = l } }
  update (set_error e) s = record s { resp = record s.resp { error = e } }
  update (set_sql_info i) s = record s { resp = record s.resp { sql_info = i } }
  update (set_meta_data l) s = record s { resp = record s.resp { meta_data = l } }
  update (set_pos l) s = record s { resp = record s.resp { pos = l } }
  update (set_info e) s = record s { error_info = some e }
  update (set_stmt_id n) s = record s { stmt_id = n }
  update (set_bind_count n) s = record s { bind_count = n }
  update (set_version n) s = record s { version = n }
  update (set_features l) s = record s { features = some l }
  update (set_auth a) s = record s { auth = some a }
  update skipped s = s

  abbrev pub update_all : List (Update V) → BodyState V → BodyState V
  update_all [] s = s
  update_all (u ∷ us) s = update_all us (update u s)

  update_all-append :
      (us ws : List (Update V)) (s : BodyState V)
      → update_all (us ++ ws) s ≡ update_all ws (update_all us s)
  update_all-append [] ws s = refl
  update_all-append (u ∷ us) ws s = update_all-append us ws (update u s)

  -- A step that reads the same whatever the state is: it fails, or it panics, or it makes the same updates.
  abbrev pub Uniform : (BodyState V → Outcome (BodyState V × List ℕ)) → Type 0
  Uniform g =
      ((s : BodyState V) → g s ≡ fails)
      ⊎ (((s : BodyState V) → g s ≡ panics)
          ⊎ ((us : List (Update V)) × (rest : List ℕ) × ((s : BodyState V)
                → g s ≡ returns (update_all us s, rest))))

  Uniform-if :
      (b : Bool) (g h : BodyState V → Outcome (BodyState V × List ℕ))
      → Uniform g
      → Uniform h
      → Uniform (λ s. if b then g s else h s)
  Uniform-if true g h hg hh = hg
  Uniform-if false g h hg hh = hh

  Uniform-then :
      {A : Type 0} (o : Outcome A) (k : A → BodyState V → Outcome (BodyState V × List ℕ))
      → ((a : A) → Uniform (k a))
      → Uniform (λ s. o >>- (λ a. k a s))
  Uniform-then (returns a) k h = h a
  Uniform-then fails k h = inl (λ s. refl)
  Uniform-then panics k h = inr (inl (λ s. refl))

  one : (u : Update V) (rest : List ℕ) → Uniform (λ s. returns (update u s, rest))
  one u rest = inr (inr (u ∷ [], rest, λ s. refl))

  Uniform-sequel :
      (g : BodyState V → Outcome (BodyState V × List ℕ))
      (k : List ℕ → BodyState V → Outcome (BodyState V × List ℕ))
      → Uniform g
      → ((rest : List ℕ) → Uniform (k rest))
      → Uniform (λ s. g s >>- (λ r. k r.1 r.0))
  Uniform-sequel g k (inl h) hk = inl (λ s. ap (λ o. o >>- (λ r. k r.1 r.0)) (h s))
  Uniform-sequel g k (inr (inl h)) hk = inr (inl (λ s. ap (λ o. o >>- (λ r. k r.1 r.0)) (h s)))
  Uniform-sequel g k (inr (inr (us, rest, h))) hk = behind (hk rest)
    where
      behind : Uniform (k rest) → Uniform (λ s. g s >>- (λ r. k r.1 r.0))
      behind (inl e) = inl (λ s. ap (λ o. o >>- (λ r. k r.1 r.0)) (h s) ∙ e (update_all us s))
      behind (inr (inl e)) =
          inr (inl (λ s. ap (λ o. o >>- (λ r. k r.1 r.0)) (h s) ∙ e (update_all us s)))
      behind (inr (inr (ws, left, e))) = inr (
          inr (
            us ++ ws,
            left,
            λ s.
                ap (λ o. o >>- (λ r. k r.1 r.0)) (h s)
                ∙ e (update_all us s)
                ∙ ap (λ x. returns (x, left)) (sym (update_all-append us ws s)),
          ))

module _ {V : Type 0} (d : Decoder V) (rr : ResponseReader V) where
  with_items-Uniform : (o : Option (List V)) (rest : List ℕ) → Uniform (λ s. with_items d s o rest)
  with_items-Uniform none rest = inl (λ s. refl)
  with_items-Uniform (some vs) rest = one (set_items (all_data d vs)) rest

  known_auth-Uniform : (auth : String) (rest : List ℕ) → Uniform (λ s. known_auth d s auth rest)
  known_auth-Uniform auth rest =
      Uniform-if _ (λ s. returns (record s { auth = some auth }, rest)) (λ s. fails)
        (one (set_auth auth) rest) (inl (λ s. refl))

  body_value-Uniform : (cd : ℕ) (input : List ℕ) → Uniform (λ s. body_value d rr cd s input)
  unfolding body_value
  body_value-Uniform cd input =
      Uniform-if (cd == key_data) _ _
        (Uniform-then (d.value input) _ (λ r. with_items-Uniform (rr.as_slice r.0) r.1))
        (Uniform-if (cd == key_error) _ _
          (Uniform-then (decode_box_error d input) _ (λ r. one (set_info r.0) r.1))
          (Uniform-if (cd == key_error24) _ _
            (Uniform-then (d.string input) _ (λ r. one (set_error r.0) r.1))
            (Uniform-if (cd == key_sql_info) _ _
              (Uniform-then (rr.read_sql_info input) _ (λ r. one (set_sql_info r.0) r.1))
              (Uniform-if (cd == key_meta_data) _ _
                (Uniform-then (rr.read_meta_data input) _ (λ r. one (set_meta_data r.0) r.1))
                (Uniform-if (cd == key_stmt_id) _ _
                  (Uniform-then (d.uint input) _ (λ r. one (set_stmt_id r.0) r.1))
                  (Uniform-if (cd == key_bind_count) _ _
                    (Uniform-then (d.uint input) _ (λ r. one (set_bind_count r.0) r.1))
                    (Uniform-if (cd == key_version) _ _
                      (Uniform-then (d.uint input) _ (λ r. one (set_version r.0) r.1))
                      (Uniform-if (cd == key_features) _ _
                        (Uniform-then (d.array_len input >>- read_features d) _
                          (λ r. one (set_features r.0) r.1))
                        (Uniform-if (cd == key_auth_type) _ _
                          (Uniform-then (d.string input) _ (λ r. known_auth-Uniform r.0 r.1))
                          (Uniform-if (cd == key_pos) _ _
                            (Uniform-then (d.bytes input) _ (λ r. one (set_pos r.0) r.1))
                            (Uniform-then (d.skip input) _ (λ rest. one skipped rest))))))))))))

  body_pair-Uniform : (input : List ℕ) → Uniform (λ s. body_pair d rr s input)
  unfolding body_pair
  body_pair-Uniform input = Uniform-then (small_int d input) _ (λ cd. body_value-Uniform cd.0 cd.1)

  pairs-Uniform : (n : ℕ) (input : List ℕ) → Uniform (λ s. each n (body_pair d rr) s input)
  unfolding each
  pairs-Uniform zero input = inr (inr ([], input, λ s. refl))
  pairs-Uniform (suc n) input =
      Uniform-sequel (λ s. body_pair d rr s input) (λ rest s. each n (body_pair d rr) s rest)
        (body_pair-Uniform input) (pairs-Uniform n)

  -- The whole loop, with the head of the map.
  pub loop-Uniform :
      (input : List ℕ)
      → Uniform (λ s. d.map_len input >>- (λ l. each (turns l.0) (body_pair d rr) s l.1))
  loop-Uniform input = Uniform-then (d.map_len input) _ (λ l. pairs-Uniform (turns l.0) l.1)
