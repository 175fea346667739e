-- ===== src/Response/Filled.antt =====
-- response.go: what the pairs of a body make of a response, once and again.
use go_tarantool.Common.{
  ℕ, ◌≡◌, refl, sym, ap, subst, ◌∙◌, ◌⊎◌, inl, inr, String, Bool-cases, Option-cases, List, [], ◌∷◌,
  Option, none, some, Outcome, returns, fails, ◌==◌, arith,
}
use go_tarantool.Msgpack.Decoder.{Decoder}
use go_tarantool.BoxError.{BoxError}
use go_tarantool.Request.WellFormed.{returns_inj}
use go_tarantool.Response.{
  ColumnMetaData, SqlInfo, Datum, Response, ResponseReader, BodyState, prepared, protocol,
  with_prepared, with_protocol,
}
use go_tarantool.Response.Uniform.{
  Update, set_items, set_error, set_sql_info, set_meta_data, set_pos, set_info, set_stmt_id,
  set_bind_count, set_version, set_features, set_auth, skipped, update, update_all,
}

-- The last of the values, or else the one at the start.
abbrev value_or : {A : Type 0} → Option A → A → A
value_or none a = a
value_or (some b) a = b

abbrev pub last_of : {X A : Type 0} → (X → Option A) → A → List X → A
last_of pick a [] = a
last_of pick a (x ∷ xs) = last_of pick (value_or (pick x) a) xs

last_of-cases :
    {X A : Type 0} (pick : X → Option A) (xs : List X)
    → ((a : A) → last_of pick a xs ≡ a) ⊎ ((b : A) × ((a : A) → last_of pick a xs ≡ b))
last_of-cases pick [] = inl (λ a. refl)
last_of-cases pick (x ∷ xs) = elim (last_of-cases pick xs) [
  | inr (b, h) ↦ inr (b, λ a. h (value_or (pick x) a))
  | inl h ↦ elim (Option-cases (pick x)) [
    | inl e ↦ inl (λ a. rw e (h a))
    | inr (b, e) ↦ inr (b, λ a. rw e (h b))
  ]
]

last_of-twice :
    {X A : Type 0} (pick : X → Option A) (xs : List X) (a : A)
    → last_of pick (last_of pick a xs) xs ≡ last_of pick a xs
last_of-twice pick xs a = elim (last_of-cases pick xs) [
  | inl h ↦ h (last_of pick a xs)
  | inr (b, h) ↦ h (last_of pick a xs) ∙ sym (h a)
]

module _ {V : Type 0} where
  abbrev as_items : Update V → Option (List (Datum V))
  as_items (set_items v) = some v
  as_items _ = none

  abbrev as_error : Update V → Option String
  as_error (set_error v) = some v
  as_error _ = none

  abbrev as_sql_info : Update V → Option SqlInfo
  as_sql_info (set_sql_info v) = some v
  as_sql_info _ = none

  abbrev as_meta_data : Update V → Option (List ColumnMetaData)
  as_meta_data (set_meta_data v) = some v
  as_meta_data _ = none

  abbrev as_pos : Update V → Option (List ℕ)
  as_pos (set_pos v) = some v
  as_pos _ = none

  abbrev pub as_error_info : Update V → Option (Option (BoxError V))
  as_error_info (set_info v) = some (some v)
  as_error_info _ = none

  abbrev as_stmt_id : Update V → Option ℕ
  as_stmt_id (set_stmt_id v) = some v
  as_stmt_id _ = none

  abbrev as_bind_count : Update V → Option ℕ
  as_bind_count (set_bind_count v) = some v
  as_bind_count _ = none

  abbrev as_version : Update V → Option ℕ
  as_version (set_version v) = some v
  as_version _ = none

  abbrev as_features : Update V → Option (Option (List ℕ))
  as_features (set_features v) = some (some v)
  as_features _ = none

  abbrev as_auth : Update V → Option (Option String)
  as_auth (set_auth v) = some (some v)
  as_auth _ = none

  -- What the updates make of a response.
  abbrev pub filled : List (Update V) → Response V → Response V
  filled us x = record x {
    items = last_of as_items x.items us;
    error = last_of as_error x.error us;
    sql_info = last_of as_sql_info x.sql_info us;
    meta_data = last_of as_meta_data x.meta_data us;
    pos = last_of as_pos x.pos us;
  }

  -- The variables behind the loop, with the response `x`.
  abbrev variables : List (Update V) → Response V → BodyState V → BodyState V
  variables us x s = record {
    resp = x;
    error_info = last_of as_error_info s.error_info us;
    stmt_id = last_of as_stmt_id s.stmt_id us;
    bind_count = last_of as_bind_count s.bind_count us;
    version = last_of as_version s.version us;
    features = last_of as_features s.features us;
    auth = last_of as_auth s.auth us;
  }

  pub update_all-filled :
      (us : List (Update V)) (s : BodyState V) → update_all us s ≡ variables us (filled us s.resp) s
  update_all-filled [] s = refl
  update_all-filled (set_items v ∷ us) s = update_all-filled us (update (set_items v) s)
  update_all-filled (set_error v ∷ us) s = update_all-filled us (update (set_error v) s)
  update_all-filled (set_sql_info v ∷ us) s = update_all-filled us (update (set_sql_info v) s)
  update_all-filled (set_meta_data v ∷ us) s = update_all-filled us (update (set_meta_data v) s)
  update_all-filled (set_pos v ∷ us) s = update_all-filled us (update (set_pos v) s)
  update_all-filled (set_info v ∷ us) s = update_all-filled us (update (set_info v) s)
  update_all-filled (set_stmt_id v ∷ us) s = update_all-filled us (update (set_stmt_id v) s)
  update_all-filled (set_bind_count v ∷ us) s = update_all-filled us (update (set_bind_count v) s)
  update_all-filled (set_version v ∷ us) s = update_all-filled us (update (set_version v) s)
  update_all-filled (set_features v ∷ us) s = update_all-filled us (update (set_features v) s)
  update_all-filled (set_auth v ∷ us) s = update_all-filled us (update (set_auth v) s)
  update_all-filled (skipped ∷ us) s = update_all-filled us s

  -- The elements that stand for the description of a prepared statement or of a protocol.
  abbrev pub Overrides : (Response V → Outcome (Response V)) → Type 0
  Overrides g =
      ((x : Response V) → g x ≡ fails)
      ⊎ (((x : Response V) → g x ≡ returns x)
          ⊎ ((f : List ColumnMetaData → List (Datum V)) × ((x : Response V)
                → g x ≡ returns (record x { items = f x.meta_data }))))

module _ {V : Type 0} (d : Decoder V) (rr : ResponseReader V) where
  abbrev settle :
      ℕ
      → ℕ
      → ℕ
      → Option (List ℕ)
      → Option String
      → Option (BoxError V)
      → Response V
      → Outcome (Response V)
  settle stmt_id bind_count version features auth info x =
      with_protocol d rr version features auth (
        with_prepared d rr (record {
          resp = x;
          stmt_id = stmt_id;
          bind_count = bind_count;
          version = version;
          features = features;
          auth = auth;
          error_info = info;
        }))

  settle-Overrides :
      (stmt_id bind_count version : ℕ) (features : Option (List ℕ)) (auth : Option String)
      (info : Option (BoxError V))
      → Overrides (settle stmt_id bind_count version features auth info)
  unfolding with_prepared
  settle-Overrides n b v none auth info = elim (Bool-cases (v == 0)) [
    | inr e ↦ inl (λ x. rw e refl)
    | inl e ↦ elim (Bool-cases (n == 0)) [
      | inl k ↦ inr (inl (λ x. rw (e, k) refl))
      | inr k ↦ inr (inr (λ l. prepared n b l ∷ [], λ x. rw (e, k) refl))
    ]
  ]
  settle-Overrides n b v (some features) auth info = elim (Bool-cases (v == 0)) [
    | inl e ↦ inl (λ x. rw e refl)
    | inr e ↦ elim (Bool-cases (n == 0)) [
      | inl k ↦ inr (inr (λ l. protocol v features auth ∷ [], λ x. rw (e, k) refl))
      | inr k ↦ inr (inr (λ l. protocol v features auth ∷ [], λ x. rw (e, k) refl))
    ]
  ]

  abbrev pub settled : List (Update V) → BodyState V → Response V → Outcome (Response V)
  settled us s =
      let q = variables us s.resp s in
      settle q.stmt_id q.bind_count q.version q.features q.auth q.error_info

  pub settled-Overrides : (us : List (Update V)) (s : BodyState V) → Overrides (settled us s)
  settled-Overrides us s =
      let q = variables us s.resp s in
      settle-Overrides q.stmt_id q.bind_count q.version q.features q.auth q.error_info

module _ {V : Type 0} where
  refilled :
      (us : List (Update V)) (x : Response V) (l : List (Datum V)) (code : ℕ)
      → record (filled us (record (filled us x) { items = l; code = code })) { items = l }
        ≡ record (filled us x) { items = l; code = code }
  refilled us x l code =
      rw
        (
          last_of-twice as_error us x.error,
          last_of-twice as_sql_info us x.sql_info,
          last_of-twice as_meta_data us x.meta_data,
          last_of-twice as_pos us x.pos,
        )
        refl

  refilled_items :
      (us : List (Update V)) (x : Response V) (code : ℕ)
      → filled us (record (filled us x) { code = code }) ≡ record (filled us x) { code = code }
  refilled_items us x code =
      rw
        (
          last_of-twice as_items us x.items,
          last_of-twice as_error us x.error,
          last_of-twice as_sql_info us x.sql_info,
          last_of-twice as_meta_data us x.meta_data,
          last_of-twice as_pos us x.pos,
        )
        refl

  -- A second run over what the first one left gives the same, whatever the code has become.
  pub finish_again :
      (g : Response V → Outcome (Response V)) (us : List (Update V)) (x y : Response V) (code : ℕ)
      → Overrides g
      → g (filled us x) ≡ returns y
      → g (filled us (record y { code = code })) ≡ returns (record y { code = code })
  finish_again g us x y code (inl e) h = absurd (ground (arith, e (filled us x), h))
  finish_again g us x y code (inr (inl e)) h =
      let same : filled us x ≡ y = returns_inj (sym (e (filled us x)) ∙ h) in
      subst (λ z. g (filled us (record z { code = code })) ≡ returns (record z { code = code }))
        same (e _ ∙ ap returns (refilled_items us x code))
  finish_again g us x y code (inr (inr (f, e))) h =
      let l = f (last_of as_meta_data x.meta_data us) in
      let same : record (filled us x) { items = l } ≡ y = returns_inj (sym (e (filled us x)) ∙ h) in
      subst (λ z. g (filled us (record z { code = code })) ≡ returns (record z { code = code }))
        same
        (e _
          ∙ ap
              (λ m. returns (record (filled us (record (filled us x) { items = l; code = code })) {
                items = f m;
              }))
              (last_of-twice as_meta_data us x.meta_data)
          ∙ ap returns (refilled us x l code))

  pub settled-fixed :
      (g : Response V → Outcome (Response V)) (us : List (Update V)) (x y : Response V)
      → Overrides g
      → g (filled us x) ≡ returns y
      → (y.code ≡ x.code) × (y.buf ≡ x.buf)
  settled-fixed g us x y (inl e) h = absurd (ground (arith, e (filled us x), h))
  settled-fixed g us x y (inr (inl e)) h =
      subst (λ z. (z.code ≡ x.code) × (z.buf ≡ x.buf)) (returns_inj (sym (e (filled us x)) ∙ h))
        (refl, refl)
  settled-fixed g us x y (inr (inr (f, e))) h =
      subst (λ z. (z.code ≡ x.code) × (z.buf ≡ x.buf)) (returns_inj (sym (e (filled us x)) ∙ h))
        (refl, refl)
