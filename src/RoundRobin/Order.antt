-- ===== src/RoundRobin/Order.antt =====
-- The abstract view of a subpool: its connections with their addresses, in the order of the turns.
use go_tarantool.Common.{
  ℕ, zero, suc, ◌+◌, ◌-◌, ◌<◌, ◌≡◌, refl, ◌≢◌, inl, inr, Bool-cases, String, List, [], ◌∷◌, ◌++◌,
  Option, none, some, arith, ltb, if◌then◌else◌, str_eq, str_eq_iff, Option-cases, get_elem?, set,
  take, drop, length,
}
use mathlib.Core.Option

module _ {ℓ} {C : Type ℓ} where
  abbrev pub index_of : String → List (String × C) → Option ℕ
  index_of a [] = none
  index_of a ((b, c) ∷ l) = if str_eq b a then some 0 else Option.map suc (index_of a l)

  abbrev pub find : String → List (String × C) → Option C
  find a [] = none
  find a ((b, c) ∷ l) = if str_eq b a then some c else find a l

  -- Replaces in place, or joins at the end.
  abbrev pub put : String → C → List (String × C) → List (String × C)
  put a c [] = (a, c) ∷ []
  put a c ((b, d) ∷ l) = if str_eq b a then (b, c) ∷ l else (b, d) ∷ put a c l

  abbrev pub remove : String → List (String × C) → List (String × C)
  remove a [] = []
  remove a ((b, d) ∷ l) = if str_eq b a then l else (b, d) ∷ remove a l

  abbrev pub values : List (String × C) → List C
  values [] = []
  values ((b, d) ∷ l) = d ∷ values l

  -- No address stands twice.
  abbrev pub Distinct : List (String × C) → Type 0
  Distinct [] = Unit {0}
  Distinct ((b, d) ∷ l) = (index_of b l ≡ none) × Distinct l

  pub find-values :
      (a : String) (l : List (String × C)) (i : ℕ)
      → index_of a l ≡ some i
      → (get_elem? (values l) i ≡ find a l) × (i < length (values l))
  find-values a [] i h = ground arith
  find-values a ((b, d) ∷ l) zero h = ground (arith, find-values a l 0)
  find-values a ((b, d) ∷ l) (suc i) h = ground (arith, find-values a l i)

  pub find-none : (a : String) (l : List (String × C)) → index_of a l ≡ none → find a l ≡ none
  find-none a [] h = refl
  find-none a ((b, d) ∷ l) h = ground (arith, find-none a l)

  pub values-remove :
      (a : String) (l : List (String × C)) (i : ℕ)
      → index_of a l ≡ some i
      → values (remove a l) ≡ take i (values l) ++ drop (i + 1) (values l)
  values-remove a [] i h = ground arith
  values-remove a ((b, d) ∷ l) zero h = ground (arith, values-remove a l 0)
  values-remove a ((b, d) ∷ l) (suc i) h = ground (arith, values-remove a l i)

  pub length-values-remove :
      (a : String) (l : List (String × C)) (i : ℕ)
      → index_of a l ≡ some i
      → length (values (remove a l)) ≡ length (values l) - 1
  length-values-remove a [] i h = ground arith
  length-values-remove a ((b, d) ∷ l) zero h = ground (arith, length-values-remove a l 0)
  length-values-remove a ((b, d) ∷ l) (suc i) h =
      ground (arith, length-values-remove a l i, find-values a l i)

  -- The entries behind the removed one move up by a place.
  pub index_of-remove :
      (a b : String) (l : List (String × C)) (i : ℕ)
      → index_of a l ≡ some i
      → a ≢ b
      → index_of b (remove a l) ≡ Option.map (λ v. if ltb i v then v - 1 else v) (index_of b l)
  index_of-remove a b [] i h n = ground arith
  index_of-remove a b ((k, d) ∷ l) zero h n =
      ground (arith, str_eq_iff k a, str_eq_iff k b, index_of-remove a b l 0)
  index_of-remove a b ((k, d) ∷ l) (suc i) h n =
      ground (arith, str_eq_iff k a, str_eq_iff k b, index_of-remove a b l i)

  index_of_absent :
      (a b : String) (l : List (String × C)) → index_of b l ≡ none → index_of b (remove a l) ≡ none
  index_of_absent a b [] h = refl
  index_of_absent a b ((k, d) ∷ l) h = ground (arith, index_of_absent a b l)

  pub index_of-remove_self :
      (a : String) (l : List (String × C)) → Distinct l → index_of a (remove a l) ≡ none
  index_of-remove_self a [] h = refl
  index_of-remove_self a ((k, d) ∷ l) h = ground (arith, str_eq_iff k a, index_of-remove_self a l)

  pub remove-Distinct : (a : String) (l : List (String × C)) → Distinct l → Distinct (remove a l)
  remove-Distinct a [] h = tt
  remove-Distinct a ((k, d) ∷ l) h = ground (arith, remove-Distinct a l, index_of_absent a k l)

  pub values-put_found :
      (a : String) (c : C) (l : List (String × C)) (i : ℕ)
      → index_of a l ≡ some i
      → values (put a c l) ≡ set (values l) i c
  values-put_found a c [] i h = ground arith
  values-put_found a c ((b, d) ∷ l) zero h = ground (arith, values-put_found a c l 0)
  values-put_found a c ((b, d) ∷ l) (suc i) h = ground (arith, values-put_found a c l i)

  pub values-put_new :
      (a : String) (c : C) (l : List (String × C))
      → index_of a l ≡ none
      → values (put a c l) ≡ values l ++ c ∷ []
  values-put_new a c [] h = refl
  values-put_new a c ((b, d) ∷ l) h = ground (arith, values-put_new a c l)

  pub index_of-put_found :
      (a b : String) (c : C) (l : List (String × C)) (i : ℕ)
      → index_of a l ≡ some i
      → index_of b (put a c l) ≡ index_of b l
  index_of-put_found a b c [] i h = ground arith
  index_of-put_found a b c ((k, d) ∷ l) zero h = ground (arith, index_of-put_found a b c l 0)
  index_of-put_found a b c ((k, d) ∷ l) (suc i) h = ground (arith, index_of-put_found a b c l i)

  pub index_of-put_new :
      (a b : String) (c : C) (l : List (String × C))
      → index_of a l ≡ none
      → index_of b (put a c l) ≡ (if str_eq a b then some (length (values l)) else index_of b l)
  index_of-put_new a b c [] h = refl
  index_of-put_new a b c ((k, d) ∷ l) h =
      ground (arith, str_eq_iff k a, str_eq_iff k b, str_eq_iff a b, index_of-put_new a b c l)

  pub put-Distinct :
      (a : String) (c : C) (l : List (String × C)) → Distinct l → Distinct (put a c l)
  put-Distinct a c [] h = (refl, tt)
  put-Distinct a c ((k, d) ∷ l) h = elim (Option-cases (index_of a l)) [
    | inl e ↦
        ground (arith, str_eq_iff k a, str_eq_iff a k, put-Distinct a c l, index_of-put_new a k c l)
    | inr (i, e) ↦ ground (arith, str_eq_iff k a, put-Distinct a c l, index_of-put_found a k c l i)
  ]

  pub find-put :
      (a b : String) (c : C) (l : List (String × C))
      → find b (put a c l) ≡ (if str_eq a b then some c else find b l)
  find-put a b c [] = refl
  find-put a b c ((k, d) ∷ l) =
      ground (arith, str_eq_iff k a, str_eq_iff k b, str_eq_iff a b, find-put a b c l)

  pub find-remove :
      (a b : String) (l : List (String × C))
      → Distinct l
      → find b (remove a l) ≡ (if str_eq a b then none else find b l)
  find-remove a b [] h = ground arith
  find-remove a b ((k, d) ∷ l) h =
      ground
        (arith, str_eq_iff k a, str_eq_iff k b, str_eq_iff a b, find-remove a b l, find-none b l)

  pub remove_absent : (a : String) (l : List (String × C)) → index_of a l ≡ none → remove a l ≡ l
  remove_absent a [] h = refl
  remove_absent a ((b, d) ∷ l) h = ground (arith, remove_absent a l)

  index_of_found :
      (a : String) (c : C) (l : List (String × C))
      → find a l ≡ some c
      → (i : ℕ) × (index_of a l ≡ some i)
  index_of_found a c [] h = ground arith
  index_of_found a c ((b, d) ∷ l) h = elim (Bool-cases (str_eq b a)) [
    | inl e ↦ (0, ground arith)
    | inr e ↦ let (i, hi) = index_of_found a c l (ground arith) in (suc i, ground arith)
  ]

  -- Every element of the order is the connection of an address.
  pub find_elem :
      (l : List (String × C)) (i : ℕ) (c : C)
      → Distinct l
      → get_elem? (values l) i ≡ some c
      → (a : String) × (find a l ≡ some c)
  find_elem [] i c h e = ground arith
  find_elem ((b, d) ∷ l) zero c h e = (b, ground (arith, str_eq_iff b b))
  find_elem ((b, d) ∷ l) (suc i) c h e =
      let (a, found) = find_elem l i c h.1 e in
      let (j, place) = index_of_found a c l found in (a, ground (arith, str_eq_iff b a))
