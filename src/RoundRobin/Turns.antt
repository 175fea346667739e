-- ===== src/RoundRobin/Turns.antt =====
-- The order in which round_robin.go hands its connections out.
use go_tarantool.Common.{
  ℕ, zero, suc, ◌+◌, ◌-◌, ◌%◌, ◌^◌, ◌≤◌, ◌<◌, ◌≡◌, refl, sym, ap, ◌∙◌, ◌≢◌, String, List, [], ◌∷◌,
  ◌++◌, map, Option, some, arith, length, get_elem?, take, drop, get_elem?-lt, length-drop,
}
use go_tarantool.RoundRobin.{RoundRobin, get_next_connection}
use go_tarantool.RoundRobin.Refine.{Repr}
use go_tarantool.RoundRobin.Order.{values}
use mathlib.Core.List.{map-append}
use native.Mathlib.Nat.{mod-lt, mod_self, mod-add-mod}

mod_next : (c s j : ℕ) → c % s ≡ j → suc j < s → (c + 1) % s ≡ suc j
mod_next c s j h lt = grind arith

mod_wrap : (c s j : ℕ) → c % s ≡ j → suc j ≡ s → (c + 1) % s ≡ 0
mod_wrap c s j h e = grind arith

wraps : (c s j : ℕ) → c % s ≡ j → j < s → (c + (s - j)) % s ≡ 0
wraps c s j h lt =
    let whole : j + (s - j) ≡ s = omega arith in
    sym (mod-add-mod c s (s - j)) ∙ rw (h, whole) (mod_self s)

module _ {ℓ} {C : Type ℓ} where
  take-drop-suc :
      (xs : List C) (j m : ℕ) (x : C)
      → get_elem? xs j ≡ some x
      → take (suc m) (drop j xs) ≡ x ∷ take m (drop (suc j) xs)
  take-drop-suc [] j m x h = ground arith
  take-drop-suc (y ∷ ys) zero m x h = ground arith
  take-drop-suc (y ∷ ys) (suc j) m x h = take-drop-suc ys j m x h

  -- The connections that `n` calls of `GetNextConnection` return, one after the other.
  abbrev pub turns : ℕ → RoundRobin C → List (Option C)
  turns zero r = []
  turns (suc n) r = (get_next_connection r).0 ∷ turns n (get_next_connection r).1

  abbrev pub after : ℕ → RoundRobin C → RoundRobin C
  after zero r = r
  after (suc n) r = after n (get_next_connection r).1

  get_next_connection_lem :
      (r : RoundRobin C) (j : ℕ) (x : C)
      → r.size ≢ 0
      → r.current + 1 < 2 ^ 64
      → r.current % r.size ≡ j
      → get_elem? r.conns j ≡ some x
      → get_next_connection r ≡ (some x, record r { current = r.current + 1 })
  unfolding get_next_connection
  get_next_connection_lem r j x n lt e h =
      let no_wrap : (r.current + 1) % 2 ^ 64 ≡ r.current + 1 = omega arith in ground arith

  abbrev moved : RoundRobin C → ℕ → RoundRobin C
  moved r n = record r { current = r.current + n }

  -- `m` calls take the elements of the slice from `j` on, and nothing but `current` changes.
  abbrev Straight : ℕ → ℕ → RoundRobin C → Type ℓ
  Straight m j r = (turns m r ≡ map some (take m (drop j r.conns))) × (after m r ≡ moved r m)

  Straight-zero : (j : ℕ) (r : RoundRobin C) → Straight 0 j r
  Straight-zero j r = (refl, ap (λ c. record r { current = c }) (omega arith))

  Straight-suc :
      (m j : ℕ) (r : RoundRobin C) (x : C)
      → r.size ≢ 0
      → r.current + 1 < 2 ^ 64
      → r.current % r.size ≡ j
      → get_elem? r.conns j ≡ some x
      → Straight m (suc j) (moved r 1)
      → Straight (suc m) j r
  Straight-suc m j r x n lt e h (ts, es) =
      let step = get_next_connection_lem r j x n lt e h in
      (
        rw (step, take-drop-suc r.conns j m x h) (ap (λ t. some x ∷ t) ts),
        rw step (es ∙ ap (λ c. record r { current = c }) (omega arith)),
      )

  straight :
      (m j : ℕ) (r : RoundRobin C)
      → r.size ≡ length r.conns
      → r.current % r.size ≡ j
      → j + m ≤ length r.conns
      → r.current + m < 2 ^ 64
      → Straight m j r
  straight zero j r hs hj hm hc = Straight-zero j r
  straight (suc zero) j r hs hj hm hc =
      let (x, hx) = get_elem?-lt r.conns j (omega arith) in
      Straight-suc 0 j r x (omega arith) (omega arith) hj hx (Straight-zero (suc j) (moved r 1))
  straight (suc (suc m)) j r hs hj hm hc =
      let (x, hx) = get_elem?-lt r.conns j (omega arith) in
      Straight-suc (suc m) j r x (omega arith) (omega arith) hj hx (
        straight (suc m) (suc j) (moved r 1) hs (mod_next r.current r.size j hj (omega arith))
          (omega arith) (omega arith))

  turns-add : (m n : ℕ) (r : RoundRobin C) → turns (m + n) r ≡ turns m r ++ turns n (after m r)
  turns-add zero n r = ap (λ k. turns k r) (omega arith)
  turns-add (suc m) n r =
      let e : suc m + n ≡ suc (m + n) = omega arith in
      ap (λ k. turns k r) e
      ∙ ap (λ t. (get_next_connection r).0 ∷ t) (turns-add m n (get_next_connection r).1)

  take_all : (xs : List C) (n : ℕ) → length xs ≤ n → take n xs ≡ xs
  take_all [] zero h = refl
  take_all [] (suc n) h = refl
  take_all (x ∷ xs) zero h = absurd (omega arith)
  take_all (x ∷ xs) (suc n) h = ap (◌∷◌ x) (take_all xs n (omega arith))

  drop_nil : (n : ℕ) → drop {A = C} n [] ≡ []
  drop_nil zero = refl
  drop_nil (suc n) = refl

  take_nil : (n : ℕ) → take {A = C} n [] ≡ []
  take_nil zero = refl
  take_nil (suc n) = refl

  -- From the current index to the end of the slice, and then from its start.
  rotation :
      (r : RoundRobin C) (j : ℕ)
      → r.size ≡ length r.conns
      → r.size ≢ 0
      → r.current % r.size ≡ j
      → r.current + r.size < 2 ^ 64
      → turns r.size r ≡ map some (drop j r.conns ++ take j r.conns)
  rotation r j hs n hj hc =
      let lt : j < r.size = rw (← hj) (mod-lt r.current (omega arith)) in
      let (t1, a1) = straight (r.size - j) j r hs hj (omega arith) (omega arith) in
      let wrap : (r.current + (r.size - j)) % r.size ≡ 0 = wraps r.current r.size j hj lt in
      let (t2, a2) = straight j 0 (moved r (r.size - j)) hs wrap (omega arith) (omega arith) in
      let whole : take (r.size - j) (drop j r.conns) ≡ drop j r.conns =
        take_all _ _ (omega (arith, length-drop j r.conns)) in
      let sum : r.size ≡ r.size - j + j = omega arith in
      ap (λ k. turns k r) sum ∙ turns-add (r.size - j) j r ∙ rw (a1, t1, t2, map-append, whole)

  -- `size` successive calls give every connection its turn exactly once: they return the
  -- connections of the list in order, from the current index round to it, as long as the
  -- counter does not wrap on the way.
  pub full_turn :
      (r : RoundRobin C) (l : List (String × C))
      → Repr r l
      → r.current + r.size < 2 ^ 64
      → turns r.size r
        ≡ map some (drop (r.current % r.size) (values l) ++ take (r.current % r.size) (values l))
  full_turn r [] h hc = rw (h.size, drop_nil, take_nil)
  full_turn r (p ∷ l) h hc =
      rw (← h.conns)
        (rotation r _ (h.size ∙ ap length (sym h.conns)) (omega (arith, h.size)) refl hc)
