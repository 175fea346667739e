-- ===== src/Pool/Neighbours.antt =====
-- The checkers of two addresses: what one does while the other has given the mutex up.
use go_tarantool.Common.{
  ◌≡◌, ◌∙◌, ◌≢◌, inl, inr, String, List, [], ◌∷◌, Option, none, some, arith, str_eq_iff,
}
use go_tarantool.Pool.{Pool}
use go_tarantool.Pool.Subpools.{get_connection_from_pool}
use go_tarantool.Pool.View.{View, Place, IsValid, place, nowhere}
use go_tarantool.Pool.Placement.{get_connection_from_pool-at_role}
use go_tarantool.Pool.Checker.{ConnState, Answers, Signal, check}
use go_tarantool.Pool.Rely.{held, At, assign, assign_self, Goes, Window, Goes-same, Goes-trans}
use go_tarantool.Pool.Rounds.{Checked, check-Checked}

-- The state of the checker of `b`, read off the pool.
unfoldable pub checker_of : String → Pool → ConnState
checker_of b p =
    let (conn, role) = get_connection_from_pool p b in record { addr = b; conn = conn; role = role }

checker_of-held :
    (b : String) (p : Pool) (v : View) → IsValid p v → place v b ≡ held (checker_of b p)
unfolding checker_of
checker_of-held b p v h = elim (get_connection_from_pool-at_role p v b h) [
  | inl (e, f) ↦ ground arith
  | inr (c, role, e, f) ↦ ground arith
]

-- One round of the checker of `b` that is not interrupted.
unfoldable pub round_of : String → Answers → Signal → Pool → Option ConnState × Pool
unfolding checker_of
round_of b env signal p = check env (λ q. q) (λ q. q) signal (checker_of b p) p

-- What leaves the pool as it is, and one window behind another.
pub idle-Window : (T : (String → Place) → Type 0) (a : String) → Window T a (λ p. p)
idle-Window T a p v t ht h at = (t, v, ht, Goes-same p v _ h at)

pub Window-then :
    (T : (String → Place) → Type 0) (a : String) (f g : Pool → Pool)
    → Window T a f
    → Window T a g
    → Window T a (λ p. g (f p))
Window-then T a f g hf hg p v t ht h at =
    let (u, w, hu, m) = hf p v t ht h at in
    let (u', x, hu', n) = hg (f p) w u hu m.valid m.places in
    (u', x, hu', Goes-trans p (f p) _ w x _ _ m n)

abbrev pub Everywhere : (String → Place) → Type 0
Everywhere t = Unit {0}

module _ (a b : String) (ne : a ≢ b) where
  abbrev Spares : (String → Place) → Type 0
  Spares t = t a ≡ nowhere

  moved_place :
      (u : String → Place) (x : Place) (c : String)
      → u a ≡ nowhere
      → assign u b x c ≡ assign (assign u b x) a nowhere c
  moved_place u x c h = ground (arith, str_eq_iff a c, str_eq_iff b c, str_eq_iff b a, ne)

  abbrev After : Pool → Pool → Type 0
  After p q = (u : String → Place) × (w : View) × Everywhere u × Goes p q w (assign u a nowhere)

  Checked-After :
      (p : Pool) (v : View) (t : String → Place) (r : Option ConnState × Pool)
      → IsValid p v
      → At (assign t a nowhere) p v
      → Checked Spares p b r
      → After p r.1
  Checked-After p v t (some s, q) h at ((u, w, hu, g), e) = (
    assign u b (held s),
    w,
    tt,
    record {
      valid = g.valid;
      open_before = g.open_before;
      places = λ o c. g.places o c ∙ moved_place u (held s) c hu;
    },
  )
  Checked-After p v t (none, q) h at e = rw e (t, v, tt, Goes-same p v _ h at)

  -- An uninterrupted round of the checker of `b` is a window for the checker of any other address:
  -- that address has no connection before it and none after it.
  pub round_of-Window :
      (env : Answers) (signal : Signal) → Window Everywhere a (λ p. (round_of b env signal p).1)
  unfolding round_of
  round_of-Window env signal p v t ht h at =
      let start : At (assign (assign t a nowhere) b (held (checker_of b p))) p v =
        λ o c. ground (arith, str_eq_iff b c, at o c, checker_of-held b p v h) in
      Checked-After p v t _ h at (
        check-Checked Spares (checker_of b p) (λ q. q) (λ q. q) (idle-Window Spares b)
          (idle-Window Spares b) env signal p v (assign t a nowhere) (assign_self t a nowhere) h
          start)

-- A round of another checker that is not interrupted.
pub record OtherRound (a : String) : Type 0 where
  pub of : String
  pub is_other : a ≢ of
  pub answers : Answers
  pub signal : Signal

abbrev pub rounds_of : {a : String} → List (OtherRound a) → Pool → Pool
rounds_of [] p = p
rounds_of (r ∷ rs) p = rounds_of rs (round_of r.of r.answers r.signal p).1

-- Any sequence of such rounds is a window.
pub rounds_of-Window : (a : String) (rs : List (OtherRound a)) → Window Everywhere a (rounds_of rs)
rounds_of-Window a [] = idle-Window Everywhere a
rounds_of-Window a (r ∷ rs) =
    Window-then Everywhere a (λ p. (round_of r.of r.answers r.signal p).1) (rounds_of rs)
      (round_of-Window a r.of r.is_other r.answers r.signal) (rounds_of-Window a rs)
