-- ===== src/Pool/Rely.antt =====
-- connection_pool.go: the checkers of a pool run side by side. What one relies on while it has given
-- the mutex up, and what the calls of one checker do to the places of all addresses.
use go_tarantool.Common.{
  ◌≡◌, refl, ◌∙◌, ◌≢◌, inl, inr, String, Bool, true, Bool-cases, none, some, arith, if◌then◌else◌,
  str_eq, str_eq_iff,
}
use go_tarantool.Pool.{closed_state, Role, Conn, PoolWatcher, Pool, Event, is_connected, tell}
use go_tarantool.Pool.Subpools.{delete_connection, add_connection}
use go_tarantool.Pool.View.{
  View, Place, IsValid, place, nowhere, at_role, delete_view, add_view, place-delete_view,
  place-add_view, delete_connection-IsValid,
}
use go_tarantool.Pool.Placement.{add_connection-IsValid}
use go_tarantool.Pool.Checker.{ConnState, Answers, store_connection}

-- Where the connection of a checker belongs.
abbrev pub held : ConnState → Place
held s = elim s.conn [ none ↦ nowhere | some c ↦ at_role c s.role ]

-- Where the connection of each address is, while the pool is connected.
abbrev pub At : (String → Place) → Pool → View → Type 0
At t p v = is_connected p.state ≡ true → (b : String) → place v b ≡ t b

abbrev pub assign : (String → Place) → String → Place → String → Place
assign t a x b = if str_eq a b then x else t b

-- From one pool to a later one, which is consistent, has not come back from a close, and has the
-- connections where `t` says.
pub record Goes (p q : Pool) (w : View) (t : String → Place) : Type 0 where
  pub valid : IsValid q w
  pub open_before : is_connected q.state ≡ true → is_connected p.state ≡ true
  pub places : At t q w

-- What happens to a pool in which the address `a` has no connection: it still has none, and the
-- places of the other addresses satisfy `T` if they did before.
abbrev pub Window : ((String → Place) → Type 0) → String → (Pool → Pool) → Type 0
Window T a f =
    (p : Pool) (v : View) (t : String → Place)
    → T t
    → IsValid p v
    → At (assign t a nowhere) p v
    → (u : String → Place) × (w : View) × T u × Goes p (f p) w (assign u a nowhere)

-- What a method of the checker of `a` returns: its own connection is in its place, and those of the
-- others are where `T` allows.
abbrev pub Moved : ((String → Place) → Type 0) → Pool → String → ConnState × Pool → Type 0
Moved T p a r = (u : String → Place) × (w : View) × T u × Goes p r.1 w (assign u a (held r.0))

connected→open : (p : Pool) → is_connected p.state ≡ true → p.state ≢ closed_state
unfolding is_connected
connected→open p h = ground arith

delete_connection-state : (a : String) (p : Pool) → (delete_connection a p).state ≡ p.state
unfolding delete_connection
delete_connection-state a p = ground arith

add_connection-state :
    (new_watcher : PoolWatcher → Conn → Bool) (a : String) (c : Conn) (role : Role) (p : Pool)
    → (add_connection new_watcher a c role p).1.state ≡ p.state
unfolding add_connection
add_connection-state nw a c role p = ground arith

tell-state : (e : Event) (p : Pool) → (tell e p).state ≡ p.state
unfolding tell
tell-state e p = refl

tell-IsValid : (e : Event) (p : Pool) (v : View) → IsValid p v → IsValid (tell e p) v
unfolding tell
tell-IsValid e' p v h = record {
  any = h.any;
  rw_repr = h.rw_repr;
  ro_repr = h.ro_repr;
  consistent = h.consistent;
  shut = h.shut;
}

-- What was told changes no connection's place.
tell_twice-IsValid :
    (e f : Event) (p : Pool) (v : View) → IsValid p v → IsValid (tell e (tell f p)) v
tell_twice-IsValid e f p v h = tell-IsValid e (tell f p) v (tell-IsValid f p v h)

tell_twice-state : (e f : Event) (p : Pool) → (tell e (tell f p)).state ≡ p.state
unfolding tell
tell_twice-state e f p = refl

pub assign_self : (t : String → Place) (a : String) (x : Place) → assign t a x a ≡ x
assign_self t a x = ground (arith, str_eq_iff a a)

-- A connection that was not stored.
Goes-nowhere :
    (p q : Pool) (v : View) (t : String → Place)
    → IsValid q v
    → q.state ≡ p.state
    → At t p v
    → Goes p q v t
Goes-nowhere p q v t h e at = record {
  valid = h;
  open_before = λ o. rw (← e) o;
  places = λ o. at (rw (← e) o);
}

-- One that was.
Goes-added :
    (p q : Pool) (v : View) (a : String) (c : Conn) (role : Role) (t : String → Place)
    → IsValid q (add_view a c role v)
    → q.state ≡ p.state
    → At (assign t a nowhere) p v
    → Goes p q (add_view a c role v) (assign t a (at_role c role))
Goes-added p q v a c role t h e at = record {
  valid = h;
  open_before = λ o. rw (← e) o;
  places = λ o b.
      let free : place v a ≡ nowhere = at (rw (← e) o) a ∙ assign_self t a nowhere in
      ground (arith, at (rw (← e) o) b, place-add_view v a b c role free);
}

pub Goes-same : (p : Pool) (v : View) (t : String → Place) → IsValid p v → At t p v → Goes p p v t
Goes-same p v t h at = record { valid = h; open_before = λ o. o; places = at }

pub Goes-trans :
    (p q r : Pool) (w x : View) (t u : String → Place) → Goes p q w t → Goes q r x u → Goes p r x u
Goes-trans p q r w x t u m n = record {
  valid = n.valid;
  open_before = λ o. m.open_before (n.open_before o);
  places = n.places;
}

pub Goes-tell :
    (e : Event) (p q : Pool) (w : View) (t : String → Place) → Goes p q w t → Goes p (tell e q) w t
Goes-tell e p q w t m = record {
  valid = tell-IsValid e q w m.valid;
  open_before = λ o. m.open_before (rw (tell-state e q) at o);
  places = λ o. m.places (rw (tell-state e q) at o);
}

pub delete_connection-Goes :
    (p : Pool) (v : View) (a : String) (t : String → Place) (x : Place)
    → IsValid p v
    → At (assign t a x) p v
    → Goes p (delete_connection a p) (delete_view a v) (assign t a nowhere)
delete_connection-Goes p v a t x h at = record {
  valid = delete_connection-IsValid p v a h;
  open_before = λ o. rw (delete_connection-state a p) at o;
  places = λ o b.
      ground (arith, at (rw (delete_connection-state a p) at o) b, place-delete_view p v a b h);
}

module _ (T : (String → Place) → Type 0) where
  pub store-Moved :
      (env : Answers) (c : Conn) (role : Role) (s : ConnState) (p : Pool) (v : View)
      (t : String → Place)
      → T t
      → IsValid p v
      → At (assign t s.addr nowhere) p v
      → Moved T p s.addr (store_connection env c role s p)
  unfolding store_connection
  store-Moved env c role s p v t ht h at =
      let added = add_connection-IsValid env.new_watcher p v s.addr c role h in
      let running = connected→open p in
      let same = add_connection-state env.new_watcher s.addr c role p in
      let free = λ (o : is_connected p.state ≡ true). at o s.addr ∙ assign_self t s.addr nowhere in
      elim (Bool-cases (is_connected p.state)) [
        | inl e ↦ elim (Bool-cases (add_connection env.new_watcher s.addr c role p).0) [
          | inl f ↦
              rw (e, f)
                (
                  t,
                  add_view s.addr c role v,
                  ht,
                  Goes-added p _ v s.addr c role t (rw f at (added (running e) (free e))) same at,
                )
          | inr f ↦
              rw (e, f)
                (
                  t,
                  v,
                  ht,
                  Goes-nowhere p _ v _
                      (tell_twice-IsValid _ _ _ v (rw f at (added (running e) (free e))))
                      (tell_twice-state _ _ _ ∙ same) at,
                )
        ]
        | inr e ↦ rw e (
          t,
          v,
          ht,
          Goes-nowhere p _ v _ (tell_twice-IsValid _ _ p v h) (tell_twice-state _ _ p) at,
        )
      ]

  module _ (a : String) (others : Pool → Pool) (window : Window T a others) where
    -- From a pool in which the checker's address has no connection, through a window.
    pub through :
        (p q : Pool) (w : View) (t : String → Place)
        → T t
        → Goes p q w (assign t a nowhere)
        → (u : String → Place) × (x : View) × T u × Goes p (others q) x (assign u a nowhere)
    through p q w t ht m =
        let (u, x, hu, n) = window q w t ht m.valid m.places in
        (u, x, hu, Goes-trans p q _ w x _ _ m n)
