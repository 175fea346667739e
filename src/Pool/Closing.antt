-- ===== src/Pool/Closing.antt =====
-- connection_pool.go: the loop of `closeImpl` over the addresses, and `Close`.
use go_tarantool.Common.{
  ◌≡◌, refl, sym, ap, ◌∙◌, ◌≢◌, String, true, false, List, [], ◌∷◌, ◌++◌, none, some, arith,
  if◌then◌else◌, str_eq_iff,
}
use mathlib.Core.Bool.{false≢true}
use mathlib.Core.List.{append_assoc}
use go_tarantool.Pool.{
  connected_state, closed_state, unknown_role, master_role, replica_role, Pool, Event, closed,
  deactivated, is_connected, tell,
}
use go_tarantool.Pool.Subpools.{delete_connection}
use go_tarantool.Pool.View.{
  View, Place, IsValid, place, nowhere, delete_view, place-delete_view, delete_connection-IsValid,
  any_find, rw_find, ro_find,
}
use go_tarantool.Pool.Lifecycle.{close_addr, close_addrs, close, seen}

-- What is told of the connection at a place, newest first.
abbrev pub farewell : Place → List Event
farewell (none, x, y) = []
farewell (some c, some d, y) = deactivated c master_role ∷ closed c ∷ []
farewell (some c, none, some d) = deactivated c replica_role ∷ closed c ∷ []
farewell (some c, none, none) = deactivated c unknown_role ∷ closed c ∷ []

abbrev pub farewells : (String → Place) → List String → List Event
farewells t [] = []
farewells t (a ∷ rest) = farewells t rest ++ farewell (t a)

abbrev pub Unique : List String → Type 0
Unique [] = Unit {0}
Unique (a ∷ rest) = (seen a rest ≡ false) × Unique rest

IsValid-same :
    (p q : Pool) (v : View)
    → q.any_pool ≡ p.any_pool
    → q.rw_pool ≡ p.rw_pool
    → q.ro_pool ≡ p.ro_pool
    → q.state ≡ p.state
    → q.done ≡ p.done
    → IsValid p v
    → IsValid q v
IsValid-same p q v ea ew er es ed h = record {
  any = rw ea h.any;
  rw_repr = rw ew h.rw_repr;
  ro_repr = rw er h.ro_repr;
  consistent = h.consistent;
  shut = λ e d. h.shut (sym es ∙ e) (sym ed ∙ d);
}

module _ (p : Pool) (v : View) (a : String) (h : IsValid p v) where
  close_addr-IsValid : IsValid (close_addr a p) (delete_view a v)
  unfolding close_addr delete_connection tell
  close_addr-IsValid =
      IsValid-same (delete_connection a p) (close_addr a p) (delete_view a v) (ground arith)
        (ground arith) (ground arith) (ground arith) (ground arith)
        (delete_connection-IsValid p v a h)

  close_addr-log : (close_addr a p).log ≡ farewell (place v a) ++ p.log
  unfolding close_addr tell
  close_addr-log = ground (arith, any_find p v a h, rw_find p v a h, ro_find p v a h)

  close_addr-state : (close_addr a p).state ≡ p.state
  unfolding close_addr tell
  close_addr-state = ground arith

  close_addr-done : (close_addr a p).done ≡ p.done
  unfolding close_addr tell
  close_addr-done = ground arith

seen_other : (a b : String) (l : List String) → seen a l ≡ false → seen b l ≡ true → a ≢ b
unfolding seen
seen_other a b [] h k = ground arith
seen_other a b (c ∷ l) h k = ground (arith, str_eq_iff c a, str_eq_iff c b, seen_other a b l)

-- Only the places of the listed addresses matter.
farewells-same :
    (t u : String → Place) (l : List String)
    → ((b : String) → seen b l ≡ true → t b ≡ u b)
    → farewells t l ≡ farewells u l
farewells-same t u [] h = refl
farewells-same t u (a ∷ l) h =
    let rest = farewells-same t u l (λ b k. h b (unfold seen in ground arith)) in
    let here : t a ≡ u a = h a (unfold seen in ground (arith, str_eq_iff a a)) in rw (rest, here)

-- What the loop of `closeImpl` over the addresses leaves of a pool.
pub record Closed (addrs : List String) (p q : Pool) (v w : View) : Type 0 where
  pub valid : IsValid q w
  pub places : (b : String) → place w b ≡ (if seen b addrs then nowhere else place v b)
  pub told : q.log ≡ farewells (place v) addrs ++ p.log
  pub state : q.state ≡ p.state
  pub done : q.done ≡ p.done

Closed-cons :
    (a : String) (addrs : List String) (p q r : Pool) (v w : View)
    → q ≡ close_addr a p
    → IsValid p v
    → seen a addrs ≡ false
    → Closed addrs q r (delete_view a v) w
    → Closed (a ∷ addrs) p r v w
Closed-cons a addrs p q r v w e h fresh c = record {
  valid = c.valid;
  places = λ b. unfold seen in ground (arith, c.places b, place-delete_view p v a b h);
  told =
      c.told
      ∙ ap (λ l. l ++ q.log) (farewells-same _ _ addrs other)
      ∙ ap (λ l. farewells (place v) addrs ++ l) (ap (λ s. s.log) e ∙ close_addr-log p v a h)
      ∙ sym (append_assoc (farewells (place v) addrs) (farewell (place v a)) p.log);
  state = c.state ∙ ap (λ s. s.state) e ∙ close_addr-state p v a h;
  done = c.done ∙ ap (λ s. s.done) e ∙ close_addr-done p v a h;
}
  where
    other : (b : String) → seen b addrs ≡ true → place (delete_view a v) b ≡ place v b
    other b k = ground (arith, str_eq_iff a b, seen_other a b addrs, place-delete_view p v a b h)

close_addrs-Closed :
    (addrs : List String) (p : Pool) (v : View)
    → Unique addrs
    → IsValid p v
    → (w : View) × Closed addrs p (close_addrs addrs p) v w
unfolding close_addrs
close_addrs-Closed [] p v u h = (
  v,
  record { valid = h; places = λ b. unfold seen in refl; told = refl; state = refl; done = refl },
)
close_addrs-Closed (a ∷ addrs) p v u h =
    let (w, c) =
      close_addrs-Closed addrs (close_addr a p) (delete_view a v) u.1
        (close_addr-IsValid p v a h) in
    (w, Closed-cons a addrs p (close_addr a p) _ v w refl h u.0 c)

-- `Close` on a connected pool all of whose connections belong to its addresses, each address being
-- listed once: every subpool is empty afterwards, the state is closed and so is the channel
-- `done`, and for each connection exactly one `Close` was called and then one `Deactivated` with
-- the role under which it stood.
pub close-Closed :
    (p : Pool) (v : View)
    → IsValid p v
    → p.state ≡ connected_state
    → p.done ≡ false
    → Unique p.addrs
    → ((b : String) → seen b p.addrs ≡ false → place v b ≡ nowhere)
    → (w : View) × IsValid (close p) w
      × ((b : String) → place w b ≡ nowhere)
      × ((close p).state ≡ closed_state)
      × ((close p).done ≡ true)
      × ((close p).log ≡ farewells (place v) p.addrs ++ p.log)
unfolding close is_connected
close-Closed p v h e d u covers =
    let q : Pool = record p { state = closed_state } in
    let hq : IsValid q v = record {
      any = h.any;
      rw_repr = h.rw_repr;
      ro_repr = h.ro_repr;
      consistent = h.consistent;
      shut = λ s k. absurd (false≢true (sym d ∙ k));
    } in
    let (w, c) = close_addrs-Closed p.addrs q v u hq in
    let empty : (b : String) → place w b ≡ nowhere = λ b. ground (arith, c.places b, covers b) in
    rw e (
      w,
      record {
        any = c.valid.any;
        rw_repr = c.valid.rw_repr;
        ro_repr = c.valid.ro_repr;
        consistent = c.valid.consistent;
        shut = λ s k. empty;
      },
      empty,
      c.state,
      refl,
      c.told,
    )
