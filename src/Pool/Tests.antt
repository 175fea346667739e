-- ===== src/Pool/Tests.antt =====
-- connection_pool/: a pool with a master at one address and a replica at another.
use go_tarantool.Common.{
  ◌≡◌, ◌≢◌, refl, inl, ◌⊎◌, [], ◌∷◌, ◌++◌, String, Bool, true, false, none, some, arith, str_eq_iff,
}
use go_tarantool.Common.Assoc.{lookup}
use mathlib.Core.Bool.{false≢true}
use go_tarantool.RoundRobin.{new_empty_round_robin}
use go_tarantool.RoundRobin.Refine.{new_empty_round_robin-Repr}
use go_tarantool.Pool.{
  connected_state, closed_state, prefer_rw, any_mode, Role, master_role, replica_role, unknown_role,
  Conn, PoolWatcher, Pool,
}
use go_tarantool.Pool.Watchers.{watch, follows, watch_all, forget_marks}
use go_tarantool.Pool.Subpools.{
  get_connection_from_pool, delete_connection, add_connection, get_next,
}
use go_tarantool.Pool.View.{
  View, IsValid, place, nowhere, at_role, delete_view, add_view, delete_connection-IsValid,
}
use go_tarantool.Pool.Placement.{add_connection-IsValid, get_connection_from_pool-at_role}
use go_tarantool.Pool.Choice.{IsAnswer, get_next-IsAnswer}
use go_tarantool.Pool.Checker.{ConnState, Answers, Signal, ticked, check}
use go_tarantool.Pool.Rely.{Window}
use go_tarantool.Pool.Rounds.{Checked, check-Checked}
use go_tarantool.Pool.Neighbours.{Everywhere, OtherRound, rounds_of, rounds_of-Window}
use go_tarantool.Pool.Lifecycle.{close, seen}
use go_tarantool.Pool.Closing.{farewells, close-Closed}

abbrev no_conns : Pool
no_conns = record {
  addrs = "a" ∷ "b" ∷ [];
  state = connected_state;
  done = false;
  ro_pool = new_empty_round_robin;
  rw_pool = new_empty_round_robin;
  any_pool = new_empty_round_robin;
  watchers = [];
  log = [];
}

abbrev no_view : View
no_view = record { any = []; rw_view = []; ro_view = [] }

connected≢closed : connected_state ≢ closed_state
connected≢closed e = cc

no_conns-IsValid : IsValid no_conns no_view
no_conns-IsValid = record {
  any = new_empty_round_robin-Repr;
  rw_repr = new_empty_round_robin-Repr;
  ro_repr = new_empty_round_robin-Repr;
  consistent = λ a. inl refl;
  shut = λ e d a. refl;
}

abbrev registers : PoolWatcher → Conn → Bool
registers w c = true

abbrev conn_a : Conn
conn_a = record { addr = "a"; id = 1 }

abbrev conn_b : Conn
conn_b = record { addr = "b"; id = 2 }

abbrev one_conn : Pool
one_conn = (add_connection registers "a" conn_a master_role no_conns).1

abbrev one_view : View
one_view = add_view "a" conn_a master_role no_view

one_conn-IsValid : IsValid one_conn one_view
unfolding add_connection watch_all forget_marks
one_conn-IsValid =
    add_connection-IsValid registers no_conns no_view "a" conn_a master_role no_conns-IsValid
      connected≢closed refl

abbrev two_conns : Pool
two_conns = (add_connection registers "b" conn_b replica_role one_conn).1

abbrev two_view : View
two_view = add_view "b" conn_b replica_role one_view

-- The pool with a watcher that follows every connection.
abbrev watcher : PoolWatcher
watcher = record { id = 7; mode = any_mode; key = "key"; watchers = []; unregistered = false }

abbrev watched : Pool
watched = record one_conn { watchers = watcher ∷ [] }

refuses : PoolWatcher → Conn → Bool
refuses w c = false

-- A watcher that cannot be registered.
watched-refused : (add_connection refuses "b" conn_b replica_role watched).0 ≡ false
unfolding add_connection watch_all follows watch lookup refuses
watched-refused = refl

two_conns-IsValid : IsValid two_conns two_view
unfolding add_connection watch_all forget_marks
two_conns-IsValid =
    add_connection-IsValid registers one_conn one_view "b" conn_b replica_role one_conn-IsValid
      connected≢closed refl

delete_connection-IsValid_example :
    IsValid (delete_connection "a" two_conns) (delete_view "a" two_view)
delete_connection-IsValid_example =
    delete_connection-IsValid two_conns two_view "a" two_conns-IsValid

get_connection_from_pool-at_role_example :
    ((place two_view "b" ≡ nowhere)
      × (get_connection_from_pool two_conns "b" ≡ (none, unknown_role)))
    ⊎ ((c : Conn) × (role : Role) × (place two_view "b" ≡ at_role c role)
        × (get_connection_from_pool two_conns "b" ≡ (some c, role)))
get_connection_from_pool-at_role_example =
    get_connection_from_pool-at_role two_conns two_view "b" two_conns-IsValid

get_next-IsAnswer_example : IsAnswer prefer_rw two_view (get_next prefer_rw two_conns)
get_next-IsAnswer_example = get_next-IsAnswer prefer_rw two_conns two_view two_conns-IsValid

covered : (b : String) → seen b ("a" ∷ "b" ∷ []) ≡ false → place two_view b ≡ nowhere
unfolding seen
covered b h = ground (arith, str_eq_iff "a" b, str_eq_iff "b" b)

close-Closed_example :
    (w : View) × IsValid (close two_conns) w
    × ((b : String) → place w b ≡ nowhere)
    × ((close two_conns).state ≡ closed_state)
    × ((close two_conns).done ≡ true)
    × ((close two_conns).log ≡ farewells (place two_view) ("a" ∷ "b" ∷ []) ++ [])
unfolding add_connection watch_all forget_marks seen
close-Closed_example =
    close-Closed two_conns two_view two_conns-IsValid refl refl (refl, (refl, tt)) covered

abbrev master_answers : Conn → Answers
master_answers c = record {
  connects = some c;
  role = some master_role;
  discovers = true;
  new_watcher = registers;
}

abbrev a : String
a = "a"

a≢b : a ≢ "b"
a≢b e = absurd (false≢true ((str_eq_iff "a" "b").1 e))

abbrev checker_a : ConnState
checker_a = record { addr = "a"; conn = none; role = unknown_role }

abbrev round_b : Signal → OtherRound "a"
round_b signal = record {
  of = "b";
  is_other = a≢b;
  answers = master_answers conn_b;
  signal = signal;
}

-- The checker of the other address makes two rounds.
abbrev others : Pool → Pool
others = rounds_of (round_b (ticked false) ∷ round_b (ticked true) ∷ [])

others-Window : Window Everywhere "a" others
others-Window = rounds_of-Window "a" (round_b (ticked false) ∷ round_b (ticked true) ∷ [])

check-Checked_example :
    Checked Everywhere no_conns "a"
      (check (master_answers conn_a) others others (ticked false) checker_a no_conns)
check-Checked_example =
    check-Checked Everywhere checker_a others others others-Window others-Window
      (master_answers conn_a) (ticked false) no_conns no_view (place no_view) tt no_conns-IsValid
      (λ o b. ground arith)
