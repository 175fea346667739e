-- ===== src/Pool/Lifecycle.antt =====
-- connection_pool.go: `ConnectWithOpts`, `fillPools` and `Close`.
use go_tarantool.Common.{
  ℕ, String, Bool, true, false, List, [], ◌∷◌, ◌++◌, Option, none, some, ◌==◌, if◌then◌else◌,
  str_eq,
}
use go_tarantool.RoundRobin.{new_empty_round_robin, delete_conn_by_addr}
use go_tarantool.Pool.{
  unknown_state, connected_state, closed_state, unknown_role, Conn, Pool, closed, discovered,
  deactivated, is_connected, tell,
}
use go_tarantool.Pool.Subpools.{
  delete_by_role, delete_connection, add_connection, Result, ok, err, err_empty_addrs,
  err_wrong_check_timeout, err_no_connection,
}
use go_tarantool.Pool.Checker.{ConnState, Answers}

-- The body of `closeImpl`'s loop.
unfoldable pub close_addr : String → Pool → Pool
unfolding delete_by_role
close_addr addr p =
    let from_any = delete_conn_by_addr p.any_pool addr in
    elim from_any.0 [
      | none ↦ record p { any_pool = from_any.1 }
      | some conn ↦
          let left =
            delete_by_role addr (tell (closed conn) (record p { any_pool = from_any.1 })) in
          tell (deactivated conn left.0) left.1
    ]

unfoldable pub close_addrs : List String → Pool → Pool
unfolding close_addr
close_addrs [] p = p
close_addrs (addr ∷ addrs) p = close_addrs addrs (close_addr addr p)

-- `closeImpl`, without the errors that `conn.Close` returns.
unfoldable pub close_impl : Pool → Pool
unfolding close_addrs
close_impl p = record (close_addrs p.addrs p) { done = true }

-- `Close`
unfoldable pub close : Pool → Pool
unfolding close_impl
close p = if is_connected p.state then close_impl (record p { state = closed_state }) else p

-- The loop of `ConnectWithOpts` that drops the repeated addresses.
unfoldable pub seen : String → List String → Bool
seen a [] = false
seen a (b ∷ bs) = if str_eq b a then true else seen a bs

unfoldable pub unique_addrs : List String → List String → List String
unfolding seen
unique_addrs done [] = done
unique_addrs done (a ∷ rest) = unique_addrs (if seen a done then done else done ++ a ∷ []) rest

-- The body of `fillPools`'s loop. `alive` is the answer of `conn.ConnectedNow()`; a connection that
-- was closed for a failed `addConnection` is not connected.
unfoldable pub fill_addr : Answers → Bool → String → Pool → ConnState × Pool
fill_addr env alive addr p =
    let fresh : ConnState = record { addr = addr; conn = none; role = unknown_role } in
    elim env.connects [
      | none ↦ (fresh, p)
      | some c ↦ elim env.role [
        | none ↦ (fresh, tell (closed c) p)
        | some role ↦
            let added = add_connection env.new_watcher addr c role (tell (discovered c role) p) in
            let p1 =
              if added.0 then added.1 else tell (deactivated c role) (tell (closed c) added.1) in
            if env.discovers
            then if (if added.0 then alive else false)
              then (record { addr = addr; conn = some c; role = role }, p1)
              else (fresh, tell (deactivated c role) (tell (closed c) (delete_connection addr p1)))
            else (fresh, tell (closed c) (tell (discovered c role) p))
      ]
    ]

abbrev pub is_some : Option Conn → Bool
is_some none = false
is_some (some c) = true

-- `fillPools`: the connections' states, and whether somebody is alive.
unfoldable pub fill_pools :
    (String → Answers × Bool) → List String → Pool → (List ConnState × Bool) × Pool
unfolding fill_addr
fill_pools env [] p = (([], false), p)
fill_pools env (addr ∷ addrs) p =
    let (s, q) = fill_addr (env addr).0 (env addr).1 addr p in
    let ((ss, alive), q') = fill_pools env addrs q in
    ((s ∷ ss, if is_some s.conn then true else alive), q')

unfoldable pub empty_pool : List String → Pool
unfolding new_empty_round_robin
empty_pool addrs = record {
  addrs = addrs;
  state = unknown_state;
  done = false;
  ro_pool = new_empty_round_robin;
  rw_pool = new_empty_round_robin;
  any_pool = new_empty_round_robin;
  watchers = [];
  log = [];
}

-- `ConnectWithOpts`; `check_timeout` is 0 for the durations that are not positive. With the error
-- it also shows the pool that it has given up.
unfoldable pub connect_with_opts :
    (String → Answers × Bool) → List String → ℕ → Result (List ConnState) × Pool
unfolding unique_addrs fill_pools empty_pool close_impl
connect_with_opts env [] check_timeout = (err err_empty_addrs, empty_pool [])
connect_with_opts env (a ∷ rest) check_timeout =
    let addrs = unique_addrs [] (a ∷ rest) in
    let ((states, somebody_alive), p) = fill_pools env addrs (empty_pool addrs) in
    if check_timeout == 0
    then (err err_wrong_check_timeout, empty_pool [])
    else if somebody_alive
    then (ok states, record p { state = connected_state })
    else (err err_no_connection, close_impl (record p { state = closed_state }))
