-- ===== src/Pool/Subpools.antt =====
-- connection_pool/connection_pool.go: how a connection enters the three subpools and leaves them,
-- and how one is chosen. The callers hold the pool's mutex.
use go_tarantool.Common.{
  String, Bool, true, false, not, ◌||◌, List, [], ◌∷◌, Option, none, some, if◌then◌else◌,
}
use go_tarantool.RoundRobin.{
  get_conn_by_addr, delete_conn_by_addr, add_conn, is_empty, get_next_connection,
}
use go_tarantool.Pool.{
  Mode, any_mode, rw_mode, ro_mode, prefer_rw, prefer_ro, other_mode, Role, unknown_role,
  master_role, replica_role, Conn, PoolWatcher, Pool, is_connected,
}
use go_tarantool.Pool.Watchers.{unwatch_all, watch_all, forget_marks, unwatch_marked}

-- `getConnectionFromPool`
unfoldable pub get_connection_from_pool : Pool → String → Option Conn × Role
get_connection_from_pool p addr = elim (get_conn_by_addr p.rw_pool addr) [
  | some conn ↦ (some conn, master_role)
  | none ↦ elim (get_conn_by_addr p.ro_pool addr) [
    | some conn ↦ (some conn, replica_role)
    | none ↦ (get_conn_by_addr p.any_pool addr, unknown_role)
  ]
]

abbrev role_of_deleted : Option Conn → Role
role_of_deleted (some conn) = replica_role
role_of_deleted none = unknown_role

-- The two deletions behind the one from `any_pool`, with the role that `closeImpl` reads off them.
unfoldable pub delete_by_role : String → Pool → Role × Pool
delete_by_role addr p =
    let from_rw = delete_conn_by_addr p.rw_pool addr in
    let from_ro = delete_conn_by_addr p.ro_pool addr in
    elim from_rw.0 [
      | some conn ↦ (master_role, record p { rw_pool = from_rw.1 })
      | none ↦ (role_of_deleted from_ro.0, record p { rw_pool = from_rw.1; ro_pool = from_ro.1 })
    ]

-- `deleteConnection`
unfoldable pub delete_connection : String → Pool → Pool
unfolding delete_by_role
delete_connection addr p =
    let from_any = delete_conn_by_addr p.any_pool addr in
    let q = (delete_by_role addr (record p { any_pool = from_any.1 })).1 in
    elim from_any.0 [
      | none ↦ record p { any_pool = from_any.1 }
      | some conn ↦ record q { watchers = unwatch_all conn q.watchers }
    ]

-- The switch at the end of `addConnection`.
unfoldable pub add_by_role : String → Conn → Role → Pool → Pool
add_by_role addr conn master_role p = record p { rw_pool = add_conn p.rw_pool addr conn }
add_by_role addr conn replica_role p = record p { ro_pool = add_conn p.ro_pool addr conn }
add_by_role addr conn unknown_role p = p

-- `addConnection`; false is its error.
unfoldable pub add_connection :
    (PoolWatcher → Conn → Bool) → String → Conn → Role → Pool → Bool × Pool
unfolding add_by_role
add_connection new_watcher addr conn role p =
    let (watching, marked) = watch_all new_watcher conn role p.watchers in
    if watching
    then (
      true,
      add_by_role addr conn role
          (record p { watchers = forget_marks marked; any_pool = add_conn p.any_pool addr conn }),
    )
    else (false, record p { watchers = unwatch_marked conn marked })

pub data PoolError : Type 0 where
  err_empty_addrs err_wrong_check_timeout err_no_connection err_too_many_args : PoolError
  err_incorrect_response err_incorrect_status err_no_rw_instance err_no_ro_instance : PoolError
  err_no_healthy_instance : PoolError

pub data Result {ℓ} (A : Type ℓ) : Type ℓ where
  ok : A → Result A
  err : PoolError → Result A

-- One `if next := pool.GetNextConnection(); next != nil { return next, nil }` on each subpool.
unfoldable pub next_any : Pool → Option Conn × Pool
next_any p = let (next, any) = get_next_connection p.any_pool in (next, record p { any_pool = any })

unfoldable pub next_rw : Pool → Option Conn × Pool
next_rw p = let (next, rw) = get_next_connection p.rw_pool in (next, record p { rw_pool = rw })

unfoldable pub next_ro : Pool → Option Conn × Pool
next_ro p = let (next, ro) = get_next_connection p.ro_pool in (next, record p { ro_pool = ro })

-- What the code does with the first subpool that it tries, if it has nothing to give.
abbrev pub or_else : Option Conn × Pool → (Pool → Result Conn × Pool) → Result Conn × Pool
or_else (some conn, p) f = (ok conn, p)
or_else (none, p) f = f p

-- `getNextConnection`
unfoldable pub get_next : Mode → Pool → Result Conn × Pool
unfolding next_any next_rw next_ro
get_next any_mode p = or_else (next_any p) (λ q. (err err_no_healthy_instance, q))
get_next rw_mode p = or_else (next_rw p) (λ q. (err err_no_rw_instance, q))
get_next ro_mode p = or_else (next_ro p) (λ q. (err err_no_ro_instance, q))
get_next prefer_rw p =
    or_else (next_rw p) (λ q. or_else (next_ro q) (λ q'. (err err_no_healthy_instance, q')))
get_next prefer_ro p =
    or_else (next_ro p) (λ q. or_else (next_rw q) (λ q'. (err err_no_healthy_instance, q')))
get_next (other_mode n) p = (err err_no_healthy_instance, p)

-- `getConnByMode`: at most one mode of the user's replaces the default.
unfoldable pub get_conn_by_mode : Mode → List Mode → Pool → Result Conn × Pool
get_conn_by_mode default_mode [] p = get_next default_mode p
get_conn_by_mode default_mode (mode ∷ []) p = get_next mode p
get_conn_by_mode default_mode (mode ∷ mode' ∷ modes) p = (err err_too_many_args, p)

-- `ConnectedNow`
unfoldable pub connected_now : Mode → Pool → Result Bool
connected_now mode p =
    if is_connected p.state
    then elim mode [
      | any_mode ↦ ok (not (is_empty p.any_pool))
      | rw_mode ↦ ok (not (is_empty p.rw_pool))
      | ro_mode ↦ ok (not (is_empty p.ro_pool))
      | prefer_rw ↦ ok (not (is_empty p.rw_pool) || not (is_empty p.ro_pool))
      | prefer_ro ↦ ok (not (is_empty p.rw_pool) || not (is_empty p.ro_pool))
      | other_mode n ↦ err err_no_healthy_instance
    ]
    else ok false
