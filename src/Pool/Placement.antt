-- ===== src/Pool/Placement.antt =====
-- connection_pool.go: `addConnection` and `getConnectionFromPool` against the view of a pool.
use go_tarantool.Common.{
  ◌≡◌, ◌≢◌, ◌⊎◌, inl, inr, String, Bool, Bool-cases, List, none, some, arith, if◌then◌else◌, str_eq,
}
use go_tarantool.RoundRobin.{add_conn}
use go_tarantool.RoundRobin.Refine.{get_conn_by_addr-find, add_conn-Repr}
use go_tarantool.Pool.{
  closed_state, Role, unknown_role, master_role, replica_role, Conn, PoolWatcher, Pool,
}
use go_tarantool.Pool.Watchers.{watch_all}
use go_tarantool.Pool.Subpools.{get_connection_from_pool, add_by_role, add_connection}
use go_tarantool.Pool.View.{
  View, IsValid, IsPlace, place, nowhere, at_role, add_view, place-add_view,
}

module _ (new_watcher : PoolWatcher → Conn → Bool) (p : Pool) (v : View) (a : String)
    (c : Conn) where
  IsPlace-add_view :
      (role : Role)
      → IsValid p v
      → place v a ≡ nowhere
      → (b : String) → IsPlace (place (add_view a c role v) b)
  IsPlace-add_view role h free b = elim (Bool-cases (str_eq a b)) [
    | inl same ↦ inr (c, role, ground (arith, place-add_view v a b c role free))
    | inr other ↦ ground (arith, place-add_view v a b c role free, h.consistent b)
  ]

  added-IsValid :
      (role : Role) (ws : List PoolWatcher)
      → IsValid p v
      → p.state ≢ closed_state
      → place v a ≡ nowhere
      → IsValid
          (add_by_role a c role (record p { any_pool = add_conn p.any_pool a c; watchers = ws }))
          (add_view a c role v)
  unfolding add_by_role
  added-IsValid unknown_role ws h running free = record {
    any = add_conn-Repr p.any_pool v.any a h.any c;
    rw_repr = h.rw_repr;
    ro_repr = h.ro_repr;
    consistent = IsPlace-add_view unknown_role h free;
    shut = λ e. absurd (running e);
  }
  added-IsValid master_role ws h running free = record {
    any = add_conn-Repr p.any_pool v.any a h.any c;
    rw_repr = add_conn-Repr p.rw_pool v.rw_view a h.rw_repr c;
    ro_repr = h.ro_repr;
    consistent = IsPlace-add_view master_role h free;
    shut = λ e. absurd (running e);
  }
  added-IsValid replica_role ws h running free = record {
    any = add_conn-Repr p.any_pool v.any a h.any c;
    rw_repr = h.rw_repr;
    ro_repr = add_conn-Repr p.ro_pool v.ro_view a h.ro_repr c;
    consistent = IsPlace-add_view replica_role h free;
    shut = λ e. absurd (running e);
  }

  -- `addConnection` of an address that is in no subpool, on a pool that is not closed: if it succeeds
  -- the connection is in `any` and in the subpool of its role, and if it fails no subpool has changed.
  pub add_connection-IsValid :
      (role : Role)
      → IsValid p v
      → p.state ≢ closed_state
      → place v a ≡ nowhere
      → let (added, q) = add_connection new_watcher a c role p in
        IsValid q (if added then add_view a c role v else v)
  unfolding add_connection
  add_connection-IsValid role h running free =
      elim (Bool-cases (watch_all new_watcher c role p.watchers).0) [
        | inl e ↦ rw (e, add_connection) (added-IsValid role _ h running free)
        | inr e ↦
            rw (e, add_connection)
              (record {
                any = h.any;
                rw_repr = h.rw_repr;
                ro_repr = h.ro_repr;
                consistent = h.consistent;
                shut = h.shut;
              })
      ]

-- `getConnectionFromPool` finds an address's connection with the role under which it was added.
pub get_connection_from_pool-at_role :
    (p : Pool) (v : View) (a : String)
    → IsValid p v
    → ((place v a ≡ nowhere) × (get_connection_from_pool p a ≡ (none, unknown_role)))
      ⊎ ((c : Conn) × (role : Role) × (place v a ≡ at_role c role)
          × (get_connection_from_pool p a ≡ (some c, role)))
unfolding get_connection_from_pool
get_connection_from_pool-at_role p v a h = elim (h.consistent a) [
  | inl e ↦ inl (
    e,
    ground (
      arith,
      get_conn_by_addr-find p.any_pool v.any a h.any,
      get_conn_by_addr-find p.rw_pool v.rw_view a h.rw_repr,
      get_conn_by_addr-find p.ro_pool v.ro_view a h.ro_repr,
    ),
  )
  | inr (c, role, e) ↦ inr (
    c,
    role,
    e,
    ground (
      arith,
      get_conn_by_addr-find p.any_pool v.any a h.any,
      get_conn_by_addr-find p.rw_pool v.rw_view a h.rw_repr,
      get_conn_by_addr-find p.ro_pool v.ro_view a h.ro_repr,
    ),
  )
]
