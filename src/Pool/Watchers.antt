-- ===== src/Pool/Watchers.antt =====
-- connection_pool/watcher.go: the watchers of a pool, and the loops over their container.
use go_tarantool.Common.{
  ℕ, Bool, true, false, not, ◌&&◌, List, [], ◌∷◌, map, Option, none, some, ◌==◌, if◌then◌else◌,
}
use go_tarantool.Common.Assoc.{lookup, insert, erase}
use go_tarantool.Pool.{
  Mode, rw_mode, ro_mode, Role, master_role, replica_role, role_eq, Conn, PoolWatcher,
}

-- `container.add`
unfoldable pub add_watcher : PoolWatcher → List PoolWatcher → List PoolWatcher
add_watcher w ws = w ∷ ws

-- `container.remove`: unlinks the watcher, which the pointer's identity tells, and says whether it
-- was there.
unfoldable pub remove_watcher : ℕ → List PoolWatcher → Bool × List PoolWatcher
remove_watcher id [] = (false, [])
remove_watcher id (w ∷ ws) =
    let (found, rest) = remove_watcher id ws in if w.id == id then (true, ws) else (found, w ∷ rest)

-- `poolWatcher.watch`. `new_watcher` says whether `conn.NewWatcher` succeeds; `none` is its error.
unfoldable pub watch : (PoolWatcher → Conn → Bool) → PoolWatcher → Conn → Option PoolWatcher
watch new_watcher w conn =
    if not w.unregistered
    then elim (lookup conn.addr w.watchers) [
      | some _ ↦ some w
      | none ↦
          if new_watcher w conn
          then some (record w { watchers = insert conn.addr conn w.watchers })
          else none
    ]
    else some w

-- `poolWatcher.unwatch`
unfoldable pub unwatch : PoolWatcher → Conn → PoolWatcher
unwatch w conn =
    if not w.unregistered
    then elim (lookup conn.addr w.watchers) [
      | some _ ↦ record w { watchers = erase conn.addr w.watchers }
      | none ↦ w
    ]
    else w

-- The loop of `deleteConnection` over the container.
unfoldable pub unwatch_all : Conn → List PoolWatcher → List PoolWatcher
unwatch_all conn [] = []
unwatch_all conn (w ∷ ws) = unwatch w conn ∷ unwatch_all conn ws

-- The test of `addConnection`'s loop: does a watcher of the mode follow a connection of the role?
unfoldable pub follows : Mode → Role → Bool
follows rw_mode role = role_eq role master_role
follows ro_mode role = role_eq role replica_role
follows _ role = true

-- The first loop of `addConnection`: each watcher with a mark, whether it was put in `watched`.
-- The loop ends at the first error.
unfoldable pub watch_all :
    (PoolWatcher → Conn → Bool) → Conn → Role → List PoolWatcher → Bool × List (PoolWatcher × Bool)
watch_all new_watcher conn role [] = (true, [])
watch_all new_watcher conn role (w ∷ ws) =
    let rest = watch_all new_watcher conn role ws in
    if follows w.mode role
    then elim (watch new_watcher w conn) [
      | some w' ↦ (rest.0, (w', true) ∷ rest.1)
      | none ↦ (false, map (λ v. (v, false)) (w ∷ ws))
    ]
    else (rest.0, (w, false) ∷ rest.1)

unfoldable pub forget_marks : List (PoolWatcher × Bool) → List PoolWatcher
forget_marks [] = []
forget_marks ((w, marked) ∷ ws) = w ∷ forget_marks ws

-- The loop that takes the marked watchers back.
unfoldable pub unwatch_marked : Conn → List (PoolWatcher × Bool) → List PoolWatcher
unwatch_marked conn [] = []
unwatch_marked conn ((w, marked) ∷ ws) =
    (if marked then unwatch w conn else w) ∷ unwatch_marked conn ws

-- `poolWatcher.Unregister`: only the first call finds the watcher in the container.
unfoldable pub unregister : PoolWatcher → List PoolWatcher → PoolWatcher × List PoolWatcher
unregister w ws =
    let (found, rest) = remove_watcher w.id ws in
    if not w.unregistered && found then (record w { unregistered = true }, rest) else (w, rest)
