-- ===== src/Pool/Registering.antt =====
-- connection_pool.go: `addConnection` with the watchers of the pool, which are told of a new connection
-- or taken back.
use go_tarantool.Common.{
  ◌≡◌, refl, String, Bool, true, false, not, ◌&&◌, List, [], ◌∷◌, map, none, arith, if◌then◌else◌,
  All,
}
use go_tarantool.Common.Assoc.{lookup, insert, erase}
use go_tarantool.Pool.{Role, Conn, PoolWatcher, Pool}
use go_tarantool.Pool.Watchers.{follows}
use go_tarantool.Pool.View.{View, IsValid, add_view}

erase_unfound :
    {V : Type 0} (k : String) (m : List (String × V)) → lookup k m ≡ none → erase k m ≡ m
unfolding lookup erase
erase_unfound k [] h = refl
erase_unfound k ((j, v) ∷ m) h = ground (arith, erase_unfound k m)

-- No watcher watches a connection with this one's address.
abbrev pub Unwatched : Conn → List PoolWatcher → Type 0
Unwatched c ws = All (λ w. lookup c.addr w.watchers ≡ none) ws

-- Is a watcher concerned, and what becomes of it?
abbrev concerned : Role → PoolWatcher → Bool
concerned role w = follows w.mode role && not w.unregistered

abbrev pub watching : Conn → Role → PoolWatcher → PoolWatcher
watching c role w =
    if concerned role w then record w { watchers = insert c.addr c w.watchers } else w

-- Every watcher that is concerned can be registered at the connection.
abbrev pub all_register : (PoolWatcher → Conn → Bool) → Conn → Role → List PoolWatcher → Bool
all_register new_watcher c role [] = true
all_register new_watcher c role (w ∷ ws) =
    (if concerned role w then new_watcher w c else true) && all_register new_watcher c role ws

-- What `addConnection` leaves: the first argument tells whether it can register all watchers.
abbrev pub Added : Bool → String → Conn → Role → Pool → View → Bool × Pool → Type 0
Added false a c role p v r = r ≡ (false, p)
Added true a c role p v (added, q) =
    (added ≡ true)
    × IsValid q (add_view a c role v)
    × (q.watchers ≡ map (watching c role) p.watchers)
    × (q.state ≡ p.state)
    × (q.done ≡ p.done)
    × (q.addrs ≡ p.addrs)
    × (q.log ≡ p.log)
