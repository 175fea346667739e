-- ===== src/Pool.antt =====
-- connection_pool/: the state of a pool of connections, as the methods of connection_pool.go,
-- state.go, const.go and watcher.go share it. The children define the methods and prove their laws.
-- What a method asks of a connection or of the user's handler is an argument; what it tells them
-- is an entry of `log`, newest first.
pub mod Watchers
pub mod Subpools
pub mod View
pub mod Placement
pub mod Registering
pub mod Choice
pub mod Checker
pub mod Rely
pub mod Rounds
pub mod Neighbours
pub mod Lifecycle
pub mod Closing
mod Tests
use go_tarantool.Common.{ℕ, String, Bool, true, false, List, [], ◌∷◌}
use go_tarantool.RoundRobin.{RoundRobin}

-- state.go
pub data PoolState : Type 0 where
  unknown_state connected_state closed_state : PoolState

-- const.go; `other` is any further value of the uint32.
pub data Mode : Type 0 where
  any_mode rw_mode ro_mode prefer_rw prefer_ro : Mode
  other_mode : ℕ → Mode

pub data Role : Type 0 where
  unknown_role master_role replica_role : Role

-- A `*tarantool.Connection`: its address and its identity.
pub record Conn : Type 0 where
  pub addr : String
  pub id : ℕ

-- A call of `Close` on a connection, and the calls of the ConnectionHandler.
pub data Event : Type 0 where
  closed : Conn → Event
  discovered : Conn → Role → Event
  deactivated : Conn → Role → Event

-- watcher.go. `watchers` maps the address of a connection to the connection that is watched.
pub record PoolWatcher : Type 0 where
  pub id : ℕ
  pub mode : Mode
  pub key : String
  pub watchers : List (String × Conn)
  pub unregistered : Bool

-- `watchers` is the container's linked list, its head first; `done` tells whether the channel is
-- closed.
pub record Pool : Type 0 where
  pub addrs : List String
  pub state : PoolState
  pub done : Bool
  pub ro_pool : RoundRobin Conn
  pub rw_pool : RoundRobin Conn
  pub any_pool : RoundRobin Conn
  pub watchers : List PoolWatcher
  pub log : List Event

unfoldable pub is_connected : PoolState → Bool
is_connected connected_state = true
is_connected _ = false

unfoldable pub role_eq : Role → Role → Bool
role_eq unknown_role unknown_role = true
role_eq master_role master_role = true
role_eq replica_role replica_role = true
role_eq _ _ = false

-- A call that the pool makes.
unfoldable pub tell : Event → Pool → Pool
tell e p = record p { log = e ∷ p.log }
