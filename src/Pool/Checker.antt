-- ===== src/Pool/Checker.antt =====
-- connection_pool.go: the goroutine that looks after one address, `checker`, and what it calls.
-- A method that gives the mutex up and takes it again is cut there: `others` is what the rest of
-- the program does to the pool in between.
use go_tarantool.Common.{String, Bool, not, Option, none, some, if◌then◌else◌}
use go_tarantool.Pool.{
  Role, unknown_role, Conn, PoolWatcher, Pool, closed, discovered, deactivated, is_connected,
  role_eq, tell,
}
use go_tarantool.Pool.Subpools.{delete_connection, add_connection}

-- `connState` without its channel.
pub record ConnState : Type 0 where
  pub addr : String
  pub conn : Option Conn
  pub role : Role

-- What the outside answers to one call: `tarantool.Connect` (nil is `none`), `getConnectionRole`
-- (`none` is its error), `handlerDiscovered` and `conn.NewWatcher`.
pub record Answers : Type 0 where
  pub connects : Option Conn
  pub role : Option Role
  pub discovers : Bool
  pub new_watcher : PoolWatcher → Conn → Bool

-- `s.conn = nil; s.role = UnknownRole`
unfoldable pub without_conn : ConnState → ConnState
without_conn s = record s { conn = none; role = unknown_role }

-- The end of `updateConnection` and `tryConnect`, from the second `Lock` on.
unfoldable pub store_connection : Answers → Conn → Role → ConnState → Pool → ConnState × Pool
unfolding without_conn
store_connection env c role s p =
    let (added, q) = add_connection env.new_watcher s.addr c role p in
    if is_connected p.state
    then if added
      then (record s { conn = some c; role = role }, q)
      else (without_conn s, tell (deactivated c role) (tell (closed c) q))
    else (without_conn s, tell (deactivated c role) (tell (closed c) p))

-- `updateConnection`, with `s.conn` the connection `c`.
unfoldable pub update_connection :
    Answers → (Pool → Pool) → Conn → ConnState → Pool → ConnState × Pool
unfolding store_connection
update_connection env others c s p =
    if is_connected p.state
    then elim env.role [
      | none ↦ (s, p)
      | some role ↦
          let q =
            others (
              tell (discovered c role)
                (tell (deactivated c s.role) (delete_connection s.addr p))) in
          if role_eq s.role role
          then (s, p)
          else if env.discovers
          then store_connection env c role s q
          else (without_conn s, tell (closed c) q)
    ]
    else (s, p)

-- `tryConnect`
unfoldable pub try_connect : Answers → (Pool → Pool) → ConnState → Pool → ConnState × Pool
unfolding store_connection
try_connect env others s p =
    if is_connected p.state
    then elim env.connects [
      | none ↦ (without_conn s, p)
      | some c ↦ elim env.role [
        | none ↦ (without_conn s, tell (closed c) (others p))
        | some role ↦
            let q = others (tell (discovered c role) p) in
            if env.discovers
            then store_connection env c role (without_conn s) q
            else (without_conn s, tell (closed c) q)
      ]
    ]
    else (s, p)

-- `reconnect`, with `s.conn` the connection `c`.
unfoldable pub reconnect :
    Answers → (Pool → Pool) → (Pool → Pool) → Conn → ConnState → Pool → ConnState × Pool
unfolding try_connect
reconnect env others before c s p =
    if is_connected p.state
    then try_connect env others (without_conn s)
        (before (tell (deactivated c s.role) (delete_connection s.addr p)))
    else (s, p)

-- What wakes the checker: the pool is done, or an event of the connection, or the timer. The
-- last two come with the answer of `s.conn.ClosedNow()`.
pub data Signal : Type 0 where
  pool_done : Signal
  notified : Bool → Signal
  ticked : Bool → Signal

-- One round of the loop of `checker`; `none` is its end.
unfoldable pub check :
    Answers → (Pool → Pool) → (Pool → Pool) → Signal → ConnState → Pool → Option ConnState × Pool
unfolding update_connection try_connect reconnect without_conn
check env others before pool_done s p = (none, p)
check env others before (notified closed_now) s p = elim s.conn [
  | none ↦ (some s, p)
  | some c ↦
      if closed_now
      then if is_connected p.state
        then (some (without_conn s), tell (deactivated c s.role) (delete_connection s.addr p))
        else (some s, p)
      else (some s, p)
]
check env others before (ticked closed_now) s p = elim s.conn [
  | none ↦ let (s', q) = try_connect env others s p in (some s', q)
  | some c ↦
      let (s', q) =
        if not closed_now
        then update_connection env others c s p
        else reconnect env others before c s p in
      (some s', q)
]
