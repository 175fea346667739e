-- ===== src/Requests.antt =====
-- connection.go: the queues of the requests that wait for a response. A shard has two tables of
-- queues, for requests without and with a context; `queue` gives the queue of a table's kind, shard
-- and position. A queue is the futures from `first` on.
pub mod Lookup
mod Tests
use go_tarantool.Common.{
  ℕ, ◌+◌, ◌-◌, ◌/◌, ◌%◌, ◌^◌, Bool, true, false, ◌&&◌, List, [], ◌∷◌, ◌++◌, Option, none, some,
  ◌==◌, if◌then◌else◌, bit_and,
}

-- A future by its request id and its identity.
pub record Future : Type 0 where
  pub request_id : ℕ
  pub id : ℕ

pub record Table : Type 0 where
  pub concurrency : ℕ
  pub request_id : ℕ
  pub context_request_id : ℕ
  pub queue : Bool → ℕ → ℕ → List Future

abbrev pub requests_map : ℕ
requests_map = 128

-- `Connect`, for a rounded concurrency.
abbrev pub new_table : ℕ → Table
new_table concurrency = record {
  concurrency = concurrency;
  request_id = 0;
  context_request_id = 1;
  queue = λ c s p. [];
}

-- Two atomic counters of 32 bits.
unfoldable pub next_request_id : Bool → Table → ℕ × Table
next_request_id true t =
    let n = (t.context_request_id + 2) % 2 ^ 32 in (n, record t { context_request_id = n })
next_request_id false t = let n = (t.request_id + 2) % 2 ^ 32 in (n, record t { request_id = n })

abbrev pub shard_of : ℕ → ℕ → ℕ
shard_of concurrency reqid = bit_and reqid (concurrency - 1)

abbrev pub pos_of : ℕ → ℕ → ℕ
pos_of concurrency reqid = bit_and (reqid / concurrency) (requests_map - 1)

unfoldable pub find_future : ℕ → Bool → List Future → Option Future × List Future
find_future reqid fetch [] = (none, [])
find_future reqid fetch (fut ∷ futs) =
    let rest = find_future reqid fetch futs in
    if fut.request_id == reqid
    then (some fut, if fetch then futs else fut ∷ futs)
    else (rest.0, fut ∷ rest.1)

unfoldable pub add_future : Future → List Future → List Future
add_future fut futs = futs ++ fut ∷ []

abbrev pub bool_eq : Bool → Bool → Bool
bool_eq true c = c
bool_eq false true = false
bool_eq false false = true

-- One queue of the tables.
abbrev pub at_slot : Bool → ℕ → ℕ → Bool → ℕ → ℕ → Bool
at_slot c s p c' s' p' = bool_eq c c' && (s == s' && p == p')

abbrev pub set_queue : Bool → ℕ → ℕ → List Future → Table → Table
set_queue c s p l t = record t {
  queue = λ c' s' p'. if at_slot c s p c' s' p' then l else t.queue c' s' p';
}

pub data ConnectionState : Type 0 where
  conn_disconnected conn_connected conn_shutdown conn_closed : ConnectionState

-- The errors of a future that was not queued.
pub data FutureError : Type 0 where
  rate_limited connection_closed connection_not_ready connection_shutdown : FutureError
  context_done : FutureError

abbrev pub has_context : Option Bool → Bool
has_context none = false
has_context (some is_done) = true

-- What `newFuture` does while it holds the shard's mutex: the switch over the connection's state, the
-- test of the context, which is `none` for nil and otherwise tells whether it is done, and the queue.
abbrev pub enqueue :
    ConnectionState → Option Bool → Future → Table → Option FutureError × Future × Table
enqueue conn_closed ctx fut t = (some connection_closed, fut, t)
enqueue conn_disconnected ctx fut t = (some connection_not_ready, fut, t)
enqueue conn_shutdown ctx fut t = (some connection_shutdown, fut, t)
enqueue conn_connected (some true) fut t = (some context_done, fut, t)
enqueue conn_connected (some false) fut t =
    let s = shard_of t.concurrency fut.request_id in
    let p = pos_of t.concurrency fut.request_id in
    (none, fut, set_queue true s p (add_future fut (t.queue true s p)) t)
enqueue conn_connected none fut t =
    let s = shard_of t.concurrency fut.request_id in
    let p = pos_of t.concurrency fut.request_id in
    (none, fut, set_queue false s p (add_future fut (t.queue false s p)) t)

-- `newFuture`: the future's error, the future and the tables. `dropped` tells that the rate limit is
-- reached and drops requests; such a future has no id. The wait for the rate limit, behind the queue, is
-- left out, and so is the time at which a future is dropped.
unfoldable pub new_future :
    Bool → Option Bool → ConnectionState → ℕ → Table → Option FutureError × Future × Table
unfolding next_request_id add_future
new_future true ctx state id t = (some rate_limited, record { request_id = 0; id = id }, t)
new_future false ctx state id t =
    let (n, left) = next_request_id (has_context ctx) t in
    enqueue state ctx (record { request_id = n; id = id }) left

-- `getFutureImp`; even ids belong to the requests without a context.
unfoldable pub get_future_imp : ℕ → Bool → Table → Option Future × Table
unfolding find_future
get_future_imp reqid fetch t =
    let s = shard_of t.concurrency reqid in
    let p = pos_of t.concurrency reqid in
    let context = if reqid % 2 == 0 then false else true in
    let (found, l) = find_future reqid fetch (t.queue context s p) in
    (found, set_queue context s p l t)
