-- ===== src/Requests/Lookup.antt =====
-- connection.go: the lookup of the future that waits for a response.
use go_tarantool.Common.{
  ℕ, ◌%◌, ◌≡◌, refl, ap, ◌∙◌, inl, inr, Bool, true, false, Bool-cases, List, [], ◌∷◌, Option, none,
  some, ◌==◌, if◌then◌else◌, All, arith,
}
use go_tarantool.Requests.{
  Future, Table, ConnectionState, conn_disconnected, conn_connected, conn_shutdown, conn_closed,
  FutureError, rate_limited, connection_closed, connection_not_ready, connection_shutdown,
  context_done, has_context, enqueue, next_request_id, shard_of, pos_of, find_future, add_future,
  at_slot, set_queue, new_future, get_future_imp,
}

-- The counters have the parity by which `getFutureImp` tells the two tables apart.
pub record IsTable (t : Table) : Type 0 where
  pub even : t.request_id % 2 ≡ 0
  pub odd : t.context_request_id % 2 ≡ 1

-- No queued future has the id.
abbrev pub Unused : ℕ → List Future → Type 0
Unused n l = All (λ f. (f.request_id == n) ≡ false) l

next_request_id-parity :
    (context : Bool) (t : Table)
    → IsTable t
    → ((if (next_request_id context t).0 % 2 == 0 then false else true) ≡ context)
      × IsTable (next_request_id context t).1
unfolding next_request_id
next_request_id-parity true t h =
    (ground (arith, h.odd), record { even = h.even; odd = omega (arith, h.odd) })
next_request_id-parity false t h =
    (ground (arith, h.even), record { even = omega (arith, h.even); odd = h.odd })

find_future-add_future :
    (fut : Future) (l : List Future)
    → Unused fut.request_id l
    → find_future fut.request_id true (add_future fut l) ≡ (some fut, l)
unfolding find_future add_future
find_future-add_future fut [] h = ground arith
find_future-add_future fut (f ∷ l) h = rw (h.0, find_future-add_future fut l h.1) refl

slot_self : (c : Bool) (s p : ℕ) → at_slot c s p c s p ≡ true
slot_self true s p = ground arith
slot_self false s p = ground arith

slot-eq :
    (c c' : Bool) (s s' p p' : ℕ) → at_slot c s p c' s' p' ≡ true → (c ≡ c') × (s ≡ s') × (p ≡ p')
slot-eq true true s s' p p' h = (refl, ground arith, ground arith)
slot-eq true false s s' p p' h = absurd (ground arith)
slot-eq false true s s' p p' h = absurd (ground arith)
slot-eq false false s s' p p' h = (refl, ground arith, ground arith)

-- A slot's own queue.
slot_queue :
    (c c' : Bool) (s s' p p' : ℕ) (t : Table)
    → at_slot c s p c' s' p' ≡ true
    → t.queue c s p ≡ t.queue c' s' p'
slot_queue c c' s s' p p' t e =
    let (ec, es, ep) = slot-eq c c' s s' p p' e in
    ap (λ c. t.queue c s p) ec ∙ ap (λ s. t.queue c' s p) es ∙ ap (λ p. t.queue c' s' p) ep

-- A queue that is put where it stands.
queue_same :
    (c : Bool) (s p : ℕ) (t : Table) (c' : Bool) (s' p' : ℕ)
    → (set_queue c s p (t.queue c s p) t).queue c' s' p' ≡ t.queue c' s' p'
queue_same c s p t c' s' p' = elim (Bool-cases (at_slot c s p c' s' p')) [
  | inr e ↦ rw e refl
  | inl e ↦ rw e (slot_queue c c' s s' p p' t e)
]

-- A queue that is put back where it stood.
queue_back :
    (c : Bool) (s p : ℕ) (l : List Future) (t : Table) (c' : Bool) (s' p' : ℕ)
    → (set_queue c s p (t.queue c s p) (set_queue c s p l t)).queue c' s' p' ≡ t.queue c' s' p'
queue_back c s p l t c' s' p' = elim (Bool-cases (at_slot c s p c' s' p')) [
  | inr e ↦ rw e refl
  | inl e ↦ rw e (slot_queue c c' s s' p p' t e)
]

-- What `getFutureImp` does right behind `addFuture`.
fetch_added :
    (c : Bool) (fut : Future) (t : Table)
    → (if fut.request_id % 2 == 0 then false else true) ≡ c
    → Unused fut.request_id
        (t.queue c (shard_of t.concurrency fut.request_id) (pos_of t.concurrency fut.request_id))
    → let s = shard_of t.concurrency fut.request_id in
      let p = pos_of t.concurrency fut.request_id in
      let added = set_queue c s p (add_future fut (t.queue c s p)) t in
      get_future_imp fut.request_id true added ≡ (some fut, set_queue c s p (t.queue c s p) added)
unfolding get_future_imp
fetch_added c fut t parity unused =
    let s = shard_of t.concurrency fut.request_id in
    let p = pos_of t.concurrency fut.request_id in
    rw (parity, slot_self c s p, find_future-add_future fut (t.queue c s p) unused) refl

find_future-Unused : (n : ℕ) (l : List Future) → Unused n l → find_future n true l ≡ (none, l)
unfolding find_future
find_future-Unused n [] h = refl
find_future-Unused n (f ∷ l) h = rw (h.0, find_future-Unused n l h.1) refl

-- Why a request is not queued, if it is not: by the rate limit, by the connection's state, or by a context
-- that is done.
abbrev pub refusal : Bool → Option Bool → ConnectionState → Option FutureError
refusal true ctx state = some rate_limited
refusal false ctx conn_closed = some connection_closed
refusal false ctx conn_disconnected = some connection_not_ready
refusal false ctx conn_shutdown = some connection_shutdown
refusal false (some true) conn_connected = some context_done
refusal false (some false) conn_connected = none
refusal false none conn_connected = none

abbrev queued : Option FutureError → Future → Option Future
queued none fut = some fut
queued (some e) fut = none

-- What a lookup finds, in tables with the queues of `t`.
abbrev pub Fetched : Option Future → Table → Option Future × Table → Type 0
Fetched fut t (found, q) =
    (found ≡ fut) × ((c : Bool) (s p : ℕ) → q.queue c s p ≡ t.queue c s p) × IsTable q

-- What `newFuture` has done with a request, by a lookup of the id `n`.
abbrev pub Answered :
    Option FutureError → ℕ → ℕ → Table → Option FutureError × Future × Table → Type 0
Answered error id n t (e, fut, q) =
    (e ≡ error) × (fut.id ≡ id) × Fetched (queued error fut) t (get_future_imp n true q)

-- A lookup of an id that no queued future has.
fetch-Unused :
    (c : Bool) (n : ℕ) (t : Table)
    → IsTable t
    → (if n % 2 == 0 then false else true) ≡ c
    → Unused n (t.queue c (shard_of t.concurrency n) (pos_of t.concurrency n))
    → Fetched none t (get_future_imp n true t)
unfolding get_future_imp
fetch-Unused c n t h parity unused =
    let s = shard_of t.concurrency n in
    let p = pos_of t.concurrency n in
    rw (parity, find_future-Unused n (t.queue c s p) unused)
      (refl, queue_same c s p t, record { even = h.even; odd = h.odd })

fetch_queued :
    (c : Bool) (fut : Future) (t : Table)
    → IsTable t
    → (if fut.request_id % 2 == 0 then false else true) ≡ c
    → Unused fut.request_id
        (t.queue c (shard_of t.concurrency fut.request_id) (pos_of t.concurrency fut.request_id))
    → let s = shard_of t.concurrency fut.request_id in
      let p = pos_of t.concurrency fut.request_id in
      Fetched
        (some fut)
        t
        (get_future_imp fut.request_id true (set_queue c s p (add_future fut (t.queue c s p)) t))
fetch_queued c fut t h parity unused =
    rw (fetch_added c fut t parity unused)
      (refl, queue_back c _ _ _ t, record { even = h.even; odd = h.odd })

enqueue-Answered :
    (ctx : Option Bool) (state : ConnectionState) (fut : Future) (t : Table)
    → IsTable t
    → (if fut.request_id % 2 == 0 then false else true) ≡ has_context ctx
    → Unused fut.request_id (
        t.queue
          (has_context ctx)
          (shard_of t.concurrency fut.request_id)
          (pos_of t.concurrency fut.request_id))
    → Answered (refusal false ctx state) fut.id fut.request_id t (enqueue state ctx fut t)
enqueue-Answered ctx conn_closed fut t h parity unused =
    (refl, refl, fetch-Unused (has_context ctx) _ t h parity unused)
enqueue-Answered ctx conn_disconnected fut t h parity unused =
    (refl, refl, fetch-Unused (has_context ctx) _ t h parity unused)
enqueue-Answered ctx conn_shutdown fut t h parity unused =
    (refl, refl, fetch-Unused (has_context ctx) _ t h parity unused)
enqueue-Answered (some true) conn_connected fut t h parity unused =
    (refl, refl, fetch-Unused true _ t h parity unused)
enqueue-Answered (some false) conn_connected fut t h parity unused =
    (refl, refl, fetch_queued true fut t h parity unused)
enqueue-Answered none conn_connected fut t h parity unused =
    (refl, refl, fetch_queued false fut t h parity unused)

-- As long as no queued future has the id that is next for a request with or without a context: `newFuture`
-- refuses the request exactly if the rate limit drops it, the connection is not connected or the context is
-- done, each with its error, and then `getFutureImp` finds nothing under that id. Otherwise
-- `getFutureImp` on the id takes exactly the new future out of the tables. Either way all queues are then as
-- they were before the request.
pub get_future_imp-new_future :
    (dropped : Bool) (ctx : Option Bool) (state : ConnectionState) (id : ℕ) (t : Table)
    → IsTable t
    → (let n = (next_request_id (has_context ctx) t).0 in
        Unused n (t.queue (has_context ctx) (shard_of t.concurrency n) (pos_of t.concurrency n)))
    → Answered
        (refusal dropped ctx state)
        id
        (next_request_id (has_context ctx) t).0
        t
        (new_future dropped ctx state id t)
unfolding new_future next_request_id
get_future_imp-new_future true none state id t h unused =
    (refl, refl, fetch-Unused false _ t h (next_request_id-parity false t h).0 unused)
get_future_imp-new_future true (some is_done) state id t h unused =
    (refl, refl, fetch-Unused true _ t h (next_request_id-parity true t h).0 unused)
get_future_imp-new_future false none state id t h unused =
    let (parity, valid) = next_request_id-parity false t h in
    let (n, left) = next_request_id false t in
    enqueue-Answered none state (record { request_id = n; id = id }) left valid parity unused
get_future_imp-new_future false (some is_done) state id t h unused =
    let (parity, valid) = next_request_id-parity true t h in
    let (n, left) = next_request_id true t in
    enqueue-Answered (some is_done) state (record { request_id = n; id = id }) left valid parity
      unused
