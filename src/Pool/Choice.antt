-- ===== src/Pool/Choice.antt =====
-- connection_pool.go: which connection `getNextConnection` chooses, and when it fails.
use go_tarantool.Common.{
  ◌%◌, ◌≡◌, refl, ◌⊎◌, inl, inr, String, List, [], ◌∷◌, none, some, arith, get_elem?-lt, length,
  Option-cases, ap, ◌<◌,
}
use native.Mathlib.Nat.{mod-lt}
use go_tarantool.RoundRobin.{RoundRobin, get_next_connection}
use go_tarantool.RoundRobin.Order.{find, find_elem}
use go_tarantool.RoundRobin.Refine.{Repr}
use go_tarantool.Pool.{
  Mode, any_mode, rw_mode, ro_mode, prefer_rw, prefer_ro, other_mode, Role, unknown_role,
  master_role, replica_role, Conn, Pool,
}
use go_tarantool.Pool.Subpools.{
  Result, ok, err, err_no_rw_instance, err_no_ro_instance, err_no_healthy_instance, get_next,
  next_any, next_rw, next_ro, or_else,
}
use go_tarantool.Pool.View.{View, Place, IsValid, IsPlace, place, at_role}

module _ {ℓ} {C : Type ℓ} where
  next-Repr :
      (r : RoundRobin C) (l : List (String × C)) → Repr r l → Repr (get_next_connection r).1 l
  unfolding get_next_connection
  next-Repr r l h = record {
    conns = ground (arith, h.conns);
    index = λ a. ground (arith, h.index a);
    size = ground (arith, h.size);
    distinct = h.distinct;
  }

  next-find :
      (r : RoundRobin C) (l : List (String × C)) (c : C)
      → Repr r l
      → (get_next_connection r).0 ≡ some c
      → (a : String) × (find a l ≡ some c)
  unfolding get_next_connection
  next-find r l c h e =
      find_elem l (r.current % r.size) c h.distinct (ground (arith, h.conns, h.size))

  next_none :
      (r : RoundRobin C) (l : List (String × C))
      → Repr r l
      → (get_next_connection r).0 ≡ none
      → l ≡ []
  unfolding get_next_connection
  next_none r [] h e = refl
  next_none r ((b, d) ∷ l) h e =
      let bound : r.current % r.size < r.size = mod-lt r.current (omega (arith, h.size)) in
      let (x, hx) =
        get_elem?-lt r.conns (r.current % r.size) (omega (arith, h.size, ap length h.conns)) in
      ground (arith, h.size)

any-role : (t : Place) (c : Conn) → IsPlace t → t.0 ≡ some c → (role : Role) × (t ≡ at_role c role)
any-role t c (inl e) h = ground arith
any-role t c (inr (d, unknown_role, e)) h = (unknown_role, ground arith)
any-role t c (inr (d, master_role, e)) h = (master_role, ground arith)
any-role t c (inr (d, replica_role, e)) h = (replica_role, ground arith)

rw-role : (t : Place) (c : Conn) → IsPlace t → t.1 ≡ some c → t ≡ at_role c master_role
rw-role t c (inl e) h = ground arith
rw-role t c (inr (d, role, e)) h = ground arith

ro-role : (t : Place) (c : Conn) → IsPlace t → t.2 ≡ some c → t ≡ at_role c replica_role
ro-role t c (inl e) h = ground arith
ro-role t c (inr (d, role, e)) h = ground arith

-- What a call of `getNextConnection` may answer, by the mode and the view of the pool.
abbrev pub Serves : Mode → View → Result Conn → Type 0
Serves any_mode v (ok c) = (a : String) × (role : Role) × (place v a ≡ at_role c role)
Serves any_mode v (err e) = (e ≡ err_no_healthy_instance) × (v.any ≡ [])
Serves rw_mode v (ok c) = (a : String) × (place v a ≡ at_role c master_role)
Serves rw_mode v (err e) = (e ≡ err_no_rw_instance) × (v.rw_view ≡ [])
Serves ro_mode v (ok c) = (a : String) × (place v a ≡ at_role c replica_role)
Serves ro_mode v (err e) = (e ≡ err_no_ro_instance) × (v.ro_view ≡ [])
Serves prefer_rw v (ok c) =
    (a : String) × ((place v a ≡ at_role c master_role)
      ⊎ (place v a ≡ at_role c replica_role) × (v.rw_view ≡ []))
Serves prefer_rw v (err e) = (e ≡ err_no_healthy_instance) × (v.rw_view ≡ []) × (v.ro_view ≡ [])
Serves prefer_ro v (ok c) =
    (a : String) × ((place v a ≡ at_role c replica_role)
      ⊎ (place v a ≡ at_role c master_role) × (v.ro_view ≡ []))
Serves prefer_ro v (err e) = (e ≡ err_no_healthy_instance) × (v.rw_view ≡ []) × (v.ro_view ≡ [])
Serves (other_mode n) v (ok c) = ⊥
Serves (other_mode n) v (err e) = e ≡ err_no_healthy_instance

module _ (v : View) (P : Result Conn × Pool → Type 0) (f : Pool → Result Conn × Pool) where
  next_any_cases :
      (p : Pool)
      → IsValid p v
      → ((c : Conn) (a : String) (role : Role) (q : Pool)
          → place v a ≡ at_role c role
          → IsValid q v
          → P (ok c, q))
      → ((q : Pool) → v.any ≡ [] → IsValid q v → P (f q))
      → P (or_else (next_any p) f)
  unfolding next_any
  next_any_cases p h served empty =
      let q : Pool = record p { any_pool = (get_next_connection p.any_pool).1 } in
      let valid : IsValid q v = record {
        any = next-Repr p.any_pool v.any h.any;
        rw_repr = h.rw_repr;
        ro_repr = h.ro_repr;
        consistent = h.consistent;
        shut = h.shut;
      } in
      elim (Option-cases (get_next_connection p.any_pool).0) [
        | inl e ↦ rw (e, next_any) (empty q (next_none p.any_pool v.any h.any e) valid)
        | inr (c, e) ↦
            let (a, found) = next-find p.any_pool v.any c h.any e in
            let (role, at) = any-role (place v a) c (h.consistent a) found in
            rw (e, next_any) (served c a role q at valid)
      ]

  next_rw_cases :
      (p : Pool)
      → IsValid p v
      → ((c : Conn) (a : String) (q : Pool)
          → place v a ≡ at_role c master_role
          → IsValid q v
          → P (ok c, q))
      → ((q : Pool) → v.rw_view ≡ [] → IsValid q v → P (f q))
      → P (or_else (next_rw p) f)
  unfolding next_rw
  next_rw_cases p h served empty =
      let q : Pool = record p { rw_pool = (get_next_connection p.rw_pool).1 } in
      let valid : IsValid q v = record {
        any = h.any;
        rw_repr = next-Repr p.rw_pool v.rw_view h.rw_repr;
        ro_repr = h.ro_repr;
        consistent = h.consistent;
        shut = h.shut;
      } in
      elim (Option-cases (get_next_connection p.rw_pool).0) [
        | inl e ↦ rw (e, next_rw) (empty q (next_none p.rw_pool v.rw_view h.rw_repr e) valid)
        | inr (c, e) ↦
            let (a, found) = next-find p.rw_pool v.rw_view c h.rw_repr e in
            rw (e, next_rw) (served c a q (rw-role (place v a) c (h.consistent a) found) valid)
      ]

  next_ro_cases :
      (p : Pool)
      → IsValid p v
      → ((c : Conn) (a : String) (q : Pool)
          → place v a ≡ at_role c replica_role
          → IsValid q v
          → P (ok c, q))
      → ((q : Pool) → v.ro_view ≡ [] → IsValid q v → P (f q))
      → P (or_else (next_ro p) f)
  unfolding next_ro
  next_ro_cases p h served empty =
      let q : Pool = record p { ro_pool = (get_next_connection p.ro_pool).1 } in
      let valid : IsValid q v = record {
        any = h.any;
        rw_repr = h.rw_repr;
        ro_repr = next-Repr p.ro_pool v.ro_view h.ro_repr;
        consistent = h.consistent;
        shut = h.shut;
      } in
      elim (Option-cases (get_next_connection p.ro_pool).0) [
        | inl e ↦ rw (e, next_ro) (empty q (next_none p.ro_pool v.ro_view h.ro_repr e) valid)
        | inr (c, e) ↦
            let (a, found) = next-find p.ro_pool v.ro_view c h.ro_repr e in
            rw (e, next_ro) (served c a q (ro-role (place v a) c (h.consistent a) found) valid)
      ]

-- An answer that the mode allows, in a pool whose connections are where they were.
abbrev pub IsAnswer : Mode → View → Result Conn × Pool → Type 0
IsAnswer mode v (r, q) = Serves mode v r × IsValid q v

-- `getNextConnection` gives a connection of the subpool that the mode names: `RW` only masters,
-- `RO` only replicas, a preference the other role only if there is no connection of the
-- preferred one. It fails exactly if these subpools are empty, with the error of the mode, and
-- it changes no subpool's connections.
pub get_next-IsAnswer :
    (mode : Mode) (p : Pool) (v : View) → IsValid p v → IsAnswer mode v (get_next mode p)
unfolding get_next
get_next-IsAnswer any_mode p v h =
    next_any_cases v (IsAnswer any_mode v) _ p h (λ c a role q at valid. ((a, role, at), valid))
      (λ q e valid. ((refl, e), valid))
get_next-IsAnswer rw_mode p v h =
    next_rw_cases v (IsAnswer rw_mode v) _ p h (λ c a q at valid. ((a, at), valid))
      (λ q e valid. ((refl, e), valid))
get_next-IsAnswer ro_mode p v h =
    next_ro_cases v (IsAnswer ro_mode v) _ p h (λ c a q at valid. ((a, at), valid))
      (λ q e valid. ((refl, e), valid))
get_next-IsAnswer prefer_rw p v h =
    next_rw_cases v (IsAnswer prefer_rw v) _ p h (λ c a q at valid. ((a, inl at), valid))
      (λ q e valid.
        next_ro_cases v (IsAnswer prefer_rw v) _ q valid
          (λ c a q' at valid'. ((a, inr (at, e)), valid'))
          (λ q' e' valid'. ((refl, e, e'), valid')))
get_next-IsAnswer prefer_ro p v h =
    next_ro_cases v (IsAnswer prefer_ro v) _ p h (λ c a q at valid. ((a, inl at), valid))
      (λ q e valid.
        next_rw_cases v (IsAnswer prefer_ro v) _ q valid
          (λ c a q' at valid'. ((a, inr (at, e)), valid'))
          (λ q' e' valid'. ((refl, e', e), valid')))
get_next-IsAnswer (other_mode n) p v h = (refl, h)
