-- ===== src/Pool/View.antt =====
-- The abstract view of a pool: its three subpools as ordered lists of connections, what makes a
-- view consistent, and how the operations of Subpools move it.
use go_tarantool.Common.{
  ◌≡◌, refl, sym, subst, ◌∙◌, ◌⊎◌, inl, inr, String, true, List, [], ◌∷◌, Option, none, some,
  Option-cases, arith, if◌then◌else◌, str_eq, str_eq_iff,
}
use go_tarantool.RoundRobin.{RoundRobin, delete_conn_by_addr}
use go_tarantool.RoundRobin.Order.{find, put, remove, find-put, find-remove}
use go_tarantool.RoundRobin.Refine.{Repr, delete_conn_by_addr-find, delete_conn_by_addr-Repr}
use go_tarantool.Pool.{closed_state, Role, unknown_role, master_role, replica_role, Conn, Pool}
use go_tarantool.Pool.Subpools.{delete_connection}

pub record View : Type 0 where
  pub any : List (String × Conn)
  pub rw_view : List (String × Conn)
  pub ro_view : List (String × Conn)

pub record Represents (p : Pool) (v : View) : Type 0 where
  pub any : Repr p.any_pool v.any
  pub rw_repr : Repr p.rw_pool v.rw_view
  pub ro_repr : Repr p.ro_pool v.ro_view

-- Where an address's connection stands, in the three subpools.
abbrev pub Place : Type 0
Place = Option Conn × Option Conn × Option Conn

abbrev pub place : View → String → Place
place v a = (find a v.any, find a v.rw_view, find a v.ro_view)

-- The place of a connection of a role, and that of an address with no connection.
abbrev pub at_role : Conn → Role → Place
at_role c master_role = (some c, some c, none)
at_role c replica_role = (some c, none, some c)
at_role c unknown_role = (some c, none, none)

abbrev pub nowhere : Place
nowhere = (none, none, none)

-- An address is nowhere, or its connection is in `any` and in the one subpool of its role.
abbrev pub IsPlace : Place → Type 0
IsPlace t = (t ≡ nowhere) ⊎ ((c : Conn) × (role : Role) × (t ≡ at_role c role))

pub record IsValid (p : Pool) (v : View) : Type 0 where
  pub any : Repr p.any_pool v.any
  pub rw_repr : Repr p.rw_pool v.rw_view
  pub ro_repr : Repr p.ro_pool v.ro_view
  pub consistent : (a : String) → IsPlace (place v a)
  pub shut : p.state ≡ closed_state → p.done ≡ true → (a : String) → place v a ≡ nowhere

-- The abstract operations.
abbrev pub delete_view : String → View → View
delete_view a v = record {
  any = remove a v.any;
  rw_view = remove a v.rw_view;
  ro_view = remove a v.ro_view;
}

abbrev pub add_view : String → Conn → Role → View → View
add_view a c master_role v = record v { any = put a c v.any; rw_view = put a c v.rw_view }
add_view a c replica_role v = record v { any = put a c v.any; ro_view = put a c v.ro_view }
add_view a c unknown_role v = record v { any = put a c v.any }

pub place-delete_view :
    (p : Pool) (v : View) (a b : String)
    → IsValid p v
    → place (delete_view a v) b ≡ (if str_eq a b then nowhere else place v b)
place-delete_view p v a b h = ground (
  arith,
  find-remove a b v.any h.any.distinct,
  find-remove a b v.rw_view h.rw_repr.distinct,
  find-remove a b v.ro_view h.ro_repr.distinct,
)

pub place-add_view :
    (v : View) (a b : String) (c : Conn) (role : Role)
    → place v a ≡ nowhere
    → place (add_view a c role v) b ≡ (if str_eq a b then at_role c role else place v b)
place-add_view v a b c unknown_role h = ground (arith, str_eq_iff a b, find-put a b c v.any)
place-add_view v a b c master_role h =
    ground (arith, str_eq_iff a b, find-put a b c v.any, find-put a b c v.rw_view)
place-add_view v a b c replica_role h =
    ground (arith, str_eq_iff a b, find-put a b c v.any, find-put a b c v.ro_view)

remove_unfound {ℓ} :
    {C : Type ℓ} (a : String) (l : List (String × C)) → find a l ≡ none → remove a l ≡ l
remove_unfound a [] h = refl
remove_unfound a ((b, d) ∷ l) h = ground (arith, remove_unfound a l)

-- A subpool after a deletion, and one that never held the address.
kept-Repr {ℓ} :
    {C : Type ℓ} (r : RoundRobin C) (l : List (String × C)) (a : String)
    → Repr r l
    → find a l ≡ none
    → Repr r (remove a l)
kept-Repr r l a h e = rw (remove_unfound a l e) h

module _ (p : Pool) (v : View) (a : String) (h : IsValid p v) where
  pub any_find : (delete_conn_by_addr p.any_pool a).0 ≡ find a v.any
  any_find = delete_conn_by_addr-find p.any_pool v.any a h.any

  pub rw_find : (delete_conn_by_addr p.rw_pool a).0 ≡ find a v.rw_view
  rw_find = delete_conn_by_addr-find p.rw_pool v.rw_view a h.rw_repr

  pub ro_find : (delete_conn_by_addr p.ro_pool a).0 ≡ find a v.ro_view
  ro_find = delete_conn_by_addr-find p.ro_pool v.ro_view a h.ro_repr

  delete_connection-any : (delete_connection a p).any_pool ≡ (delete_conn_by_addr p.any_pool a).1
  unfolding delete_connection
  delete_connection-any = ground arith

  delete_connection-rw : Repr (delete_connection a p).rw_pool (remove a v.rw_view)
  unfolding delete_connection
  delete_connection-rw = elim (Option-cases (find a v.any)) [
    | inl e ↦
        subst (λ r. Repr r (remove a v.rw_view)) (ground (arith, any_find))
          (kept-Repr p.rw_pool v.rw_view a h.rw_repr (ground (arith, h.consistent a)))
    | inr (c, e) ↦
        subst (λ r. Repr r (remove a v.rw_view)) (ground (arith, any_find))
          (delete_conn_by_addr-Repr p.rw_pool v.rw_view a h.rw_repr)
  ]

  delete_connection-ro : Repr (delete_connection a p).ro_pool (remove a v.ro_view)
  unfolding delete_connection
  delete_connection-ro = elim (Option-cases (find a v.any)) [
    | inl e ↦
        subst (λ r. Repr r (remove a v.ro_view)) (ground (arith, any_find))
          (kept-Repr p.ro_pool v.ro_view a h.ro_repr (ground (arith, h.consistent a)))
    | inr (c, e) ↦ elim (Option-cases (find a v.rw_view)) [
      | inl none_rw ↦
          subst (λ r. Repr r (remove a v.ro_view)) (ground (arith, any_find, rw_find))
            (delete_conn_by_addr-Repr p.ro_pool v.ro_view a h.ro_repr)
      | inr (d, some_rw) ↦
          subst (λ r. Repr r (remove a v.ro_view)) (ground (arith, any_find, rw_find))
            (kept-Repr p.ro_pool v.ro_view a h.ro_repr (ground (arith, h.consistent a)))
    ]
  ]

  IsPlace-delete_view : (b : String) → IsPlace (place (delete_view a v) b)
  IsPlace-delete_view b = ground (arith, place-delete_view p v a b h, h.consistent b)

  delete_connection-shut :
      (delete_connection a p).state ≡ closed_state
      → (delete_connection a p).done ≡ true
      → (b : String) → place (delete_view a v) b ≡ nowhere
  unfolding delete_connection
  delete_connection-shut e d b =
      let same : (delete_connection a p).state ≡ p.state = ground arith in
      let same_done : (delete_connection a p).done ≡ p.done = ground arith in
      ground (arith, place-delete_view p v a b h, h.shut (sym same ∙ e) (sym same_done ∙ d) b)

  -- `deleteConnection` on a consistent pool removes the address from all three subpools, and
  -- leaves every other address's connection where it is.
  pub delete_connection-IsValid : IsValid (delete_connection a p) (delete_view a v)
  delete_connection-IsValid = record {
    any = rw delete_connection-any (delete_conn_by_addr-Repr p.any_pool v.any a h.any);
    rw_repr = delete_connection-rw;
    ro_repr = delete_connection-ro;
    consistent = IsPlace-delete_view;
    shut = delete_connection-shut;
  }
