-- ===== src/RoundRobin/Refine.antt =====
-- round_robin.go: each method against its operation on an ordered association list.
use go_tarantool.Common.{
  ℕ, ◌≡◌, refl, inl, inr, String, List, [], ◌∷◌, none, some, Bool-cases, arith, str_eq, str_eq_iff,
  Option-cases, length, length-append, length-set,
}
use go_tarantool.Common.Assoc.{
  lookup, insert, lookup-insert, lookup-erase, lookup-update_values, erase, update_values,
}
use go_tarantool.RoundRobin.{
  RoundRobin, new_empty_round_robin, get_conn_by_addr, delete_conn_by_addr, add_conn, shift_down,
}
use go_tarantool.RoundRobin.Order.{
  index_of, find, put, remove, values, Distinct, find-values, find-none, values-remove,
  length-values-remove, index_of-remove, index_of-remove_self, remove-Distinct, remove_absent,
  values-put_found, values-put_new, index_of-put_found, index_of-put_new, put-Distinct,
}

-- The subpool holds exactly the connections of the list, in its order.
pub record Repr {ℓ} {C : Type ℓ} (r : RoundRobin C) (l : List (String × C)) : Type ℓ where
  pub conns : r.conns ≡ values l
  pub index : (a : String) → lookup a r.index_by_addr ≡ index_of a l
  pub size : r.size ≡ length (values l)
  pub distinct : Distinct l

module _ {ℓ} {C : Type ℓ} where
  pub new_empty_round_robin-Repr : Repr (new_empty_round_robin {C = C}) []
  unfolding new_empty_round_robin lookup
  new_empty_round_robin-Repr = record {
    conns = refl;
    index = λ a. refl;
    size = refl;
    distinct = tt;
  }

  -- `GetConnByAddr` finds the address's connection, and its index is never out of range.
  pub get_conn_by_addr-find :
      (r : RoundRobin C) (l : List (String × C)) (a : String)
      → Repr r l
      → get_conn_by_addr r a ≡ find a l
  unfolding get_conn_by_addr
  get_conn_by_addr-find r l a h = elim (Option-cases (index_of a l)) [
    | inl e ↦ ground (arith, h.index a, find-none a l e)
    | inr (i, e) ↦ ground (arith, h.index a, find-values a l i e, h.conns)
  ]

  pub delete_conn_by_addr-find :
      (r : RoundRobin C) (l : List (String × C)) (a : String)
      → Repr r l
      → (delete_conn_by_addr r a).0 ≡ find a l
  unfolding delete_conn_by_addr
  delete_conn_by_addr-find r l a h = elim (Option-cases (index_of a l)) [
    | inl e ↦ ground (arith, h.index a, find-none a l e)
    | inr (i, e) ↦ ground (arith, h.index a, find-values a l i e, h.conns, h.size)
  ]

  module _ (r : RoundRobin C) (l : List (String × C)) (a : String) (h : Repr r l) where
    deleted_lookup :
        (i : ℕ) (b : String)
        → index_of a l ≡ some i
        → lookup b (update_values (shift_down i) (erase a r.index_by_addr))
          ≡ index_of b (remove a l)
    unfolding shift_down
    deleted_lookup i b e = elim (Bool-cases (str_eq a b)) [
      | inl same ↦ ground (
        arith,
        str_eq_iff a b,
        lookup-update_values (shift_down i) b (erase a r.index_by_addr),
        lookup-erase a b r.index_by_addr,
        index_of-remove_self a l h.distinct,
      )
      | inr other ↦ ground (
        arith,
        str_eq_iff a b,
        h.index b,
        lookup-update_values (shift_down i) b (erase a r.index_by_addr),
        lookup-erase a b r.index_by_addr,
        index_of-remove a b l i e,
      )
    ]

    deleted_absent : index_of a l ≡ none → (delete_conn_by_addr r a).1 ≡ r
    unfolding delete_conn_by_addr
    deleted_absent e = ground (arith, h.index a)

    -- `DeleteConnByAddr` removes the address's entry and keeps the order of the others.
    pub delete_conn_by_addr-Repr : Repr (delete_conn_by_addr r a).1 (remove a l)
    unfolding delete_conn_by_addr
    delete_conn_by_addr-Repr = elim (Option-cases (index_of a l)) [
      | inl e ↦ rw (deleted_absent e, remove_absent a l e) h
      | inr (i, e) ↦ record {
        conns =
            ground (arith, h.index a, h.conns, h.size, find-values a l i e, values-remove a l i e);
        index = λ b. ground (arith, h.index a, h.size, find-values a l i e, deleted_lookup i b e);
        size = ground (arith, h.index a, h.size, find-values a l i e, length-values-remove a l i e);
        distinct = remove-Distinct a l h.distinct;
      }
    ]

    added_lookup :
        (c : C) (b : String)
        → index_of a l ≡ none
        → lookup b (insert a r.size r.index_by_addr) ≡ index_of b (put a c l)
    added_lookup c b e = ground (
      arith,
      h.index b,
      h.size,
      lookup-insert a b r.size r.index_by_addr,
      index_of-put_new a b c l e,
    )

    -- `AddConn` replaces the connection of a known address in its place, and puts a new address
    -- behind the others.
    pub add_conn-Repr : (c : C) → Repr (add_conn r a c) (put a c l)
    unfolding add_conn
    add_conn-Repr c = elim (Option-cases (index_of a l)) [
      | inl e ↦ record {
        conns = ground (arith, h.index a, h.conns, values-put_new a c l e);
        index = λ b. ground (arith, h.index a, added_lookup c b e);
        size =
            ground
              (arith, h.index a, h.size, values-put_new a c l e, length-append (values l) (c ∷ []));
        distinct = put-Distinct a c l h.distinct;
      }
      | inr (i, e) ↦ record {
        conns = ground (arith, h.index a, h.conns, values-put_found a c l i e);
        index = λ b. ground (arith, h.index a, h.index b, index_of-put_found a b c l i e);
        size =
            ground
              (arith, h.index a, h.size, values-put_found a c l i e, length-set (values l) i c);
        distinct = put-Distinct a c l h.distinct;
      }
    ]
