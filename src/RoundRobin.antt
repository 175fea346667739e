-- ===== src/RoundRobin.antt =====
-- connection_pool/round_robin.go: the subpool that hands connections out in turn.
-- A method holds the mutex for its whole body, so each is one function on the state.
-- An index outside of the slice would panic; it is `none` here, and `Repr` (Refine) excludes it.
pub mod Order
pub mod Refine
pub mod Turns
mod Tests
use go_tarantool.Common.{
  ℕ, ◌+◌, ◌-◌, ◌%◌, ◌^◌, String, Bool, List, [], ◌∷◌, ◌++◌, Option, none, some, ltb, ◌==◌,
  if◌then◌else◌, get_elem?, set, take, drop, length,
}
use go_tarantool.Common.Assoc.{lookup, insert, erase, update_values}

pub record RoundRobin {ℓ} (C : Type ℓ) : Type ℓ where
  pub conns : List C
  pub index_by_addr : List (String × ℕ)
  pub size : ℕ
  pub current : ℕ

-- `if v > index { m[k] = v - 1 }`
unfoldable pub shift_down : ℕ → ℕ → ℕ
shift_down index v = if ltb index v then v - 1 else v

module _ {ℓ} {C : Type ℓ} where
  -- The argument of the source is only a capacity.
  unfoldable pub new_empty_round_robin : RoundRobin C
  new_empty_round_robin = record { conns = []; index_by_addr = []; size = 0; current = 0 }

  unfoldable pub get_conn_by_addr : RoundRobin C → String → Option C
  get_conn_by_addr r addr = elim (lookup addr r.index_by_addr) [
    | none ↦ none
    | some index ↦ get_elem? r.conns index
  ]

  -- `size` is not 0 where 1 is taken from it.
  unfoldable pub delete_conn_by_addr : RoundRobin C → String → Option C × RoundRobin C
  unfolding shift_down
  delete_conn_by_addr r addr =
      if r.size == 0 then (none, r) else elim (lookup addr r.index_by_addr) [
        | none ↦ (none, r)
        | some index ↦ (
          get_elem? r.conns index,
          record r {
            conns = take index r.conns ++ drop (index + 1) r.conns;
            index_by_addr = update_values (shift_down index) (erase addr r.index_by_addr);
            size = r.size - 1;
          },
        )
      ]

  unfoldable pub is_empty : RoundRobin C → Bool
  is_empty r = r.size == 0

  -- `current` is a 64-bit uint.
  unfoldable pub next_index : RoundRobin C → ℕ × RoundRobin C
  next_index r = (r.current % r.size, record r { current = (r.current + 1) % 2 ^ 64 })

  unfoldable pub get_next_connection : RoundRobin C → Option C × RoundRobin C
  unfolding next_index
  get_next_connection r =
      if r.size == 0
      then (none, r)
      else let (index, r') = next_index r in (get_elem? r.conns index, r')

  unfoldable pub get_connections : RoundRobin C → List C
  get_connections r = r.conns

  -- `size` counts the elements of a slice, so it does not wrap.
  unfoldable pub add_conn : RoundRobin C → String → C → RoundRobin C
  add_conn r addr conn = elim (lookup addr r.index_by_addr) [
    | some idx ↦ record r { conns = set r.conns idx conn }
    | none ↦ record r {
      conns = r.conns ++ conn ∷ [];
      index_by_addr = insert addr r.size r.index_by_addr;
      size = r.size + 1;
    }
  ]
