-- ===== src/RoundRobin/Tests.antt =====
-- round_robin.go: a balancer of two connections.
use go_tarantool.Common.{ℕ, ◌≡◌, [], ◌∷◌, some, arith}
use go_tarantool.RoundRobin.{
  RoundRobin, new_empty_round_robin, get_conn_by_addr, delete_conn_by_addr, add_conn,
}
use go_tarantool.RoundRobin.Refine.{
  Repr, new_empty_round_robin-Repr, get_conn_by_addr-find, delete_conn_by_addr-Repr, add_conn-Repr,
}
use go_tarantool.RoundRobin.Turns.{turns, full_turn}
use go_tarantool.Common.Assoc.{lookup, insert}

abbrev one_conn : RoundRobin ℕ
one_conn = add_conn new_empty_round_robin "a" 7

abbrev two_conns : RoundRobin ℕ
two_conns = add_conn one_conn "b" 8

one_conn-Repr : Repr one_conn (("a", 7) ∷ [])
one_conn-Repr = add_conn-Repr new_empty_round_robin [] "a" new_empty_round_robin-Repr 7

two_conns-Repr : Repr two_conns (("a", 7) ∷ ("b", 8) ∷ [])
two_conns-Repr = add_conn-Repr one_conn (("a", 7) ∷ []) "b" one_conn-Repr 8

add_conn-Repr_example : Repr (add_conn two_conns "a" 9) (("a", 9) ∷ ("b", 8) ∷ [])
add_conn-Repr_example = add_conn-Repr two_conns (("a", 7) ∷ ("b", 8) ∷ []) "a" two_conns-Repr 9

delete_conn_by_addr-Repr_example : Repr (delete_conn_by_addr two_conns "a").1 (("b", 8) ∷ [])
delete_conn_by_addr-Repr_example =
    delete_conn_by_addr-Repr two_conns (("a", 7) ∷ ("b", 8) ∷ []) "a" two_conns-Repr

get_conn_by_addr-find_example : get_conn_by_addr two_conns "b" ≡ some 8
get_conn_by_addr-find_example =
    get_conn_by_addr-find two_conns (("a", 7) ∷ ("b", 8) ∷ []) "b" two_conns-Repr

full_turn_example : turns 2 two_conns ≡ some 7 ∷ some 8 ∷ []
unfolding add_conn new_empty_round_robin lookup insert
full_turn_example = full_turn two_conns (("a", 7) ∷ ("b", 8) ∷ []) two_conns-Repr (omega arith)
