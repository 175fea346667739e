-- ===== src/Pool/Rounds.antt =====
-- A whole round of a checker, and what it is to the other checkers.
use go_tarantool.Common.{
  ◌≡◌, refl, ◌∙◌, inl, inr, String, Bool, Bool-cases, Option, none, some, Option-cases, arith,
}
use go_tarantool.Pool.{Role, Conn, Pool, closed, discovered, deactivated, is_connected, role_eq}
use go_tarantool.Pool.View.{View, Place, IsValid, nowhere}
use go_tarantool.Pool.Checker.{
  ConnState, Answers, without_conn, store_connection, update_connection, try_connect, reconnect,
  Signal, pool_done, notified, ticked, check,
}
use go_tarantool.Pool.Rely.{
  held, At, assign, Goes, Window, Moved, Goes-same, Goes-trans, Goes-tell, delete_connection-Goes,
  store-Moved, through,
}

-- What a round of the checker of `a` may leave behind: the checker's new state and the pool. The
-- pool is untouched when the checker ends.
abbrev pub Checked : ((String → Place) → Type 0) → Pool → String → Option ConnState × Pool → Type 0
Checked T p a (some s, q) = Moved T p a (s, q) × (s.addr ≡ a)
Checked T p a (none, q) = q ≡ p

-- The end that `updateConnection` and `tryConnect` share, after a window.
enter :
    (T : (String → Place) → Type 0) (env : Answers) (c : Conn) (role : Role) (s : ConnState)
    (p q : Pool) (w : View) (t : String → Place)
    → T t
    → Goes p q w (assign t s.addr nowhere)
    → Moved T p s.addr (store_connection env c role s q)
enter T env c role s p q w t ht m =
    let (u, x, hu, n) = store-Moved T env c role s q w t ht m.valid m.places in
    (u, x, hu, Goes-trans p q _ w x _ _ m n)

module _ (T : (String → Place) → Type 0) (s : ConnState) where
  unmoved :
      (p : Pool) (v : View) (t : String → Place) (r : ConnState)
      → T t
      → IsValid p v
      → At (assign t s.addr (held r)) p v
      → Moved T p s.addr (r, p)
  unmoved p v t r ht h at = (t, v, ht, Goes-same p v _ h at)

  module _ (others : Pool → Pool) (window : Window T s.addr others) (env : Answers) where
    update_connection-Moved :
        (c : Conn) (p : Pool) (v : View) (t : String → Place)
        → T t
        → IsValid p v
        → At (assign t s.addr (held s)) p v
        → Moved T p s.addr (update_connection env others c s p)
    unfolding update_connection
    update_connection-Moved c p v t ht h at =
        let same = unmoved p v t s ht h at in
        elim (Bool-cases (is_connected p.state)) [
          | inr e ↦ rw e same
          | inl e ↦ elim (Option-cases env.role) [
            | inl f ↦ rw (e, f, update_connection) same
            | inr (role, f) ↦ elim (Bool-cases (role_eq s.role role)) [
              | inl g ↦ rw (e, f, g, update_connection) same
              | inr g ↦
                  let (u, w, hu, m) = through T s.addr others window p _ _ t ht (
                    Goes-tell (discovered c role) p _ _ _ (
                      Goes-tell (deactivated c s.role) p _ _ _
                        (delete_connection-Goes p v s.addr t (held s) h at))) in
                  elim (Bool-cases env.discovers) [
                    | inl d ↦ rw (e, f, g, d, update_connection) (enter T env c role s p _ w u hu m)
                    | inr d ↦
                        rw (e, f, g, d, update_connection)
                          (u, w, hu, Goes-tell (closed c) p _ w _ m)
                  ]
            ]
          ]
        ]

    try_connect-Moved :
        (p : Pool) (v : View) (t : String → Place)
        → s.conn ≡ none
        → T t
        → IsValid p v
        → At (assign t s.addr nowhere) p v
        → Moved T p s.addr (try_connect env others s p)
    unfolding try_connect
    try_connect-Moved p v t en ht h at = elim (Bool-cases (is_connected p.state)) [
      | inr e ↦ rw e (t, v, ht, Goes-same p v _ h (λ o. cc))
      | inl e ↦ elim (Option-cases env.connects) [
        | inl f ↦ rw (e, f, try_connect) (t, v, ht, Goes-same p v _ h at)
        | inr (c, f) ↦ elim (Option-cases env.role) [
          | inl g ↦
              let (u, w, hu, m) =
                through T s.addr others window p p v t ht (Goes-same p v _ h at) in
              rw (e, f, g, try_connect) (u, w, hu, Goes-tell (closed c) p _ w _ m)
          | inr (role, g) ↦
              let (u, w, hu, m) =
                through T s.addr others window p _ v t ht
                  (Goes-tell (discovered c role) p p v _ (Goes-same p v _ h at)) in
              elim (Bool-cases env.discovers) [
                | inl d ↦
                    rw (e, f, g, d, try_connect) (enter T env c role (without_conn s) p _ w u hu m)
                | inr d ↦ rw (e, f, g, d, try_connect) (u, w, hu, Goes-tell (closed c) p _ w _ m)
              ]
        ]
      ]
    ]

module _ (T : (String → Place) → Type 0) (s : ConnState) (others before : Pool → Pool)
    (window : Window T s.addr others) (window_before : Window T s.addr before) (env : Answers) where
  reconnect-Moved :
      (c : Conn) (p : Pool) (v : View) (t : String → Place)
      → T t
      → IsValid p v
      → At (assign t s.addr (held s)) p v
      → Moved T p s.addr (reconnect env others before c s p)
  unfolding reconnect
  reconnect-Moved c p v t ht h at = elim (Bool-cases (is_connected p.state)) [
    | inr e ↦ rw e (unmoved T s p v t s ht h at)
    | inl e ↦
        let (u, w, hu, m) = through T s.addr before window_before p _ _ t ht (
          Goes-tell (deactivated c s.role) p _ _ _
            (delete_connection-Goes p v s.addr t (held s) h at)) in
        let (u', x, hu', n) =
          try_connect-Moved T (without_conn s) others window env _ w u refl hu m.valid m.places in
        rw e (u', x, hu', Goes-trans p _ _ w x _ _ m n)
  ]

  notified-Checked :
      (closed_now : Bool) (p : Pool) (v : View) (t : String → Place)
      → T t
      → IsValid p v
      → At (assign t s.addr (held s)) p v
      → Checked T p s.addr (check env others before (notified closed_now) s p)
  unfolding check
  notified-Checked closed_now p v t ht h at =
      let same = unmoved T s p v t s ht h at in
      elim (Option-cases s.conn) [
        | inl e ↦ rw (e, check) (same, refl)
        | inr (c, e) ↦ elim (Bool-cases closed_now) [
          | inr f ↦ rw (e, f, check) (same, refl)
          | inl f ↦ elim (Bool-cases (is_connected p.state)) [
            | inr g ↦ rw (e, f, g, check) (same, refl)
            | inl g ↦
                let m =
                  Goes-tell (deactivated c s.role) p _ _ _
                    (delete_connection-Goes p v s.addr t (held s) h at) in
                rw (e, f, g, check) ((t, _, ht, m), refl)
          ]
        ]
      ]

  store_connection-addr :
      (c : Conn) (role : Role) (r : ConnState) (p : Pool)
      → (store_connection env c role r p).0.addr ≡ r.addr
  unfolding store_connection
  store_connection-addr c role r p = ground arith

  update_connection-addr :
      (c : Conn) (p : Pool) → (update_connection env others c s p).0.addr ≡ s.addr
  unfolding update_connection
  update_connection-addr c p = ground arith

  try_connect-addr : (r : ConnState) (p : Pool) → (try_connect env others r p).0.addr ≡ r.addr
  unfolding try_connect
  try_connect-addr r p = ground arith

  reconnect-addr : (c : Conn) (p : Pool) → (reconnect env others before c s p).0.addr ≡ s.addr
  unfolding reconnect
  reconnect-addr c p = ground arith

  -- A round of a checker, on a consistent pool that has the checker's connection in its place and
  -- the others' where `t` says, `T t`. It is proved under a condition on what the rest of the program does
  -- in the windows in which the round has given the mutex up, `others` and `before`: from every
  -- consistent pool in which the checker's address has no connection and the other addresses are
  -- placed as `T` allows, a window leads to such a pool again, and to none that is connected unless the pool
  -- was connected before. Then after the round the pool is consistent, it has not come back
  -- from a close, and as long as it is connected the checker's connection is in the place of its
  -- role (the address has none if the checker has none), and the others' are where `T` allows.
  pub check-Checked :
      (signal : Signal) (p : Pool) (v : View) (t : String → Place)
      → T t
      → IsValid p v
      → At (assign t s.addr (held s)) p v
      → Checked T p s.addr (check env others before signal s p)
  unfolding check
  check-Checked pool_done p v t ht h at = refl
  check-Checked (notified closed_now) p v t ht h at = notified-Checked closed_now p v t ht h at
  check-Checked (ticked closed_now) p v t ht h at = elim (Option-cases s.conn) [
    | inl e ↦
        rw (e, check)
          (
            try_connect-Moved T s others window env p v t e ht h (λ o b. at o b ∙ ground arith),
            try_connect-addr s p,
          )
    | inr (c, e) ↦ elim (Bool-cases closed_now) [
      | inr f ↦
          rw (e, f, check)
            (
              update_connection-Moved T s others window env c p v t ht h at,
              update_connection-addr c p,
            )
      | inl f ↦ rw (e, f, check) (reconnect-Moved c p v t ht h at, reconnect-addr c p)
    ]
  ]
