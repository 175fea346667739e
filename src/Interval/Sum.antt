-- ===== src/Interval/Sum.antt =====
-- datetime/interval.go: sums and differences that wrap around.
use go_tarantool.Common.{ℕ, ◌^◌, ◌<◌, ◌≡◌, refl, arith}
use go_tarantool.Interval.{Interval, add, sub, add_word, sub_word}

abbrev pub IsWord : ℕ → Type 0
IsWord v = v < 2 ^ 64

-- The numbers of an interval are 64-bit words.
pub record IsInterval (x : Interval) : Type 0 where
  pub year : IsWord x.year
  pub month : IsWord x.month
  pub week : IsWord x.week
  pub day : IsWord x.day
  pub hour : IsWord x.hour
  pub min : IsWord x.min
  pub sec : IsWord x.sec
  pub nsec : IsWord x.nsec

sub_word-add_word : (a b : ℕ) → IsWord a → IsWord b → sub_word (add_word a b) b ≡ a
sub_word-add_word a b ha hb = omega arith

-- `Sub` takes back what `Add` has added, in every field and whether or not the sums overflow, and
-- keeps the adjustment of the first interval.
pub sub-add : (x y : Interval) → IsInterval x → IsInterval y → sub (add x y) y ≡ x
unfolding add sub
sub-add x y hx hy =
    rw
      (
        sub_word-add_word x.year y.year hx.year hy.year,
        sub_word-add_word x.month y.month hx.month hy.month,
        sub_word-add_word x.week y.week hx.week hy.week,
        sub_word-add_word x.day y.day hx.day hy.day,
        sub_word-add_word x.hour y.hour hx.hour hy.hour,
        sub_word-add_word x.min y.min hx.min hy.min,
        sub_word-add_word x.sec y.sec hx.sec hy.sec,
        sub_word-add_word x.nsec y.nsec hx.nsec hy.nsec,
      )
      refl
