-- ===== src/Common/Byte.antt =====
-- Shifts and masks on one byte as arithmetic: tables of at most 256 entries, checked by evaluation.
use go_tarantool.Common.Tests.{◌==◌, ==_iff, if◌then◌else◌}
use Prim.Native.Nat.{ℕ, zero, suc, ◌+◌, ◌*◌, ◌/◌, ◌%◌, ◌<◌, bit_and, bit_or}
use mathlib.Core.Path.{◌≡◌, refl}
use mathlib.Core.Bool.{Bool, true, false}
use native.Mathlib.Omega.{arith}

-- `q` holds at `0 … n - 1`.
holds_at : (ℕ → Bool) → ℕ → Bool
holds_at q (suc n) = if q n then holds_at q n else false
holds_at q zero = true

holds_at_lem : (q : ℕ → Bool) (n b : ℕ) → b < n → holds_at q n ≡ true → q b ≡ true
unfolding holds_at
holds_at_lem q (suc n) b below table = ground (arith, holds_at_lem q n b)
holds_at_lem q zero b below table = absurd (omega arith)

low_table : holds_at (λ b. bit_and b 0x0f == b % 16) 256 ≡ true
unfolding holds_at
low_table = refl

-- `b & 0x0f` on a byte.
pub low_nibble : (b : ℕ) → b < 256 → bit_and b 0x0f ≡ b % 16
low_nibble b h = (==_iff _ _).0 (holds_at_lem _ 256 b h low_table)

high_table : holds_at (λ b. bit_and b 0xf0 == b / 16 * 16) 256 ≡ true
unfolding holds_at
high_table = refl

-- `b & 0xf0` on a byte.
pub high_nibble : (b : ℕ) → b < 256 → bit_and b 0xf0 ≡ b / 16 * 16
high_nibble b h = (==_iff _ _).0 (holds_at_lem _ 256 b h high_table)

or_table : holds_at (λ b. bit_or (b / 16 * 16) (b % 16) == b) 256 ≡ true
unfolding holds_at
or_table = refl

-- `(h << 4) | l` of two nibbles.
pub join_nibbles : (h l : ℕ) → h < 16 → l < 16 → bit_or (h * 16) l ≡ h * 16 + l
join_nibbles h l hh hl =
    let b = h * 16 + l in
    ground (
      arith,
      (==_iff _ _).0
          (holds_at_lem (λ b. bit_or (b / 16 * 16) (b % 16) == b) 256 b (omega arith) or_table),
    )
