-- ===== src/Ships/Grid/Digits.antt =====
-- Cells as the binary digits of a grid: `Get`, `Set` and `CountOnes` of ships/grid.cpp.
use libxayagame.Base.{ℕ, zero, suc, ◌+◌, ◌*◌, ◌/◌, ◌%◌, ◌^◌, ◌<◌, ◌≤◌, ◌≡◌, some, ltb, arith}
use libxayagame.Base.Bits.{digit, bit_and-top, bit_or-top}
use libxayagame.Base.Int.{pos}
use libxayagame.Ships.Coord.{Coord, cells, coord_at, get_index}
use libxayagame.Ships.Coord.Index.{get_index-coord_at}
use libxayagame.Ships.Grid.{Grid, word, get, set}
use native.Mathlib.Nat.{one-le-pow, pow-le-pow_right, pow-succ'}

pub get-digit :
    (g : Grid) (c : Coord) (i : ℕ) → get_index c ≡ some i → get g c ≡ some (ltb 0 (digit g.bits i))
unfolding get
get-digit g c i e = ground (arith, e)

-- The first `i` cells of a word.
abbrev pub first_cells : ℕ → ℕ → Grid
first_cells b i = record { bits = b % 2 ^ i }

two_pow_le : (i : ℕ) → i < cells → 2 ^ suc i ≤ 2 ^ cells
two_pow_le i lt = pow-le-pow_right (omega arith) lt

two_pow-word : (i : ℕ) → i < cells → 1 * 2 ^ i % word ≡ 2 ^ i
two_pow-word i lt = omega (arith, pow-succ' 2 i, two_pow_le i lt, one-le-pow i 2 (omega arith))

-- The next cell is set where it was not.
pub set-next :
    (a i : ℕ)
    → i < cells
    → a < 2 ^ i
    → set (record { bits = a }) (coord_at (pos i)) ≡ some (record { bits = a + 2 ^ i })
unfolding set
set-next a i lt fits =
    ground
      (arith, get_index-coord_at i lt, two_pow-word i lt, bit_and-top i a fits, bit_or-top i a fits)

-- How many of the first cells are set.
pub count_below : ℕ → ℕ → ℕ
count_below zero b = 0
count_below (suc w) b = b % 2 + count_below w (b / 2)
