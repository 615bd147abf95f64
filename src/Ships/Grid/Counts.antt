-- ===== src/Ships/Grid/Counts.antt =====
-- How many cells of a grid are set (`CountOnes` of ships/grid.cpp).
use libxayagame.Base.{
  ℕ, zero, suc, ◌+◌, ◌/◌, ◌%◌, ◌^◌, ◌<◌, ◌≡◌, ap, Bool, true, false, Option, none, some, ltb, arith,
  inl, inr, Bool-cases,
}
use libxayagame.Base.Bits.{digit, digit-suc}
use libxayagame.Base.Int.{pos}
use libxayagame.Ships.Coord.{cells, coord_at}
use libxayagame.Ships.Grid.{Grid, word, get, count_from, count_ones}
use libxayagame.Ships.Grid.Answers.{get-cell}
use native.Mathlib.Nat.{pow-succ'}

abbrev count_cell : Option Bool → ℕ
count_cell none = 0
count_cell (some false) = 0
count_cell (some true) = 1

-- The number of the first `n` cells that are set, cell by cell.
pub cells_set : Grid → ℕ → ℕ
cells_set g zero = 0
cells_set g (suc n) = cells_set g n + count_cell (get g (coord_at (pos n)))

digits_set : ℕ → ℕ → ℕ
digits_set a zero = 0
digits_set a (suc n) = digits_set a n + digit a n

digits_set-half : (n a : ℕ) → digits_set a (suc n) ≡ a % 2 + digits_set (a / 2) n
unfolding digits_set
digits_set-half zero a = omega arith
digits_set-half (suc n) a = omega (arith, digits_set-half n a, digit-suc a n)

cells_set-digits : (g : Grid) (n : ℕ) → n < suc cells → cells_set g n ≡ digits_set g.bits n
unfolding cells_set digits_set
cells_set-digits g zero lt = ground arith
cells_set-digits g (suc n) lt =
    ground (arith, cells_set-digits g n (omega arith), get-cell g n (omega arith))

digits_set-zero : (n : ℕ) → digits_set 0 n ≡ 0
unfolding digits_set
digits_set-zero zero = ground arith
digits_set-zero (suc n) = omega (arith, digits_set-half n 0, digits_set-zero n)

count_from_lem :
    (fuel a res : ℕ) → a < 2 ^ fuel → count_from fuel a res ≡ some (res + digits_set a fuel)
unfolding count_from digits_set
count_from_lem zero a res fits = ground arith
count_from_lem (suc fuel) a res fits = elim (Bool-cases (ltb 0 a)) [
  | inl more ↦ ground (
    arith,
    more,
    digits_set-half fuel a,
    count_from_lem fuel (a / 2) (res + a % 2) (omega (arith, pow-succ' 2 fuel)),
  )
  | inr ended ↦ ground (
    arith,
    ended,
    ap (λ (t : ℕ). digits_set t (suc fuel)) (is_zero ended),
    digits_set-zero (suc fuel),
  )
]
  where
    is_zero : ltb 0 a ≡ false → a ≡ 0
    is_zero e = ground arith

-- For a grid of 64 bits the loop ends within 64 rounds, with the number of cells that are set.
pub count_ones-cells_set : (g : Grid) → g.bits < word → count_ones g ≡ some (cells_set g cells)
unfolding count_ones
count_ones-cells_set g fits =
    ground (arith, count_from_lem cells g.bits 0 fits, cells_set-digits g cells (omega arith))
