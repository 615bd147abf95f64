-- ===== src/Ships/Coord.antt =====
-- Coordinates on the board (ships/coord.cpp). `int` is ℤ: a coordinate that the code computes is at
-- most one step off the board, or comes from an index.
pub mod Index
use libxayagame.Base.{ℕ, ◌*◌, Bool, false, true, ◌||◌, not, Option, none, some, ltb, if◌then◌else◌}
use libxayagame.Base.Int.{ℤ, pos, negsuc, ◌+ℤ◌, ◌*ℤ◌, ltb_ℤ, ◌/ℤ◌, ◌%ℤ◌}

pub data Direction : Type 0 where
  left right up down : Direction

pub record Coord : Type 0 where
  pub row : ℤ
  pub column : ℤ

abbrev pub side : ℕ
side = 8

abbrev pub cells : ℕ
cells = side * side

abbrev pub inverse : Direction → Direction
inverse left = right
inverse right = left
inverse up = down
inverse down = up

unfoldable pub coord_at : ℤ → Coord
coord_at ind = record { row = ind /ℤ side; column = ind %ℤ side }

unfoldable pub is_on_board : Coord → Bool
is_on_board c =
    if ltb_ℤ c.row (pos 0) || not (ltb_ℤ c.row (pos side))
    then false
    else if ltb_ℤ c.column (pos 0) || not (ltb_ℤ c.column (pos side))
    then false
    else true

-- A failed `CHECK` is `none`.
abbrev pub checked_index : ℤ → Option ℕ
checked_index (pos res) = if ltb res cells then some res else none
checked_index (negsuc res) = none

unfoldable pub get_index : Coord → Option ℕ
unfolding is_on_board
get_index c = if is_on_board c then checked_index (c.row *ℤ pos side +ℤ c.column) else none

abbrev pub step : Coord → Direction → Coord
step c left = record { row = c.row; column = c.column +ℤ negsuc 0 }
step c right = record { row = c.row; column = c.column +ℤ pos 1 }
step c up = record { row = c.row +ℤ negsuc 0; column = c.column }
step c down = record { row = c.row +ℤ pos 1; column = c.column }

abbrev pub step_back : Coord → Direction → Coord
step_back c d = step c (inverse d)
