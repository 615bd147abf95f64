-- ===== src/Ships/Tests.antt =====
-- The board on concrete grids (ships/grid_tests.cpp).
use libxayagame.Base.{◌<◌, ◌≡◌, refl, Bool, true, false, some, [], ◌∷◌, arith}
use libxayagame.Base.Map.{lookup, insert}
use libxayagame.Ships.Coord.{Coord, cells, get_index, coord_at}
use libxayagame.Ships.Grid.{
  Grid, Text, word, get, to_string, from_string, count_ones, blob, total_ship_cells,
  verify_position_for_answers,
}
use libxayagame.Ships.Grid.Text.{from_string-to_string}
use libxayagame.Ships.Grid.Answers.{IsVerdict, verify_position_for_answers-IsVerdict}
use libxayagame.Ships.Grid.Bounds.{cells_in, from_string-InBounds}
use libxayagame.Ships.Grid.Counts.{cells_set, count_ones-cells_set}
use libxayagame.Ships.Placement.{
  has_ship, scan, check_ship, any_ship, walk, verify_numbers, verify_position_of_ships,
}
use libxayagame.Ships.Placement.Separate.{IsSeparated, verify_position_of_ships-IsSeparated}

-- The first valid position of the tests, and one that has two ships touch.
abbrev valid : Grid
valid = record { bits = 0xc505_0500_000f_a0a3 }

abbrev touching : Grid
touching = record { bits = 0xc505_05f0_0004_8483 }

abbrev short : Text
short = b'.' ∷ b'x' ∷ b' ' ∷ b'x' ∷ b'\n' ∷ []

valid_accepted : verify_position_of_ships valid ≡ some true
unfolding verify_position_of_ships scan check_ship any_ship walk verify_numbers get get_index
    coord_at has_ship lookup insert
valid_accepted = refl

touching_rejected : verify_position_of_ships touching ≡ some false
unfolding verify_position_of_ships scan check_ship any_ship walk verify_numbers get get_index
    coord_at has_ship
touching_rejected = refl

-- The ships cover as many cells as a valid position has.
valid_count : count_ones valid ≡ some total_ship_cells
unfolding count_ones
valid_count = refl

valid_blob : blob valid ≡ some (0xa3 ∷ 0xa0 ∷ 0x0f ∷ 0 ∷ 0 ∷ 0x05 ∷ 0x05 ∷ 0xc5 ∷ [])
unfolding blob
valid_blob = refl

-- Too few cells: the two that were read stay set.
short_rejected : from_string short ≡ some (false, record { bits = 0b110 })
unfolding from_string get_index coord_at
short_rejected = refl

from_string-to_string_example :
    (t : Text) × (to_string valid ≡ some t) × (from_string t ≡ some (true, valid))
from_string-to_string_example = from_string-to_string valid (omega arith)

from_string-InBounds_example :
    (ok : Bool) × (g : Grid) × (from_string short ≡ some (ok, g))
    × (g.bits < word)
    × (ok ≡ true → cells_in short ≡ cells)
from_string-InBounds_example = from_string-InBounds short

verify_position_for_answers-IsVerdict_example :
    IsVerdict valid touching
      (record { bits = 0x83 })
      (verify_position_for_answers valid touching (record { bits = 0x83 }))
verify_position_for_answers-IsVerdict_example =
    verify_position_for_answers-IsVerdict valid touching (record { bits = 0x83 }) (omega arith)
      (omega arith)

count_ones-cells_set_example : count_ones valid ≡ some (cells_set valid cells)
count_ones-cells_set_example = count_ones-cells_set valid (omega arith)

verify_position_of_ships-IsSeparated_example :
    (b : Bool) × (verify_position_of_ships valid ≡ some b)
    × (b ≡ true → (c : Coord) → has_ship valid c ≡ some true → IsSeparated valid c)
verify_position_of_ships-IsSeparated_example = verify_position_of_ships-IsSeparated valid
