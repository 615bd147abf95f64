-- ===== src/Ships/Placement.antt =====
-- The test of a placement of ships (`VerifyPositionOfShips` of ships/grid.cpp). A failed `CHECK` is
-- `none`; where a loop is on fuel, so is running out of it.
pub mod Returns
pub mod Lines
pub mod Scanned
pub mod Straight
pub mod Separate
use libxayagame.Base.{
  ℕ, zero, suc, ◌+◌, Bool, true, false, Option, none, some, List, [], ◌∷◌, length, if◌then◌else◌,
}
use libxayagame.Base.Eq.{◌==◌, number_equality}
use libxayagame.Base.Int.{ℤ, pos}
use libxayagame.Base.Map.{lookup, insert}
use libxayagame.Ships.Coord.{
  Coord, Direction, left, right, up, down, side, cells, is_on_board, coord_at, step, step_back,
}
use libxayagame.Ships.Grid.{Grid, get, available_ships}

unfoldable pub has_ship : Grid → Coord → Option Bool
has_ship g c = if is_on_board c then get g c else some false

-- A chain of `||`, which ends at the first ship.
unfoldable pub any_ship : Grid → List Coord → Option Bool
any_ship g [] = some false
any_ship g (c ∷ cs) = elim (has_ship g c) [
  | none ↦ none
  | some true ↦ some true
  | some false ↦ any_ship g cs
]

abbrev pub beside : Coord → Direction → List Coord
beside c other = step_back c other ∷ step c other ∷ []

-- The loop along the ship. `some none` is the early return of false, otherwise the result has the
-- coordinate after the ship and its size.
unfoldable pub walk : ℕ → Grid → Coord → Direction → Direction → ℕ → Option (Option (Coord × ℕ))
walk zero g c dir other size = none
walk (suc fuel) g c dir other size = elim (has_ship g c) [
  | none ↦ none
  | some false ↦ some (some (c, size))
  | some true ↦ elim (any_ship g (beside c other)) [
    | none ↦ none
    | some true ↦ some none
    | some false ↦ walk fuel g (step c dir) dir other (suc size)
  ]
]

-- The last check of `CheckShip`, at the coordinate after the ship.
abbrev pub check_tail : Grid → Direction → Option (Option (Coord × ℕ)) → Option (Option ℕ)
check_tail g other none = none
check_tail g other (some none) = some none
check_tail g other (some (some (c, size))) = elim (any_ship g (beside c other)) [
  | none ↦ none
  | some true ↦ some none
  | some false ↦ some (some size)
]

-- `some none` is a placement that is not valid, otherwise the result has the ship's size.
unfoldable pub check_ship : Grid → Coord → Direction → Direction → Option (Option ℕ)
check_ship g c dir other =
    let head = step_back c dir in
    elim (has_ship g c) [
      | some true ↦ elim (any_ship g (head ∷ step_back head other ∷ step head other ∷ [])) [
        | none ↦ none
        | some true ↦ some none
        | some false ↦ check_tail g other (walk (suc side) g c dir other 0)
      ]
      | _ ↦ none
    ]

abbrev pub Found : Type 0
Found = List (ℕ × ℕ)

-- `++foundShips[size]`
abbrev pub one_more : ℕ → Found → Found
one_more size found = elim (lookup size found) [
  | none ↦ insert size 1 found
  | some number ↦ insert size (suc number) found
]

-- The loop over the cells: `more` of them are to come, from `i`.
unfoldable pub scan : ℕ → Grid → ℕ → Found → Option (Option Found)
scan zero g i found = some (some found)
scan (suc more) g i found =
    let c = coord_at (pos i) in
    let next = scan more g (suc i) found in
    elim (get g c) [
      | none ↦ none
      | some false ↦ next
      | some true ↦ elim (any_ship g (step c up ∷ step c left ∷ [])) [
        | none ↦ none
        | some true ↦ next
        | some false ↦ elim (has_ship g (step c down)) [
          | none ↦ none
          | some vertical ↦
              elim (if vertical then check_ship g c down right else check_ship g c right down) [
                | none ↦ none
                | some none ↦ some none
                | some (some size) ↦ scan more g (suc i) (one_more size found)
              ]
        ]
      ]
    ]

-- The loop over the types of ships, which counts them.
unfoldable pub verify_numbers : List (ℕ × ℕ) → Found → ℕ → Bool
verify_numbers [] found types = types == length found
verify_numbers ((size, number) ∷ rest) found types = elim (lookup size found) [
  | none ↦ false
  | some n ↦ if n == number then verify_numbers rest found (suc types) else false
]

unfoldable pub verify_position_of_ships : Grid → Option Bool
verify_position_of_ships g = elim (scan cells g 0 []) [
  | none ↦ none
  | some none ↦ some false
  | some (some found) ↦ some (verify_numbers available_ships found 0)
]
