-- ===== src/Ships/Placement/Separate.antt =====
-- Where `VerifyPositionOfShips` of ships/grid.cpp accepts, no two ships touch at a corner.
use libxayagame.Base.{
  ℕ, zero, suc, ◌+◌, ◌*◌, ◌%◌, ◌<◌, ◌≡◌, subst, ap, ◌∙◌, Bool, true, false, some, [], ◌∷◌, arith,
  inl, inr, Bool-cases, Option-cases,
}
use libxayagame.Base.Int.{ℤ, pos, negsuc}
use libxayagame.Ships.Coord.{Coord, left, right, up, down, side, cells, is_on_board, coord_at, step}
use libxayagame.Ships.Coord.Index.{at, is_on_board_iff, negative_row, negative_column}
use libxayagame.Ships.Grid.{Grid, get, available_ships}
use libxayagame.Ships.Placement.{has_ship, any_ship, verify_position_of_ships, verify_numbers}
use libxayagame.Ships.Placement.Returns.{Answers, has_ship-Answers, scan-Returns, Returns}
use libxayagame.Ships.Placement.Lines.{HasShip}
use libxayagame.Ships.Placement.Scanned.{IsChecked, IsHead, scan-IsChecked}
use libxayagame.Ships.Placement.Straight.{
  cell, IsVertical, IsHorizontal, Straight, free_right, free_down, vertical-IsFree,
  horizontal-IsFree, grow_down, grow_right,
}

-- The four cells at the corners of a cell.
pub IsSeparated : Grid → Coord → Type 0
IsSeparated g c =
    (has_ship g (step (step c up) left) ≡ some false)
    × (has_ship g (step (step c up) right) ≡ some false)
    × (has_ship g (step (step c down) left) ≡ some false)
    × (has_ship g (step (step c down) right) ≡ some false)

cell-index : (r q : ℕ) → r < side → q < side → coord_at (pos (r * side + q)) ≡ cell r q
unfolding coord_at
cell-index r q row column =
    ap (λ (k : ℕ). at (pos k) (pos ((r * side + q) % side))) (omega arith)
    ∙ ap (λ (k : ℕ). at (pos r) (pos k)) (omega arith)

ship-on_board : (g : Grid) (c : Coord) → HasShip g c → is_on_board c ≡ true
unfolding has_ship
ship-on_board g c ship = elim (Bool-cases (is_on_board c)) [
  | inl on ↦ on
  | inr off ↦ absurd (ground (arith, off, ship))
]

get-ship : (g : Grid) (c : Coord) → HasShip g c → get g c ≡ some true
unfolding has_ship
get-ship g c ship = ground (arith, ship, ship-on_board g c ship)

neither :
    (g : Grid) (c d : Coord)
    → has_ship g c ≡ some false
    → has_ship g d ≡ some false
    → any_ship g (c ∷ d ∷ []) ≡ some false
unfolding any_ship
neither g c d no_c no_d = ground (arith, no_c, no_d)

module _ (g : Grid)
    (checked : (j : ℕ)
      → j < cells
      → IsHead g (coord_at (pos j))
      → IsChecked g (coord_at (pos j))) where
  from_head :
      (r q : ℕ)
      → r < side
      → q < side
      → HasShip g (cell r q)
      → has_ship g (step (cell r q) up) ≡ some false
      → has_ship g (step (cell r q) left) ≡ some false
      → Straight g r q
  unfolding Straight IsVertical IsHorizontal IsHead IsChecked
  from_head r q row column ship no_above no_before =
      elim (subst (λ c. IsHead g c → IsChecked g c) (cell-index r q row column)
        (checked (r * side + q) (omega arith)) (get-ship g (cell r q) ship, first)) [
          | inl down_ ↦ inl (r, omega arith, (λ j lo hi. absurd (omega arith)), down_)
          | inr right_ ↦ inr (q, omega arith, (λ j lo hi. absurd (omega arith)), right_)
        ]
    where
      first : any_ship g (step (cell r q) up ∷ step (cell r q) left ∷ []) ≡ some false
      first = neither g (step (cell r q) up) (step (cell r q) left) no_above no_before

  straight :
      (fuel r q : ℕ) → r + q < fuel → r < side → q < side → HasShip g (cell r q) → Straight g r q
  unfolding Answers
  straight zero r q enough row column ship = absurd (omega arith)
  straight (suc fuel) r q enough row column ship = elim (has_ship-Answers g (step (cell r q) up)) [
    | inl above ↦
        grow_down g r q above ship λ k lt. straight fuel k q (omega arith) (omega arith) column
    | inr no_above ↦ elim (has_ship-Answers g (step (cell r q) left)) [
      | inl before ↦
          grow_right g r q before ship λ k lt. straight fuel r k (omega arith) row (omega arith)
      | inr no_before ↦ from_head r q row column ship no_above no_before
    ]
  ]

  cell-IsSeparated :
      (r q : ℕ) → r < side → q < side → HasShip g (cell r q) → IsSeparated g (cell r q)
  unfolding IsSeparated Straight
  cell-IsSeparated r q row column ship =
      elim (straight (suc (r + q)) r q (omega arith) row column ship) [
        | inl vertical ↦
            let (above, here, below) = vertical-IsFree g r q vertical ship in
            let (above_left, above_right) = free_right g (step (cell r q) up) above in
            let (below_left, below_right) = free_right g (step (cell r q) down) below in
            (above_left, above_right, below_left, below_right)
        | inr horizontal ↦
            let (before, here, after) = horizontal-IsFree g r q horizontal ship in
            let (above_left, below_left) = free_down g (step (cell r q) left) before in
            let (above_right, below_right) = free_down g (step (cell r q) right) after in
            (above_left, above_right, below_left, below_right)
      ]

  coord-IsSeparated : (r q : ℤ) → HasShip g (at r q) → IsSeparated g (at r q)
  coord-IsSeparated (pos r) (pos q) ship =
      let on = (is_on_board_iff r q).0 (ship-on_board g (cell r q) ship) in
      cell-IsSeparated r q on.0 on.1 ship
  coord-IsSeparated (pos r) (negsuc q) ship =
      absurd (cc (ship-on_board g (at (pos r) (negsuc q)) ship, negative_column r q))
  coord-IsSeparated (negsuc r) q ship =
      absurd (cc (ship-on_board g (at (negsuc r) q) ship, negative_row r q))

-- On every grid the test ends, without a failed check. Where it accepts, a cell with a ship has none
-- at its four corners: the ships are straight and do not touch diagonally.
pub verify_position_of_ships-IsSeparated :
    (g : Grid)
    → (b : Bool) × (verify_position_of_ships g ≡ some b)
      × (b ≡ true → (c : Coord) → has_ship g c ≡ some true → IsSeparated g c)
unfolding verify_position_of_ships Returns
verify_position_of_ships-IsSeparated g =
    let (result, e) = scan-Returns cells g 0 [] (omega arith) in
    elim (Option-cases result) [
      | inl invalid ↦ (false, ground (arith, e, invalid), λ good. absurd (cc (good)))
      | inr (found, valid) ↦ (
        verify_numbers available_ships found 0,
        ground (arith, e, valid),
        λ good c ship.
            coord-IsSeparated g
              (λ j.
                scan-IsChecked cells g 0 [] found (omega arith) (e ∙ ap some valid) j (omega arith))
              c.row c.column ship,
      )
    ]
