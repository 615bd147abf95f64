-- ===== src/Ships/Placement/Scanned.antt =====
-- What the loop of `VerifyPositionOfShips` (ships/grid.cpp) has checked where it accepts.
use libxayagame.Base.{
  ℕ, zero, suc, ◌+◌, ◌≤◌, ◌<◌, ◌≡◌, subst, true, false, none, some, [], ◌∷◌, ltb, arith, inl, inr,
  ◌⊎◌, Bool-cases, Option-cases,
}
use libxayagame.Base.Int.{pos}
use libxayagame.Ships.Coord.{Coord, Direction, left, right, up, down, cells, coord_at, step}
use libxayagame.Ships.Grid.{Grid, get}
use libxayagame.Ships.Placement.{any_ship, check_ship, scan, Found, one_more}
use libxayagame.Ships.Placement.Returns.{
  Answers, any_ship-Answers, has_ship-Answers, get-Answers, cell-on_board,
}

unfoldable pub IsAccepted : Grid → Coord → Direction → Direction → Type 0
IsAccepted g c dir other = (size : ℕ) × (check_ship g c dir other ≡ some (some size))

unfoldable pub IsChecked : Grid → Coord → Type 0
IsChecked g c = IsAccepted g c down right ⊎ IsAccepted g c right down

-- The cell is a ship's first one: the loop does not skip it.
unfoldable pub IsHead : Grid → Coord → Type 0
IsHead g c = (get g c ≡ some true) × (any_ship g (step c up ∷ step c left ∷ []) ≡ some false)

IsScanned : ℕ → Grid → ℕ → Found → Type 0
IsScanned more g i result = (found : Found) × (scan more g i found ≡ some (some result))

scan-step :
    (more : ℕ) (g : Grid) (i : ℕ) (found result : Found)
    → i < cells
    → scan (suc more) g i found ≡ some (some result)
    → IsScanned more g (suc i) result
      × (IsHead g (coord_at (pos i)) → IsChecked g (coord_at (pos i)))
unfolding scan Answers IsHead IsScanned IsChecked IsAccepted
scan-step more g i found result lt scanned =
    let c = coord_at (pos i) in
    elim (get-Answers g c (cell-on_board i lt)) [
      | inr water ↦
          ((found, ground (arith, scanned, water)), λ (ship, _). absurd (cc (water, ship)))
      | inl ship ↦ elim (any_ship-Answers g (step c up ∷ step c left ∷ [])) [
        | inl inside ↦ (
          (found, ground (arith, scanned, ship, inside)),
          λ (_, first). absurd (cc (inside, first)),
        )
        | inr first ↦ elim (has_ship-Answers g (step c down)) [
          | inl vertical ↦ elim (Option-cases (check_ship g c down right)) [
            | inl stuck ↦ absurd (ground (arith, scanned, ship, first, vertical, stuck))
            | inr (none, e) ↦ absurd (ground (arith, scanned, ship, first, vertical, e))
            | inr (some size, e) ↦ (
              (one_more size found, ground (arith, scanned, ship, first, vertical, e)),
              λ _. inl (size, e),
            )
          ]
          | inr horizontal ↦ elim (Option-cases (check_ship g c right down)) [
            | inl stuck ↦ absurd (ground (arith, scanned, ship, first, horizontal, stuck))
            | inr (none, e) ↦ absurd (ground (arith, scanned, ship, first, horizontal, e))
            | inr (some size, e) ↦ (
              (one_more size found, ground (arith, scanned, ship, first, horizontal, e)),
              λ _. inr (size, e),
            )
          ]
        ]
      ]
    ]

-- The loop has checked each head of a ship that it came to.
pub scan-IsChecked :
    (more : ℕ) (g : Grid) (i : ℕ) (found result : Found)
    → more + i ≡ cells
    → scan more g i found ≡ some (some result)
    → (j : ℕ) → i ≤ j
    → j < cells
    → IsHead g (coord_at (pos j))
    → IsChecked g (coord_at (pos j))
unfolding IsScanned
scan-IsChecked zero g i found result full scanned j le lt head = absurd (omega arith)
scan-IsChecked (suc more) g i found result full scanned j le lt head =
    let (rest, here) = scan-step more g i found result (omega arith) scanned in
    let later = scan-IsChecked more g (suc i) rest.0 result (omega arith) rest.1 j in
    elim (Bool-cases (ltb i j)) [
      | inl after ↦ later (ground (arith, after)) lt head
      | inr at_j ↦
          subst (λ k. IsHead g (coord_at (pos k)) → IsChecked g (coord_at (pos k)))
            (ground (arith, at_j)) here head
    ]
