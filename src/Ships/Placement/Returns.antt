-- ===== src/Ships/Placement/Returns.antt =====
-- The test of a placement ends on every grid (ships/grid.cpp).
use libxayagame.Base.{
  ℕ, zero, suc, ◌+◌, ◌/◌, ◌%◌, ◌<◌, ◌≤◌, ◌≡◌, Bool, true, false, Option, none, some, List, [], ◌∷◌,
  arith, inl, inr, refl, ltb, subst, sym, ◌⊎◌, ◌∙◌, ap, Bool-cases, Option-cases,
}
use libxayagame.Base.Int.{ℤ, pos, ◌+ℤ◌}
use libxayagame.Ships.Coord.{
  Coord, Direction, left, right, up, down, side, cells, is_on_board, coord_at, step, step_back,
}
use libxayagame.Ships.Coord.Index.{at, index_at, is_on_board_iff}
use libxayagame.Base.Bits.{digit}
use libxayagame.Ships.Grid.{Grid, get}
use libxayagame.Ships.Grid.Digits.{get-digit}
use libxayagame.Ships.Placement.{
  has_ship, any_ship, beside, walk, check_tail, check_ship, scan, Found, one_more,
}

unfoldable pub Returns {ℓ} : {A : Type ℓ} → Option A → Type ℓ
Returns {A = A} o = (a : A) × (o ≡ some a)

unfoldable pub Answers : Option Bool → Type 0
Answers o = (o ≡ some true) ⊎ (o ≡ some false)

some-Answers : (b : Bool) → Answers (some b)
unfolding Answers
some-Answers true = inl refl
some-Answers false = inr refl

pub get-Answers : (g : Grid) (c : Coord) → is_on_board c ≡ true → Answers (get g c)
get-Answers g c on =
    let (i, e) = index_at c.row c.column on in
    subst Answers (sym (get-digit g c i e)) (some-Answers (ltb 0 (digit g.bits i)))

pub has_ship-off : (g : Grid) (c : Coord) → is_on_board c ≡ false → has_ship g c ≡ some false
unfolding has_ship
has_ship-off g c off = ground (arith, off)

pub has_ship-Answers : (g : Grid) (c : Coord) → Answers (has_ship g c)
unfolding has_ship Answers
has_ship-Answers g c = elim (Bool-cases (is_on_board c)) [
  | inr off ↦ inr (has_ship-off g c off)
  | inl on ↦ ground (arith, on, get-Answers g c on)
]

pub any_ship-Answers : (g : Grid) (cs : List Coord) → Answers (any_ship g cs)
unfolding any_ship Answers
any_ship-Answers g [] = inr refl
any_ship-Answers g (c ∷ cs) = ground (arith, has_ship-Answers g c, any_ship-Answers g cs)

check_tail-Returns :
    (g : Grid) (other : Direction) (walked : Option (Option (Coord × ℕ)))
    → Returns walked
    → Returns (check_tail g other walked)
unfolding Returns Answers
check_tail-Returns g other walked (none, e) = (none, ground (arith, e))
check_tail-Returns g other walked (some (c, size), e) = elim (any_ship-Answers g (beside c other)) [
  | inl near ↦ (none, ground (arith, e, near))
  | inr free ↦ (some size, ground (arith, e, free))
]

-- A line of coordinates that leaves the board within `side` steps.
module _ (g : Grid) (dir other : Direction) (place : ℕ → Coord)
    (off : (n : ℕ) → side ≤ n → is_on_board (place n) ≡ false)
    (next : (n : ℕ) → step (place n) dir ≡ place (suc n)) where
  walk-Returns :
      (fuel n size : ℕ) → side ≤ n + fuel → Returns (walk (suc fuel) g (place n) dir other size)
  unfolding walk Returns Answers
  walk-Returns zero n size far =
      (some (place n, size), ground (arith, has_ship-off g (place n) (off n (omega arith))))
  walk-Returns (suc fuel) n size far = elim (has_ship-Answers g (place n)) [
    | inr water ↦ (some (place n, size), ground (arith, water))
    | inl ship ↦ elim (any_ship-Answers g (beside (place n) other)) [
      | inl near ↦ (none, ground (arith, ship, near))
      | inr free ↦
          let (result, e) = walk-Returns fuel (suc n) (suc size) (omega arith) in
          (
            result,
            ground (arith, ship, free)
                ∙ ap (λ c. walk (suc fuel) g c dir other (suc size)) (next n)
                ∙ e,
          )
    ]
  ]

  check_ship-Returns :
      (n : ℕ) → has_ship g (place n) ≡ some true → Returns (check_ship g (place n) dir other)
  unfolding check_ship Returns Answers
  check_ship-Returns n ship =
      let head = step_back (place n) dir in
      elim (any_ship-Answers g (head ∷ step_back head other ∷ step head other ∷ [])) [
        | inl near ↦ (none, ground (arith, ship, near))
        | inr free ↦
            let (size, e) = check_tail-Returns g other _ (walk-Returns side n 0 (omega arith)) in
            (size, ground (arith, ship, free, e))
      ]

pub off_row : (column : ℤ) (n : ℕ) → side ≤ n → is_on_board (at (pos n) column) ≡ false
unfolding is_on_board
off_row column n far = ground arith

pub off_column : (row : ℤ) (n : ℕ) → side ≤ n → is_on_board (at row (pos n)) ≡ false
unfolding is_on_board
off_column row n far = ground arith

pub add_one : (n : ℕ) → pos n +ℤ pos 1 ≡ pos (suc n)
add_one n = ground arith

vertical-Returns :
    (g : Grid) (i : ℕ)
    → has_ship g (coord_at (pos i)) ≡ some true
    → Returns (check_ship g (coord_at (pos i)) down right)
unfolding coord_at
vertical-Returns g i =
    let column = pos (i % side) in
    check_ship-Returns g down right (λ n. at (pos n) column) (off_row column)
      (λ n. ap (λ row. at row column) (add_one n)) (i / side)

horizontal-Returns :
    (g : Grid) (i : ℕ)
    → has_ship g (coord_at (pos i)) ≡ some true
    → Returns (check_ship g (coord_at (pos i)) right down)
unfolding coord_at
horizontal-Returns g i =
    let row = pos (i / side) in
    check_ship-Returns g right down (λ n. at row (pos n)) (off_column row)
      (λ n. ap (λ column. at row column) (add_one n)) (i % side)

pub cell-on_board : (i : ℕ) → i < cells → is_on_board (coord_at (pos i)) ≡ true
unfolding coord_at
cell-on_board i lt = (is_on_board_iff (i / 8) (i % 8)).1 (omega arith, omega arith)

pub at_ship :
    (g : Grid) (c : Coord) → is_on_board c ≡ true → get g c ≡ some true → has_ship g c ≡ some true
unfolding has_ship
at_ship g c on ship = ground (arith, on, ship)

pub scan-Returns :
    (more : ℕ) (g : Grid) (i : ℕ) (found : Found) → more + i ≡ cells → Returns (scan more g i found)
unfolding scan Returns Answers
scan-Returns zero g i found full = (some found, refl)
scan-Returns (suc more) g i found full =
    let c = coord_at (pos i) in
    let on = cell-on_board i (omega arith) in
    let (rest, next) = scan-Returns more g (suc i) found (omega arith) in
    elim (get-Answers g c on) [
      | inr water ↦ (rest, ground (arith, water, next))
      | inl ship ↦ elim (any_ship-Answers g (step c up ∷ step c left ∷ [])) [
        | inl inside ↦ (rest, ground (arith, ship, inside, next))
        | inr first ↦ elim (has_ship-Answers g (step c down)) [
          | inl vertical ↦
              let (sized, e) = vertical-Returns g i (at_ship g c on ship) in
              elim (Option-cases sized) [
                | inl invalid ↦ (none, ground (arith, ship, first, vertical, e, invalid))
                | inr (size, valid) ↦
                    let (result, n) =
                      scan-Returns more g (suc i) (one_more size found) (omega arith) in
                    (result, ground (arith, ship, first, vertical, e, valid, n))
              ]
          | inr horizontal ↦
              let (sized, e) = horizontal-Returns g i (at_ship g c on ship) in
              elim (Option-cases sized) [
                | inl invalid ↦ (none, ground (arith, ship, first, horizontal, e, invalid))
                | inr (size, valid) ↦
                    let (result, n) =
                      scan-Returns more g (suc i) (one_more size found) (omega arith) in
                    (result, ground (arith, ship, first, horizontal, e, valid, n))
              ]
        ]
      ]
    ]
