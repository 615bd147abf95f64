-- ===== src/Ships/Placement/Straight.antt =====
-- A cell of an accepted ship is on a straight line with its head (ships/grid.cpp).
use libxayagame.Base.{
  ℕ, zero, suc, ◌≤◌, ◌<◌, ◌≡◌, sym, subst, ap, false, some, ltb, arith, inl, inr, ◌⊎◌, Bool-cases,
}
use libxayagame.Base.Int.{pos, negsuc, ◌+ℤ◌}
use libxayagame.Ships.Coord.{Coord, left, right, up, down, step}
use libxayagame.Ships.Coord.Index.{at, negative_row, negative_column}
use libxayagame.Ships.Grid.{Grid}
use libxayagame.Ships.Placement.{has_ship, any_ship}
use libxayagame.Ships.Placement.Returns.{Answers, has_ship-Answers, has_ship-off, add_one}
use libxayagame.Ships.Placement.Lines.{HasShip, IsFree, line-IsFree}
use libxayagame.Ships.Placement.Scanned.{IsAccepted}

abbrev pub cell : ℕ → ℕ → Coord
cell r q = at (pos r) (pos q)

take_one : (n : ℕ) → pos (suc n) +ℤ negsuc 0 ≡ pos n
take_one n = ground arith

module _ (g : Grid) where
  unfoldable pub IsVertical : ℕ → ℕ → Type 0
  IsVertical r q =
      (n : ℕ) × (n ≤ r)
      × ((j : ℕ) → n ≤ j → j < r → HasShip g (cell j q))
      × IsAccepted g (cell n q) down right

  unfoldable pub IsHorizontal : ℕ → ℕ → Type 0
  IsHorizontal r q =
      (n : ℕ) × (n ≤ q)
      × ((j : ℕ) → n ≤ j → j < q → HasShip g (cell r j))
      × IsAccepted g (cell r n) right down

  pub free_right :
      (c : Coord)
      → IsFree g right c
      → (has_ship g (step c left) ≡ some false) × (has_ship g (step c right) ≡ some false)
  unfolding any_ship Answers
  free_right c free =
      ground (arith, has_ship-Answers g (step c left), has_ship-Answers g (step c right), free)

  pub free_down :
      (c : Coord)
      → IsFree g down c
      → (has_ship g (step c up) ≡ some false) × (has_ship g (step c down) ≡ some false)
  unfolding any_ship Answers
  free_down c free =
      ground (arith, has_ship-Answers g (step c up), has_ship-Answers g (step c down), free)

  -- The cells above, at and below a cell of a vertical ship have no ship beside them.
  pub vertical-IsFree :
      (r q : ℕ)
      → IsVertical r q
      → HasShip g (cell r q)
      → IsFree g right (step (cell r q) up)
        × IsFree g right (cell r q)
        × IsFree g right (step (cell r q) down)
  unfolding IsVertical IsAccepted
  vertical-IsFree r q (n, le, ships, accepted) ship =
      line-IsFree g down right (λ k. cell k q) (λ k. ap (λ row. at row (pos q)) (add_one k))
        (λ k. ap (λ row. at row (pos q)) (take_one k)) n r accepted.0 accepted.1 le ships ship

  pub horizontal-IsFree :
      (r q : ℕ)
      → IsHorizontal r q
      → HasShip g (cell r q)
      → IsFree g down (step (cell r q) left)
        × IsFree g down (cell r q)
        × IsFree g down (step (cell r q) right)
  unfolding IsHorizontal IsAccepted
  horizontal-IsFree r q (n, le, ships, accepted) ship =
      line-IsFree g right down (λ k. cell r k) (λ k. ap (λ column. at (pos r) column) (add_one k))
        (λ k. ap (λ column. at (pos r) column) (take_one k)) n q accepted.0 accepted.1 le ships ship

  unfoldable pub Straight : ℕ → ℕ → Type 0
  Straight r q = IsVertical r q ⊎ IsHorizontal r q

  -- A ship above goes on downwards.
  pub grow_down :
      (r q : ℕ)
      → HasShip g (step (cell r q) up)
      → HasShip g (cell r q)
      → ((k : ℕ) → k < r → HasShip g (cell k q) → Straight k q)
      → Straight r q
  unfolding Straight IsVertical
  grow_down zero q above ship smaller =
      absurd (cc (above, has_ship-off g (step (cell zero q) up) (negative_row 0 (pos q))))
  grow_down (suc r) q above ship smaller = elim (smaller r (omega arith) here) [
    | inl (n, le, ships, accepted) ↦ inl (n, omega arith, through n ships, accepted)
    | inr horizontal ↦ absurd (cc (below horizontal, ship_below))
  ]
    where
      here : HasShip g (cell r q)
      here = subst (λ row. HasShip g (at row (pos q))) (take_one r) above

      ship_below : HasShip g (step (cell r q) down)
      ship_below = subst (λ row. HasShip g (at row (pos q))) (sym (add_one r)) ship

      below : IsHorizontal r q → has_ship g (step (cell r q) down) ≡ some false
      below horizontal = (free_down (cell r q) (horizontal-IsFree r q horizontal here).1).1

      through :
          (n : ℕ)
          → ((j : ℕ) → n ≤ j → j < r → HasShip g (cell j q))
          → (j : ℕ) → n ≤ j
          → j < suc r
          → HasShip g (cell j q)
      through n ships j lo hi = elim (Bool-cases (ltb j r)) [
        | inl before ↦ ships j lo (ground (arith, before))
        | inr at_r ↦ subst (λ k. HasShip g (cell k q)) (ground (arith, at_r)) here
      ]

  -- A ship to the left goes on to the right.
  pub grow_right :
      (r q : ℕ)
      → HasShip g (step (cell r q) left)
      → HasShip g (cell r q)
      → ((k : ℕ) → k < q → HasShip g (cell r k) → Straight r k)
      → Straight r q
  unfolding Straight IsHorizontal
  grow_right r zero before ship smaller =
      absurd (cc (before, has_ship-off g (step (cell r zero) left) (negative_column r 0)))
  grow_right r (suc q) before ship smaller = elim (smaller q (omega arith) here) [
    | inl vertical ↦ absurd (cc (beside_it vertical, ship_after))
    | inr (n, le, ships, accepted) ↦ inr (n, omega arith, through n ships, accepted)
  ]
    where
      here : HasShip g (cell r q)
      here = subst (λ column. HasShip g (at (pos r) column)) (take_one q) before

      ship_after : HasShip g (step (cell r q) right)
      ship_after = subst (λ column. HasShip g (at (pos r) column)) (sym (add_one q)) ship

      beside_it : IsVertical r q → has_ship g (step (cell r q) right) ≡ some false
      beside_it vertical = (free_right (cell r q) (vertical-IsFree r q vertical here).1).1

      through :
          (n : ℕ)
          → ((j : ℕ) → n ≤ j → j < q → HasShip g (cell r j))
          → (j : ℕ) → n ≤ j
          → j < suc q
          → HasShip g (cell r j)
      through n ships j lo hi = elim (Bool-cases (ltb j q)) [
        | inl earlier ↦ ships j lo (ground (arith, earlier))
        | inr at_q ↦ subst (λ k. HasShip g (cell r k)) (ground (arith, at_q)) here
      ]
