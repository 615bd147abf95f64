-- ===== src/Ships/Placement/Lines.antt =====
-- What `CheckShip` of ships/grid.cpp finds out about the cells of a line.
use libxayagame.Base.{
  ℕ, zero, suc, ◌≤◌, ◌<◌, ◌≡◌, sym, subst, ap, ◌∙◌, true, false, none, some, List, [], ◌∷◌, ltb,
  arith, inl, inr, Bool-cases, Option-cases,
}
use libxayagame.Ships.Coord.{Coord, Direction, side, step, step_back}
use libxayagame.Ships.Grid.{Grid}
use libxayagame.Ships.Placement.{has_ship, any_ship, beside, walk, check_ship}
use libxayagame.Ships.Placement.Returns.{Answers, any_ship-Answers, has_ship-Answers}

abbrev pub HasShip : Grid → Coord → Type 0
HasShip g c = has_ship g c ≡ some true

-- No ship on either side.
abbrev pub IsFree : Grid → Direction → Coord → Type 0
IsFree g other c = any_ship g (beside c other) ≡ some false

any_ship-tail :
    (g : Grid) (c : Coord) (cs : List Coord)
    → any_ship g (c ∷ cs) ≡ some false
    → any_ship g cs ≡ some false
unfolding any_ship Answers
any_ship-tail g c cs free = ground (arith, has_ship-Answers g c, free)

-- What an accepted ship has passed.
check_ship-parts :
    (g : Grid) (c : Coord) (dir other : Direction) (size : ℕ)
    → check_ship g c dir other ≡ some (some size)
    → IsFree g other (step_back c dir)
      × ((end : Coord) × (total : ℕ) × (walk (suc side) g c dir other 0 ≡ some (some (end, total)))
          × IsFree g other end)
unfolding check_ship Answers
check_ship-parts g c dir other size checked = elim (has_ship-Answers g c) [
  | inr water ↦ absurd (ground (arith, checked, water))
  | inl ship ↦ elim (any_ship-Answers g (head ∷ step_back head other ∷ step head other ∷ [])) [
    | inl near ↦ absurd (ground (arith, checked, ship, near))
    | inr free ↦ elim (Option-cases (walk (suc side) g c dir other 0)) [
      | inl stuck ↦ absurd (ground (arith, checked, ship, free, stuck))
      | inr (none, e) ↦ absurd (ground (arith, checked, ship, free, e))
      | inr (some (end, total), e) ↦ elim (any_ship-Answers g (beside end other)) [
        | inl near ↦ absurd (ground (arith, checked, ship, free, e, near))
        | inr free_end ↦ (any_ship-tail g head (beside head other) free, (end, total, e, free_end))
      ]
    ]
  ]
]
  where
    head : Coord
    head = step_back c dir

module _ (g : Grid) (dir other : Direction) (place : ℕ → Coord)
    (next : (n : ℕ) → step (place n) dir ≡ place (suc n))
    (back : (n : ℕ) → step_back (place (suc n)) dir ≡ place n) where
  -- The cells from `n` to before `m`.
  abbrev pub AllShips : ℕ → ℕ → Type 0
  AllShips n m = (j : ℕ) → n ≤ j → j < m → HasShip g (place j)

  walk-IsFree :
      (fuel n size m : ℕ) (end : Coord) (total : ℕ)
      → walk fuel g (place n) dir other size ≡ some (some (end, total))
      → IsFree g other end
      → n ≤ m
      → AllShips n m
      → IsFree g other (place m)
  unfolding walk Answers
  walk-IsFree zero n size m end total walked free_end le ships = absurd (cc (walked))
  walk-IsFree (suc fuel) n size m end total walked free_end le ships = elim (Bool-cases (ltb n m)) [
    | inr here ↦ subst (λ k. IsFree g other (place k)) (same here) at_n
    | inl lt ↦
        walk-IsFree fuel (suc n) (suc size) m end total
          (onward (ships n (omega arith) (ground arith))) free_end (ground arith)
          λ j after. ships j (omega arith)
  ]
    where
      at_end : has_ship g (place n) ≡ some false → end ≡ place n
      at_end water = ground (arith, water, walked)

      same : ltb n m ≡ false → n ≡ m
      same here = ground arith

      at_n : IsFree g other (place n)
      at_n = elim (has_ship-Answers g (place n)) [
        | inr water ↦ subst (IsFree g other) (at_end water) free_end
        | inl ship ↦ ground (arith, ship, any_ship-Answers g (beside (place n) other), walked)
      ]

      onward :
          HasShip g (place n)
          → walk fuel g (place (suc n)) dir other (suc size) ≡ some (some (end, total))
      onward ship =
          ap (λ c. walk fuel g c dir other (suc size)) (sym (next n))
          ∙ ground (arith, ship, at_n, walked)

  -- The lines beside the ship are free, from before its head to after its tail.
  pub check_ship-IsFree :
      (n size : ℕ)
      → check_ship g (place n) dir other ≡ some (some size)
      → IsFree g other (step_back (place n) dir)
        × ((m : ℕ) → n ≤ m → AllShips n m → IsFree g other (place m))
  check_ship-IsFree n size checked =
      let (free, found) = check_ship-parts g (place n) dir other size checked in
      let (end, total, walked, free_end) = found in
      (free, λ m. walk-IsFree (suc side) n 0 m end total walked free_end)

  before-IsFree :
      (n m size : ℕ)
      → check_ship g (place n) dir other ≡ some (some size)
      → n ≤ m
      → AllShips n m
      → IsFree g other (step_back (place m) dir)
  before-IsFree n zero size checked le ships =
      subst (λ k. IsFree g other (step_back (place k) dir)) (omega arith)
        (check_ship-IsFree n size checked).0
  before-IsFree n (suc m) size checked le ships = elim (Bool-cases (ltb n (suc m))) [
    | inr at_head ↦
        subst (λ k. IsFree g other (step_back (place k) dir)) (ground (arith, at_head))
          (check_ship-IsFree n size checked).0
    | inl after ↦ subst (IsFree g other) (sym (back m)) (
        (check_ship-IsFree n size checked).1 m (ground (arith, after))
          λ j lo hi. ships j lo (omega arith))
  ]

  -- The same of the cells before, at and after a cell of the ship.
  pub line-IsFree :
      (n m size : ℕ)
      → check_ship g (place n) dir other ≡ some (some size)
      → n ≤ m
      → AllShips n m
      → HasShip g (place m)
      → IsFree g other (step_back (place m) dir)
        × IsFree g other (place m)
        × IsFree g other (step (place m) dir)
  line-IsFree n m size checked le ships ship =
      let line = (check_ship-IsFree n size checked).1 in
      (
        before-IsFree n m size checked le ships,
        line m le ships,
        subst (IsFree g other) (sym (next m)) (line (suc m) (omega arith) through),
      )
    where
      through : AllShips n (suc m)
      through j lo hi = elim (Bool-cases (ltb j m)) [
        | inl before ↦ ships j lo (ground (arith, before))
        | inr at_m ↦ subst (λ k. HasShip g (place k)) (ground (arith, at_m)) ship
      ]
