-- ===== src/Ships/Grid/Bounds.antt =====
-- What `FromString` of ships/grid.cpp can return on any text.
use libxayagame.Base.{
  ℕ, suc, ◌+◌, ◌^◌, ◌<◌, ◌≤◌, ◌≡◌, subst, sym, refl, Bool, true, false, Option, some, [], ◌∷◌, ltb,
  ◌||◌, arith, inl, inr, Bool-cases, if◌then◌else◌,
}
use libxayagame.Base.Eq.{◌==◌, number_equality}
use libxayagame.Ships.Coord.{cells}
use libxayagame.Ships.Grid.{Grid, Text, word, read_cells, from_string}
use libxayagame.Ships.Grid.Digits.{set-next}
use native.Mathlib.Nat.{pow-succ', pow-le-pow_right}

-- The characters that stand for a cell or for nothing.
abbrev is_blank : ℕ → Bool
is_blank c = (c == b' ') || (c == b'\n')

-- The characters that are not blank.
pub cells_in : Text → ℕ
cells_in [] = 0
cells_in (c ∷ str) = if is_blank c then cells_in str else suc (cells_in str)

IsRead : Text → ℕ → Option (Bool × Grid) → Type 0
IsRead str next result =
    (ok : Bool) × (g : Grid) × (result ≡ some (ok, g))
    × (g.bits < word)
    × (ok ≡ true → next + cells_in str ≡ cells)

-- A text that goes on as `result` does.
module _ (c : ℕ) (str : Text) (next : ℕ) (result : Option (Bool × Grid)) where
  blank-IsRead : is_blank c ≡ true → IsRead str next result → IsRead (c ∷ str) next result
  unfolding IsRead cells_in
  blank-IsRead blank (ok, g, e, fits, full) =
      (ok, g, e, fits, λ good. ground (arith, blank, full good))

  cell-IsRead : is_blank c ≡ false → IsRead str (suc next) result → IsRead (c ∷ str) next result
  unfolding IsRead cells_in
  cell-IsRead filled (ok, g, e, fits, full) =
      (ok, g, e, fits, λ good. ground (arith, filled, full good))

wide : (a next : ℕ) → next ≤ cells → a < 2 ^ next → a < word
wide a next le fits = omega (arith, le_two_pow)
  where
    le_two_pow : 2 ^ next ≤ 2 ^ cells
    le_two_pow = pow-le-pow_right (omega arith) le

rejected :
    (str : Text) (next a : ℕ) → a < word → IsRead str next (some (false, record { bits = a }))
unfolding IsRead
rejected str next a fits = (false, record { bits = a }, refl, fits, λ good. absurd (cc (good)))

accepted : (a : ℕ) → a < word → IsRead [] cells (some (true, record { bits = a }))
unfolding IsRead cells_in
accepted a fits = (true, record { bits = a }, refl, fits, λ good. omega arith)

result :
    (str : Text) (next : ℕ) {r s : Option (Bool × Grid)}
    → r ≡ s
    → IsRead str next s
    → IsRead str next r
result str next e read = subst (IsRead str next) (sym e) read

read_cells-IsRead :
    (str : Text) (next a : ℕ)
    → next ≤ cells
    → a < 2 ^ next
    → IsRead str next (read_cells str next (record { bits = a }))
unfolding read_cells cells_in
read_cells-IsRead [] next a le fits = elim (Bool-cases (ltb next cells)) [
  | inl lt ↦ result [] next (ground (arith, lt)) (rejected [] next a (wide a next le fits))
  | inr at_end ↦ result [] next (ground (arith, at_end)) (
      subst (λ n. IsRead [] n (some (true, record { bits = a }))) (ground (arith, at_end))
        (accepted a (wide a next le fits)))
]
read_cells-IsRead (c ∷ str) next a le fits = elim (Bool-cases (is_blank c)) [
  | inl blank ↦
      result (c ∷ str) next (ground (arith, blank))
        (blank-IsRead c str next _ blank (read_cells-IsRead str next a le fits))
  | inr filled ↦ elim (Bool-cases (ltb next cells)) [
    | inr full ↦
        result (c ∷ str) next (ground (arith, filled, full))
          (rejected (c ∷ str) next a (wide a next le fits))
    | inl lt ↦ elim (Bool-cases (c == b'.')) [
      | inl dot ↦ result (c ∷ str) next (ground (arith, filled, lt, dot)) (
          cell-IsRead c str next _ filled
            (read_cells-IsRead str (suc next) a (ground arith) (omega (arith, pow-succ' 2 next))))
      | inr no_dot ↦ elim (Bool-cases (c == b'x')) [
        | inl cross ↦
            result (c ∷ str) next
              (ground (arith, filled, lt, no_dot, cross, set-next a next (ground arith) fits))
              (cell-IsRead c str next _ filled (
                read_cells-IsRead str (suc next) (a + 2 ^ next) (ground arith)
                  (omega (arith, pow-succ' 2 next))))
        | inr other ↦
            result (c ∷ str) next (ground (arith, filled, lt, no_dot, other))
              (rejected (c ∷ str) next a (wide a next le fits))
      ]
    ]
  ]
]

-- Whatever the text, reading it never fails a check and leaves a grid of 64 bits; it returns true only
-- if the characters other than spaces and newlines are exactly as many as the board has cells.
pub from_string-InBounds :
    (str : Text)
    → (ok : Bool) × (g : Grid) × (from_string str ≡ some (ok, g))
      × (g.bits < word)
      × (ok ≡ true → cells_in str ≡ cells)
unfolding from_string IsRead
from_string-InBounds str =
    let (ok, g, e, fits, full) = read_cells-IsRead str 0 0 (omega arith) (omega arith) in
    (ok, g, e, fits, λ good. omega (arith, full good))
