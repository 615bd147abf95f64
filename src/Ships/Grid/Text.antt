-- ===== src/Ships/Grid/Text.antt =====
-- A grid written and read back (`ToString` and `FromString` of ships/grid.cpp).
use libxayagame.Base.{
  ℕ, zero, suc, ◌+◌, ◌*◌, ◌%◌, ◌^◌, ◌<◌, ◌≤◌, ◌≡◌, ap, ◌∙◌, refl, true, some, [], ◌∷◌, ◌++◌, ltb,
  arith, inl, inr, Bool-cases, if◌then◌else◌,
}
use libxayagame.Base.Bits.{digit, mod-two-pow-suc}
use libxayagame.Base.Int.{pos}
use libxayagame.Ships.Coord.{side, cells}
use libxayagame.Ships.Coord.Index.{get_index-on}
use libxayagame.Ships.Grid.{
  Grid, Text, word, row_to_string, rows_to_string, to_string, read_cells, from_string,
}
use libxayagame.Ships.Grid.Digits.{first_cells, get-digit, set-next}
use native.Mathlib.Nat.{mod-lt, mod-eq_of_lt, one-le-pow}

abbrev cell_text : ℕ → ℕ → ℕ
cell_text b i = if ltb 0 (digit b i) then b'x' else b'.'

-- The text as a function of the digits, `i` being the index of the next cell.
row_text : ℕ → ℕ → ℕ → Text
row_text zero b i = b'\n' ∷ []
row_text (suc left) b i = cell_text b i ∷ row_text left b (suc i)

rows_text : ℕ → ℕ → ℕ → Text
rows_text zero b r = []
rows_text (suc left) b r = row_text side b (r * side + 0) ++ rows_text left b (suc r)

row_to_string_lem :
    (left : ℕ) (g : Grid) (r c : ℕ)
    → r < side
    → left + c ≡ side
    → row_to_string left g r c ≡ some (row_text left g.bits (r * side + c))
unfolding row_to_string row_text
row_to_string_lem zero g r c row full = refl
row_to_string_lem (suc left) g r c row full = ground (
  arith,
  get-digit g (record { row = pos r; column = pos c }) (r * side + c)
      (get_index-on r c row (omega arith)),
  row_to_string_lem left g r (suc c) row (omega arith),
  ap (row_text left g.bits) next,
)
  where
    next : r * side + suc c ≡ suc (r * side + c)
    next = omega arith

rows_to_string_lem :
    (left : ℕ) (g : Grid) (r : ℕ)
    → left + r ≡ side
    → rows_to_string left g r ≡ some (rows_text left g.bits r)
unfolding rows_to_string rows_text
rows_to_string_lem zero g r full = refl
rows_to_string_lem (suc left) g r full = ground (
  arith,
  row_to_string_lem side g r 0 (omega arith) refl,
  rows_to_string_lem left g (suc r) (omega arith),
)

-- The next cell is read.
read_cells-cell :
    (b i : ℕ) (rest : Text)
    → i < cells
    → read_cells (cell_text b i ∷ rest) i (first_cells b i)
      ≡ read_cells rest (suc i) (first_cells b (suc i))
unfolding read_cells
read_cells-cell b i rest lt = elim (Bool-cases (ltb 0 (digit b i))) [
  | inl is_set ↦
      ground
        (arith, is_set, set-next (b % 2 ^ i) i lt (mod-lt b (one-le-pow i 2 (omega arith))), more)
  | inr is_unset ↦ ground (arith, is_unset, more)
]
  where
    more : b % 2 ^ suc i ≡ b % 2 ^ i + digit b i * 2 ^ i
    more = mod-two-pow-suc i b

read_cells-row :
    (left b i n : ℕ) (rest : Text)
    → left + i ≡ n
    → n ≤ cells
    → read_cells (row_text left b i ++ rest) i (first_cells b i)
      ≡ read_cells rest n (first_cells b n)
unfolding row_text read_cells
read_cells-row zero b i n rest at_end le =
    ap (λ k. read_cells rest k (first_cells b k)) (omega (arith, at_end))
read_cells-row (suc left) b i n rest at_end le =
    read_cells-cell b i (row_text left b (suc i) ++ rest) (omega arith)
    ∙ read_cells-row left b (suc i) n rest (omega arith) le

read_cells-rows :
    (left b r i : ℕ)
    → left + r ≡ side
    → r * side + 0 ≡ i
    → read_cells (rows_text left b r) i (first_cells b i) ≡ some (true, first_cells b cells)
unfolding rows_text read_cells
read_cells-rows zero b r i full is_index = ground (arith, ap (first_cells b) last)
  where
    last : i ≡ cells
    last = omega arith
read_cells-rows (suc left) b r i full is_index =
    ap (λ k. read_cells (row_text side b k ++ rows_text left b (suc r)) i (first_cells b i))
      is_index
    ∙ read_cells-row side b i (side + i) (rows_text left b (suc r)) refl (omega arith)
    ∙ read_cells-rows left b (suc r) (side + i) (omega arith) (omega arith)

-- A grid is written without a failed check, and the text reads back as that grid.
pub from_string-to_string :
    (g : Grid)
    → g.bits < word
    → (t : Text) × (to_string g ≡ some t) × (from_string t ≡ some (true, g))
unfolding to_string from_string
from_string-to_string g fits = (rows_text side g.bits 0, rows_to_string_lem side g 0 refl, reads)
  where
    reads : from_string (rows_text side g.bits 0) ≡ some (true, g)
    reads =
        ap (λ (a : ℕ). read_cells (rows_text side g.bits 0) 0 (record { bits = a })) (omega arith)
        ∙ read_cells-rows side g.bits 0 0 refl refl
        ∙ ap (λ (a : ℕ). some (true, record { bits = a })) (mod-eq_of_lt fits)
