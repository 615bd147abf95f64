-- ===== src/Ships/Grid.antt =====
-- The grid of one player's ships or shots (ships/grid.cpp).
pub mod Digits
pub mod Text
pub mod Answers
pub mod Bounds
pub mod Counts
use Prim.Native.Nat.{bit_and, bit_or}
use libxayagame.Base.{
  ℕ, zero, suc, ◌+◌, ◌*◌, ◌/◌, ◌%◌, ◌^◌, Bool, true, false, not, Option, none, some, List, [], ◌∷◌,
  ltb, if◌then◌else◌, ◌||◌, ◌++◌,
}
use mathlib.Core.Option.{map as Option_map}
use libxayagame.Base.Eq.{◌==◌, number_equality}
use libxayagame.Base.Int.{ℤ, pos}
use libxayagame.Ships.Coord.{Coord, side, cells, coord_at, is_on_board, get_index}

-- `bits` is a `uint64_t`.
pub record Grid : Type 0 where
  pub bits : ℕ

abbrev pub word : ℕ
word = 2 ^ 64

-- Texts are read and written one byte after the other.
abbrev pub Text : Type 0
Text = List ℕ

-- A failed `CHECK` is `none` in all of these.
unfoldable pub get : Grid → Coord → Option Bool
get g c = elim (get_index c) [ none ↦ none | some i ↦ some (ltb 0 (g.bits / 2 ^ i % 2)) ]

unfoldable pub set : Grid → Coord → Option Grid
set g c = elim (get_index c) [
  | none ↦ none
  | some i ↦
      let mask = 1 * 2 ^ i % word in
      if bit_and g.bits mask == 0 then some (record { bits = bit_or g.bits mask }) else none
]

-- The inner loop over the columns: `left` of them are to come.
unfoldable pub row_to_string : ℕ → Grid → ℕ → ℕ → Option Text
row_to_string zero g r c = some (b'\n' ∷ [])
row_to_string (suc left) g r c =
    let rest = row_to_string left g r (suc c) in
    elim (get g (record { row = pos r; column = pos c })) [
      | none ↦ none
      | some b ↦ Option_map (λ res. (if b then b'x' else b'.') ∷ res) rest
    ]

unfoldable pub rows_to_string : ℕ → Grid → ℕ → Option Text
unfolding row_to_string
rows_to_string zero g r = some []
rows_to_string (suc left) g r =
    let rest = rows_to_string left g (suc r) in
    elim (row_to_string side g r 0) [ none ↦ none | some t ↦ Option_map (λ res. t ++ res) rest ]

unfoldable pub to_string : Grid → Option Text
unfolding rows_to_string
to_string g = rows_to_string side g 0

-- The loop over the characters, with `next` and the grid. The result has the flag that is returned
-- and the grid; `none` is a failed `CHECK`.
unfoldable pub read_cells : Text → ℕ → Grid → Option (Bool × Grid)
unfolding set
read_cells [] next g =
    if ltb next cells then some (false, g) else if next == cells then some (true, g) else none
read_cells (c ∷ str) next g =
    let blank = read_cells str next g in
    let unset = read_cells str (suc next) g in
    if (c == b' ') || (c == b'\n')
    then blank
    else if not (ltb next cells)
    then some (false, g)
    else if c == b'.'
    then unset
    else if c == b'x'
    then elim (set g (coord_at (pos next))) [ none ↦ none | some h ↦ read_cells str (suc next) h ]
    else some (false, g)

unfoldable pub from_string : Text → Option (Bool × Grid)
unfolding read_cells
from_string str = read_cells str 0 (record { bits = 0 })

-- The loop of `CountOnes`, on fuel.
unfoldable pub count_from : ℕ → ℕ → ℕ → Option ℕ
count_from zero remaining res = if ltb 0 remaining then none else some res
count_from (suc fuel) remaining res =
    let rest = count_from fuel (remaining / 2) (res + remaining % 2) in
    if ltb 0 remaining then rest else some res

unfoldable pub count_ones : Grid → Option ℕ
unfolding count_from
count_ones g = count_from cells g.bits 0

-- The loop of `Blob`: `left` of the bytes are to come.
unfoldable pub blob_from : ℕ → ℕ → Option Text
blob_from zero remaining = if remaining == 0 then some [] else none
blob_from (suc left) remaining =
    Option_map (λ res. bit_and remaining 0xff ∷ res) (blob_from left (remaining / 2 ^ 8))

unfoldable pub blob : Grid → Option Text
unfolding blob_from
blob g = blob_from 8 g.bits

unfoldable pub verify_position_for_answers : Grid → Grid → Grid → Option Bool
verify_position_for_answers position targeted hits =
    if bit_and hits.bits targeted.bits == hits.bits
    then some (bit_and position.bits targeted.bits == hits.bits)
    else none

-- The sizes of the ships, and how many of each there are.
abbrev pub available_ships : List (ℕ × ℕ)
available_ships = (2, 4) ∷ (3, 2) ∷ (4, 1) ∷ []

abbrev pub ship_cells : List (ℕ × ℕ) → ℕ → ℕ
ship_cells [] res = res
ship_cells ((size, number) ∷ types) res = ship_cells types (res + size * number)

abbrev pub total_ship_cells : ℕ
total_ship_cells = ship_cells available_ships 0
