-- ===== src/Ships/Coord/Index.antt =====
-- What indices and coordinates have to do with each other (ships/coord.cpp).
use libxayagame.Base.{
  ℕ, ◌*◌, ◌+◌, ◌/◌, ◌%◌, ◌<◌, ◌≤◌, true, false, none, some, ◌≡◌, ap, ◌∙◌, refl, ◌↔◌, inl, inr,
  arith, Bool-cases, ltb,
}
use libxayagame.Base.Int.{ℤ, pos, negsuc, ◌+ℤ◌}
use libxayagame.Ships.Coord.{
  Coord, Direction, left, right, up, down, side, cells, is_on_board, coord_at, get_index,
  checked_index, step, step_back,
}

abbrev pub at : ℤ → ℤ → Coord
at r c = record { row = r; column = c }

pub is_on_board_iff :
    (r c : ℕ) → (is_on_board (at (pos r) (pos c)) ≡ true) ↔ ((r < side) × (c < side))
unfolding is_on_board
is_on_board_iff r c = ground arith

pub negative_row : (r : ℕ) (c : ℤ) → is_on_board (at (negsuc r) c) ≡ false
unfolding is_on_board
negative_row r c = ground arith

pub negative_column : (r c : ℕ) → is_on_board (at (pos r) (negsuc c)) ≡ false
unfolding is_on_board
negative_column r c = ground arith

get_index-off : (c : Coord) → is_on_board c ≡ false → get_index c ≡ none
unfolding get_index
get_index-off c off = rw off refl

pub get_index-on :
    (r c : ℕ) → r < side → c < side → get_index (at (pos r) (pos c)) ≡ some (r * side + c)
unfolding get_index
get_index-on r c p q = rw ((is_on_board_iff r c).1 (p, q)) (ground arith)

pub get_index-coord_at : (i : ℕ) → i < cells → get_index (coord_at (pos i)) ≡ some i
unfolding coord_at
get_index-coord_at i lt =
    get_index-on (i / 8) (i % 8) (omega arith) (omega arith) ∙ ap some (omega arith)

off_end : (i : ℕ) → cells ≤ i → get_index (coord_at (pos i)) ≡ none
unfolding coord_at is_on_board
off_end i le = get_index-off (coord_at (pos i)) (ground arith)

negative : (i : ℕ) → is_on_board (coord_at (negsuc i)) ≡ false
unfolding coord_at is_on_board
negative i = ground arith

index_checked : (ind : ℤ) → get_index (coord_at ind) ≡ checked_index ind
index_checked (pos n) = elim (Bool-cases (ltb n cells)) [
  | inl lt ↦ ground (arith, lt, get_index-coord_at n (ground arith))
  | inr le ↦ ground (arith, le, off_end n (ground arith))
]
index_checked (negsuc n) = get_index-off (coord_at (negsuc n)) (negative n)

-- An index gives a coordinate on the board, and itself back from it, exactly if it is one of the
-- cells; a negative index gives none.
pub get_index-InRange :
    (ind : ℤ) (i : ℕ) → (get_index (coord_at ind) ≡ some i) ↔ ((ind ≡ pos i) × (i < cells))
get_index-InRange (pos n) i = ground (arith, index_checked (pos n))
get_index-InRange (negsuc n) i = ground (arith, index_checked (negsuc n))

there_and_back : (z : ℤ) → (z +ℤ negsuc 0 +ℤ pos 1 ≡ z) × (z +ℤ pos 1 +ℤ negsuc 0 ≡ z)
there_and_back (pos n) = ground arith
there_and_back (negsuc n) = ground arith

pub step_back-step : (c : Coord) (d : Direction) → step_back (step c d) d ≡ c
step_back-step c left = ap (at c.row) (there_and_back c.column).0
step_back-step c right = ap (at c.row) (there_and_back c.column).1
step_back-step c up = ap (λ r. at r c.column) (there_and_back c.row).0
step_back-step c down = ap (λ r. at r c.column) (there_and_back c.row).1

pub index-InRange : (c : Coord) (i : ℕ) → get_index c ≡ some i → i < cells
unfolding get_index
index-InRange c i found = elim (Bool-cases (is_on_board c)) [
  | inl on ↦ ground (arith, on, found)
  | inr off ↦ ground (arith, off, found)
]

pub index_at : (r c : ℤ) → is_on_board (at r c) ≡ true → (i : ℕ) × (get_index (at r c) ≡ some i)
index_at (pos r) (pos c) on =
    let (row, column) = (is_on_board_iff r c).0 on in (r * side + c, get_index-on r c row column)
index_at (pos r) (negsuc c) on = absurd (cc (on, negative_column r c))
index_at (negsuc r) c on = absurd (cc (on, negative_row r c))
