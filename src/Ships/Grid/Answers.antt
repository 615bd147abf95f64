-- ===== src/Ships/Grid/Answers.antt =====
-- The test of a revealed position against the answers given (`VerifyPositionForAnswers` of
-- ships/grid.cpp).
use Prim.Native.Nat.{min, bit_and}
use libxayagame.Base.{
  ℕ, ◌<◌, ◌≡◌, ◌↔◌, Bool, true, Option, none, some, ltb, arith, inl, inr, Bool-cases, Option-cases,
  subst, sym, refl, false,
}
use libxayagame.Base.Eq.{◌==◌, number_equality, same_number_iff}
use libxayagame.Base.Bits.{digit, bit_and_iff}
use libxayagame.Base.Int.{pos}
use libxayagame.Ships.Coord.{Coord, cells, coord_at, get_index}
use libxayagame.Ships.Coord.Index.{get_index-coord_at, index-InRange}
use libxayagame.Ships.Grid.{Grid, word, get, verify_position_for_answers}
use libxayagame.Ships.Grid.Digits.{get-digit}

-- Every hit is at a targeted cell.
IsTargeted : Grid → Grid → Type 0
IsTargeted targeted hits = (c : Coord) → get hits c ≡ some true → get targeted c ≡ some true

-- The position has a ship at a targeted cell exactly where that is a hit.
IsAnswered : Grid → Grid → Grid → Type 0
IsAnswered position targeted hits =
    (c : Coord) → get targeted c ≡ some true → get position c ≡ get hits c

pub IsVerdict : Grid → Grid → Grid → Option Bool → Type 0
IsVerdict position targeted hits none = ¬ IsTargeted targeted hits
IsVerdict position targeted hits (some b) =
    IsTargeted targeted hits × ((b ≡ true) ↔ IsAnswered position targeted hits)

pub get-cell :
    (g : Grid) (i : ℕ) → i < cells → get g (coord_at (pos i)) ≡ some (ltb 0 (digit g.bits i))
get-cell g i lt = get-digit g (coord_at (pos i)) i (get_index-coord_at i lt)

set-cell :
    (g : Grid) (c : Coord)
    → get g c ≡ some true
    → (i : ℕ) × (get_index c ≡ some i) × (i < cells) × (digit g.bits i ≡ 1)
unfolding get
set-cell g c is_set = elim (Option-cases (get_index c)) [
  | inl off ↦ absurd (ground (arith, off, is_set))
  | inr (i, on) ↦ (i, on, index-InRange c i on, ground (arith, on, is_set))
]

bit_and-IsTargeted :
    (targeted hits : Grid)
    → hits.bits < word
    → (bit_and hits.bits targeted.bits ≡ hits.bits) ↔ IsTargeted targeted hits
unfolding IsTargeted
bit_and-IsTargeted targeted hits fits = (there, back)
  where
    digits : (bit_and hits.bits targeted.bits ≡ hits.bits) ↔ (
        (i : ℕ) → i < cells → min (digit hits.bits i) (digit targeted.bits i) ≡ digit hits.bits i)
    digits = bit_and_iff cells hits.bits targeted.bits hits.bits fits fits

    there : bit_and hits.bits targeted.bits ≡ hits.bits → IsTargeted targeted hits
    there same c hit =
        let (i, on, lt, one) = set-cell hits c hit in
        ground (arith, get-digit targeted c i on, digits.0 same i lt, one)

    back : IsTargeted targeted hits → bit_and hits.bits targeted.bits ≡ hits.bits
    back every =
        digits.1 λ i lt.
          ground (arith, get-cell hits i lt, get-cell targeted i lt, every (coord_at (pos i)))

bit_and-IsAnswered :
    (position targeted hits : Grid)
    → position.bits < word
    → hits.bits < word
    → IsTargeted targeted hits
    → (bit_and position.bits targeted.bits ≡ hits.bits) ↔ IsAnswered position targeted hits
unfolding IsTargeted IsAnswered
bit_and-IsAnswered position targeted hits fits hits_fit every = (there, back)
  where
    digits : (bit_and position.bits targeted.bits ≡ hits.bits) ↔ (
        (i : ℕ)
        → i < cells
        → min (digit position.bits i) (digit targeted.bits i) ≡ digit hits.bits i)
    digits = bit_and_iff cells position.bits targeted.bits hits.bits fits hits_fit

    there : bit_and position.bits targeted.bits ≡ hits.bits → IsAnswered position targeted hits
    there same c target =
        let (i, on, lt, one) = set-cell targeted c target in
        ground (arith, get-digit position c i on, get-digit hits c i on, digits.0 same i lt, one)

    back : IsAnswered position targeted hits → bit_and position.bits targeted.bits ≡ hits.bits
    back answered = digits.1 λ i lt. ground (
      arith,
      get-cell hits i lt,
      get-cell targeted i lt,
      get-cell position i lt,
      every (coord_at (pos i)),
      answered (coord_at (pos i)),
    )

-- For grids of 64 bits, the test fails its check exactly if some hit is at a cell that is not targeted.
-- Otherwise it returns true exactly if every targeted cell has a ship in the position where it is a
-- hit, and none where it is not.
pub verify_position_for_answers-IsVerdict :
    (position targeted hits : Grid)
    → position.bits < word
    → hits.bits < word
    → IsVerdict position targeted hits (verify_position_for_answers position targeted hits)
unfolding verify_position_for_answers IsVerdict
verify_position_for_answers-IsVerdict position targeted hits fits hits_fit =
    elim (Bool-cases (bit_and hits.bits targeted.bits == hits.bits)) [
      | inl all ↦
          subst (IsVerdict position targeted hits) (sym (passes all)) (targeted_of all, same all)
      | inr some_not ↦
          subst (IsVerdict position targeted hits) (sym (fails some_not))
            λ every. ground (arith, some_not, (bit_and-IsTargeted targeted hits hits_fit).1 every)
    ]
  where
    answer : Bool
    answer = bit_and position.bits targeted.bits == hits.bits

    passes :
        (bit_and hits.bits targeted.bits == hits.bits) ≡ true
        → verify_position_for_answers position targeted hits ≡ some answer
    passes e = rw e refl

    fails :
        (bit_and hits.bits targeted.bits == hits.bits) ≡ false
        → verify_position_for_answers position targeted hits ≡ none
    fails e = rw e refl

    targeted_of : (bit_and hits.bits targeted.bits == hits.bits) ≡ true → IsTargeted targeted hits
    targeted_of e =
        (bit_and-IsTargeted targeted hits hits_fit).0 ((same_number_iff _ hits.bits).0 e)

    same :
        (bit_and hits.bits targeted.bits == hits.bits) ≡ true
        → (answer ≡ true) ↔ IsAnswered position targeted hits
    same e =
        let both = bit_and-IsAnswered position targeted hits fits hits_fit (targeted_of e) in
        let equal = same_number_iff (bit_and position.bits targeted.bits) hits.bits in
        ((λ equal_bits. both.0 (equal.0 equal_bits)), (λ answered. equal.1 (both.1 answered)))
