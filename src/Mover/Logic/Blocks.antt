-- ===== src/Mover/Logic/Blocks.antt =====
-- Whole blocks of the Mover game, on encoded states (mover/logic.cpp).
use libxayagame.Base.{ℕ, String, ◌≡◌, Option, some, List, [], ◌∷◌, arith, Option-cases, inl, inr}
use libxayagame.Base.Eq.{number_equality, text_equality}
use libxayagame.Base.Map.{lookup}
use libxayagame.Base.Json.{Json}
use libxayagame.Base.Codec.{Codec}
use libxayagame.Mover.Moves.{Direction, parse_move}
use libxayagame.Mover.Accepted.{letter-moving, parse_move_iff}
use libxayagame.Mover.Logic.{Players, Undo, moves_of, process_forward, process_backwards}
use libxayagame.Mover.Logic.Moved.{OneMoveEach}
use libxayagame.Mover.Logic.Valid.{IsValidState, IsValidMove}
use libxayagame.Mover.Logic.RoundTrip.{AllValid, forward-total, backwards-forward}

module _ (json : Json) (state_codec : Codec Players) (undo_codec : Codec Undo) where
  open json use {Value, at, elements}

  abbrev block_moves : Value → List (String × Option (Direction × ℕ))
  block_moves block_data = moves_of json (elements (at block_data "moves"))

  parse_move-IsValidMove : (m : Value) → IsValidMove (parse_move json m)
  parse_move-IsValidMove m = elim (Option-cases (parse_move json m)) [
    | inl e ↦ rw e tt
    | inr ((d, s), e) ↦
        let a = (parse_move_iff json m d s).0 e in
        rw e (letter-moving _ a.direction, a.positive, omega (arith, a.bounded))
  ]

  moves_of-AllValid : (ms : List Value) → AllValid (moves_of json ms)
  unfolding moves_of
  moves_of-AllValid [] = tt
  moves_of-AllValid (m ∷ ms) = (parse_move-IsValidMove (at m "move"), moves_of-AllValid ms)

  module _ (old_state new_state undo_data : String) (block_data : Value) (players : Players)
      (parses : state_codec.parse old_state ≡ some players) (state : IsValidState players)
      (one : OneMoveEach (block_moves block_data)) where
    -- If the old state parses to a valid state and no name has two valid moves in a block, undoing
    -- the block after it was processed passes every check and gives what serialising players gives,
    -- of which each name has what it had in the old state. Only the serialisation may still fail.
    pub process_backwards-process_forward :
        process_forward json state_codec undo_codec old_state block_data
          ≡ some (new_state, undo_data)
        → (rs : Players) × (process_backwards json state_codec undo_codec new_state block_data
              undo_data
            ≡ state_codec.serialize rs)
          × ((n : String) → lookup n rs ≡ lookup n players)
    unfolding process_forward process_backwards
    process_backwards-process_forward went =
        let moves = block_moves block_data in
        let valid = moves_of-AllValid (elements (at block_data "moves")) in
        let ((qs, u), fwd) = forward-total moves players valid state one in
        let (rs, bwd, same) = backwards-forward moves players valid state one qs u fwd in
        (
          rs,
          ground (
            arith,
            parses,
            fwd,
            bwd,
            went,
            state_codec.parse-serialize qs new_state,
            undo_codec.parse-serialize u undo_data,
          ),
          same,
        )
