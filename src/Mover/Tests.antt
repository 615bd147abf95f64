-- ===== src/Mover/Tests.antt =====
-- Tests of the Mover model: JSON values and codecs to run it with, and instances of its theorems.
use libxayagame.Base.{ℕ, String, ◌≡◌, refl, true, false, Option, some, List, [], ◌∷◌, arith, ◌↔◌}
use libxayagame.Base.Eq.{number_equality, text_equality}
use libxayagame.Base.Map.{lookup, insert, erase}
use libxayagame.Samples.{
  Value, object, string, number, array, field, end, cons, nil, sample_json, two_values, discrete_of,
  encode_first, encode_second,
}
use libxayagame.Base.Codec.{Codec}
use libxayagame.Mover.Moves.{
  Direction, right, up, down, PlayerState, PlayerUndo, parse_move, get_direction_offset,
}
use libxayagame.Mover.Accepted.{IsMove, parse_move_iff}
use libxayagame.Mover.Logic.{
  Players, Undo, forward, backwards, apply_moves, apply_move, step_players, step_player,
  restore_player, process_forward, process_backwards, moves_of,
}
use libxayagame.Mover.Logic.Valid.{IsValidState}
use libxayagame.Mover.Logic.RoundTrip.{forward-total, forward-IsValidState, AllValid}
use libxayagame.Mover.Logic.Moved.{OneMoveEach}
use libxayagame.Mover.Logic.Repeated.{backwards-forward_repeated}
use libxayagame.Mover.Logic.Blocks.{process_backwards-process_forward}
use native.Mathlib.Decide.{ℕ_discrete}

abbrev move : String → ℕ → Value
move d n = object (field "d" (string d) (field "n" (number n) end))

-- A block in which "a" turns right for one step, and "b" is new.
abbrev block : Value
block = object (
    field "moves"
      (array (
        cons (object (field "name" (string "a") (field "move" (move "l" 1) end)))
          (cons (object (field "name" (string "b") (field "move" (move "k" 5) end))) nil)))
      end)

abbrev old_players : Players
old_players = ("a", record { x = 3; y = 0; dir = down; steps_left = 7 }) ∷ []

abbrev player_a : PlayerState
player_a = record { x = 3; y = 0; dir = down; steps_left = 7 }

old_players-IsValidState : IsValidState old_players
unfolding lookup
old_players-IsValidState = record { distinct = (refl, tt); players = λ n p h. ground arith }

abbrev block_list : List (String × Option (Direction × ℕ))
block_list = ("a", some (right, 1)) ∷ ("b", some (up, 5)) ∷ []

Direction-discrete : Discrete Direction
Direction-discrete = hlevel

PlayerState-discrete : Discrete PlayerState
PlayerState-discrete = hlevel (ℕ_discrete, Direction-discrete)

name-discrete : Discrete String
name-discrete = discrete_of

Players-discrete : Discrete Players
Players-discrete = hlevel (PlayerState-discrete, name-discrete)

PlayerUndo-discrete : Discrete PlayerUndo
PlayerUndo-discrete = hlevel (ℕ_discrete, Direction-discrete)

Undo-discrete : Discrete Undo
Undo-discrete = hlevel (PlayerUndo-discrete, name-discrete)

abbrev new_players : Players
new_players =
    ("a", record { x = 4; y = 0; dir = Direction.none; steps_left = 0 })
    ∷ ("b", record { x = 0; y = 1; dir = up; steps_left = 4 })
    ∷ []

abbrev new_undo : Undo
new_undo =
    (
      "a",
      record {
        is_new = false;
        previous_dir = some down;
        previous_steps_left = some 7;
        finished_dir = some right;
      },
    )
    ∷ (
      "b",
      record {
        is_new = true;
        previous_dir = Option.none;
        previous_steps_left = Option.none;
        finished_dir = Option.none;
      },
    )
    ∷ []

forward_runs : forward block_list old_players ≡ some (new_players, new_undo)
unfolding forward apply_moves apply_move step_players step_player lookup insert get_direction_offset
forward_runs = refl

backwards_runs : backwards new_players new_undo ≡ some old_players
unfolding backwards restore_player lookup erase get_direction_offset
backwards_runs = refl

block_list-AllValid : AllValid block_list
block_list-AllValid = ((refl, omega arith, omega arith), ((refl, omega arith, omega arith), tt))

block_list-OneMoveEach : OneMoveEach block_list
block_list-OneMoveEach = (refl, (refl, tt))

parse_move_iff_example :
    (parse_move sample_json (move "l" 1) ≡ some (right, 1))
    ↔ IsMove sample_json (move "l" 1) right 1
parse_move_iff_example = parse_move_iff sample_json (move "l" 1) right 1

forward-total_example : (r : Players × Undo) × (forward block_list old_players ≡ some r)
forward-total_example =
    forward-total block_list old_players block_list-AllValid old_players-IsValidState
      block_list-OneMoveEach

forward-IsValidState_example : IsValidState new_players
forward-IsValidState_example =
    forward-IsValidState block_list old_players block_list-AllValid old_players-IsValidState
      block_list-OneMoveEach new_players new_undo forward_runs

abbrev state_codec : Codec Players
state_codec = two_values Players-discrete old_players new_players

abbrev undo_codec : Codec Undo
undo_codec = two_values Undo-discrete new_undo []

block_moves_run :
    moves_of sample_json (sample_json.elements (sample_json.at block "moves")) ≡ block_list
unfolding moves_of parse_move
block_moves_run = refl

process_forward_runs :
    process_forward sample_json state_codec undo_codec "x" block ≡ some ("y", "x")
unfolding process_forward
process_forward_runs = rw (
  block_moves_run,
  forward_runs,
  encode_first Undo-discrete new_undo [],
  encode_second Players-discrete old_players new_players (λ e. cc),
)

process_backwards-process_forward_example :
    (rs : Players) × (process_backwards sample_json state_codec undo_codec "y" block "x"
      ≡ state_codec.serialize rs)
    × ((n : String) → lookup n rs ≡ lookup n old_players)
process_backwards-process_forward_example =
    process_backwards-process_forward sample_json state_codec undo_codec "x" "y" "x" block
      old_players refl old_players-IsValidState (rw block_moves_run block_list-OneMoveEach)
      process_forward_runs

-- "a" turns right and then up in one block.
abbrev repeated_players : Players
repeated_players = ("a", record { x = 3; y = 1; dir = up; steps_left = 4 }) ∷ []

abbrev repeated_undo : Undo
repeated_undo =
    (
      "a",
      record {
        is_new = false;
        previous_dir = some right;
        previous_steps_left = some 2;
        finished_dir = Option.none;
      },
    )
    ∷ []

repeated_runs :
    forward (("a", some (right, 2)) ∷ ("a", some (up, 5)) ∷ []) old_players
    ≡ some (repeated_players, repeated_undo)
unfolding forward apply_moves apply_move step_players step_player lookup insert get_direction_offset
repeated_runs = refl

abbrev repeated_restored : Players
repeated_restored = ("a", record { x = 3; y = 0; dir = right; steps_left = 2 }) ∷ []

repeated_undone : backwards repeated_players repeated_undo ≡ some repeated_restored
unfolding backwards restore_player lookup erase get_direction_offset
repeated_undone = refl

player_a_there : lookup "a" old_players ≡ some player_a
unfolding lookup
player_a_there = refl

backwards-forward_repeated_example :
    lookup "a" repeated_restored ≡ some (record player_a { dir = right; steps_left = 2 })
backwards-forward_repeated_example =
    backwards-forward_repeated "a" right up 2 5 old_players player_a old_players-IsValidState
      player_a_there refl (omega arith) repeated_players repeated_undo repeated_restored
      repeated_runs repeated_undone
