-- ===== src/Mover/Moves.antt =====
-- mover/moves.cpp and the messages of mover/proto/mover.proto.
use libxayagame.Base.{
  ℕ, ◌^◌, ◌-◌, String, Bool, true, false, ◌||◌, not, Option, some, ltb, leb, if◌then◌else◌,
}
use libxayagame.Base.Eq.{◌==◌, number_equality, text_equality}
use libxayagame.Base.Json.{Json}

pub data Direction : Type 0 where
  none right left up down right_up right_down left_up left_down : Direction

-- `x` and `y` are `sint32`, held as their bit patterns below 2 ^ 32; `steps_left` is `uint32`.
pub record PlayerState : Type 0 where
  pub x : ℕ
  pub y : ℕ
  pub dir : Direction
  pub steps_left : ℕ

-- An unset optional field is `Option.none`; `is_new` is only ever read with its default.
pub record PlayerUndo : Type 0 where
  pub is_new : Bool
  pub previous_dir : Option Direction
  pub previous_steps_left : Option ℕ
  pub finished_dir : Option Direction

abbrev pub word : ℕ
word = 2 ^ 32

-- The bit pattern of -1.
abbrev pub minus_one : ℕ
minus_one = word - 1

-- The offsets (dx, dy). `Option.none` is the fatal default.
unfoldable pub get_direction_offset : Direction → Option (ℕ × ℕ)
get_direction_offset right = some (1, 0)
get_direction_offset left = some (minus_one, 0)
get_direction_offset up = some (0, 1)
get_direction_offset down = some (0, minus_one)
get_direction_offset right_up = some (1, 1)
get_direction_offset right_down = some (1, minus_one)
get_direction_offset left_up = some (minus_one, 1)
get_direction_offset left_down = some (minus_one, minus_one)
get_direction_offset none = Option.none

unfoldable pub direction_to_string : Direction → String
direction_to_string none = "none"
direction_to_string right = "right"
direction_to_string left = "left"
direction_to_string up = "up"
direction_to_string down = "down"
direction_to_string right_up = "right-up"
direction_to_string right_down = "right-down"
direction_to_string left_up = "left-up"
direction_to_string left_down = "left-down"

unfoldable pub parse_direction : String → Direction
parse_direction str =
    if str == "l"
    then right
    else if str == "h"
    then left
    else if str == "k"
    then up
    else if str == "j"
    then down
    else if str == "u"
    then right_up
    else if str == "n"
    then right_down
    else if str == "y"
    then left_up
    else if str == "b"
    then left_down
    else none

abbrev pub is_none : Direction → Bool
is_none none = true
is_none _ = false

module _ (json : Json) where
  open json use {Value, is_object, is_string, is_uint, is_member, size, at, as_string, as_uint}

  -- The direction and the steps of a valid move.
  unfoldable pub parse_move : Value → Option (Direction × ℕ)
  unfolding parse_direction
  parse_move obj =
      if not (is_object obj)
      then Option.none
      else if not (size obj == 2)
      then Option.none
      else if not (is_member obj "d") || not (is_member obj "n")
      then Option.none
      else if not (is_string (at obj "d")) || not (is_uint (at obj "n"))
      then Option.none
      else let dir = parse_direction (as_string (at obj "d")) in
        let steps = as_uint (at obj "n") in
        if is_none dir
        then Option.none
        else if leb steps 0 || ltb 1000000 steps
        then Option.none
        else some (dir, steps)
