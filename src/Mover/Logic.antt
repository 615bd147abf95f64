-- ===== src/Mover/Logic.antt =====
-- mover/logic.cpp: a block's moves and steps, and their undoing. A failed CHECK is `Option.none`.
pub mod Blocks
pub mod Moved
pub mod Repeated
pub mod Restored
pub mod RoundTrip
pub mod Stepped
pub mod Valid
use mathlib.Core.Option.{get_or}
use libxayagame.Base.{
  ℕ, ◌+◌, ◌-◌, ◌%◌, String, Bool, true, false, ◌&&◌, not, Option, some, List, [], ◌∷◌, ltb,
  if◌then◌else◌,
}
use libxayagame.Base.Eq.{◌==◌, number_equality, text_equality}
use libxayagame.Base.Map.{lookup, insert, erase}
use libxayagame.Base.Json.{Json}
use libxayagame.Base.Codec.{Codec}
use libxayagame.Mover.Moves.{
  Direction, none, PlayerState, PlayerUndo, word, get_direction_offset, is_none, parse_move,
}

abbrev pub Players : Type 0
Players = List (String × PlayerState)

abbrev pub Undo : Type 0
Undo = List (String × PlayerUndo)

infixl 5 ◌>>=◌
abbrev pub ◌>>=◌ : {A B : Type 0} → Option A → (A → Option B) → Option B
some a >>= f = f a
Option.none >>= f = Option.none

-- What `operator[]` puts where there is no entry.
abbrev pub no_undo : PlayerUndo
no_undo = record {
  is_new = false;
  previous_dir = Option.none;
  previous_steps_left = Option.none;
  finished_dir = Option.none;
}

abbrev pub undo_entry : String → Undo → PlayerUndo
undo_entry name undo = get_or (lookup name undo) no_undo

-- The body of the loop over the moves, for a valid move of `name`.
unfoldable pub apply_move : String → Direction × ℕ → Players × Undo → Players × Undo
apply_move name (dir, steps) (players, undo) = elim (lookup name players) [
  | Option.none ↦ (
    insert name (record { x = 0; y = 0; dir = dir; steps_left = steps }) players,
    insert name (record (undo_entry name undo) { is_new = true }) undo,
  )
  | some p ↦ (
    insert name (record p { dir = dir; steps_left = steps }) players,
    insert name
        (record (undo_entry name undo) {
          previous_dir = some p.dir;
          previous_steps_left = some p.steps_left;
        })
        undo,
  )
]

-- The loop over the moves; each is a name with what `ParseMove` makes of it.
unfoldable pub apply_moves :
    List (String × Option (Direction × ℕ)) → Players × Undo → Players × Undo
apply_moves [] s = s
apply_moves ((name, Option.none) ∷ ms) s = apply_moves ms s
apply_moves ((name, some mv) ∷ ms) s = apply_moves ms (apply_move name mv s)

-- One step of a moving player, with the direction if it was the last step.
unfoldable pub step_player : PlayerState → Option (PlayerState × Option Direction)
step_player p =
    if is_none p.dir
    then some (p, Option.none)
    else if not (ltb 0 p.steps_left)
    then Option.none
    else do
      (dx, dy) ← get_direction_offset p.dir
      let q = record p {
        x = (p.x + dx) % word;
        y = (p.y + dy) % word;
        steps_left = p.steps_left - 1;
      }
      some (if q.steps_left == 0 then (record q { dir = none }, some p.dir) else (q, Option.none))

abbrev pub mark_finished : String → Option Direction → Undo → Undo
mark_finished name Option.none undo = undo
mark_finished name (some d) undo =
    insert name (record (undo_entry name undo) { finished_dir = some d }) undo

-- The loop that moves all players.
unfoldable pub step_players : Players → Undo → Option (Players × Undo)
step_players [] undo = some ([], undo)
step_players ((name, p) ∷ ps) undo = do
  (q, finished) ← step_player p
  (qs, undo') ← step_players ps (mark_finished name finished undo)
  some ((name, q) ∷ qs, undo')

-- Both loops: the new players, and the undo data.
unfoldable pub forward : List (String × Option (Direction × ℕ)) → Players → Option (Players × Undo)
unfolding apply_moves step_players
forward moves players = let (ps, undo) = apply_moves moves (players, []) in step_players ps undo

-- The body of the loop over the players; `Option.none` inside marks the player for removal.
unfoldable pub restore_player : PlayerState → Option PlayerUndo → Option (Option PlayerState)
restore_player p u = if is_new then some Option.none else do
  q ← unfinish
  r ← step_back q
  some (
      some (record r {
        dir = get_or previous_dir r.dir;
        steps_left = get_or previous_steps_left r.steps_left;
      }))
  where
    open get_or u no_undo use {is_new, previous_dir, previous_steps_left, finished_dir}

    unfinish : Option PlayerState
    unfinish = elim finished_dir [
      | Option.none ↦ some p
      | some d ↦
          if is_none p.dir && p.steps_left == 0 then some (record p { dir = d }) else Option.none
    ]

    step_back : PlayerState → Option PlayerState
    step_back q = if is_none q.dir then some q else do
      (dx, dy) ← get_direction_offset q.dir
      some (record q {
        steps_left = (q.steps_left + 1) % word;
        x = (q.x + word - dx) % word;
        y = (q.y + word - dy) % word;
      })

-- The loop over the players: the updated players, and the names to remove.
unfoldable pub restore_players : Players → Undo → Option (Players × List String)
restore_players [] undo = some ([], [])
restore_players ((name, p) ∷ ps) undo = do
  r ← restore_player p (lookup name undo)
  (qs, removed) ← restore_players ps undo
  some (elim r [
    | Option.none ↦ ((name, p) ∷ qs, name ∷ removed)
    | some q ↦ ((name, q) ∷ qs, removed)
  ])

unfoldable pub remove_players : List String → Players → Players
remove_players [] ps = ps
remove_players (name ∷ names) ps = remove_players names (erase name ps)

unfoldable pub backwards : Players → Undo → Option Players
unfolding restore_players remove_players
backwards players undo = do
  (ps, removed) ← restore_players players undo
  some (remove_players removed ps)

module _ (json : Json) where
  open json use {Value, at, as_string}

  unfoldable pub moves_of : List Value → List (String × Option (Direction × ℕ))
  moves_of [] = []
  moves_of (m ∷ ms) = (as_string (at m "name"), parse_move json (at m "move")) ∷ moves_of ms

module _ (json : Json) (state_codec : Codec Players) (undo_codec : Codec Undo) where
  open json use {Value, at, elements}

  -- `ProcessForwardInternal`: the new state and the undo data.
  unfoldable pub process_forward : String → Value → Option (String × String)
  process_forward old_state block_data = do
    players ← state_codec.parse old_state
    (players', undo) ← forward (moves_of json (elements (at block_data "moves"))) players
    undo_data ← undo_codec.serialize undo
    new_state ← state_codec.serialize players'
    some (new_state, undo_data)

  -- `ProcessBackwardsInternal`
  unfoldable pub process_backwards : String → Value → String → Option String
  process_backwards new_state block_data undo_data = do
    players ← state_codec.parse new_state
    undo ← undo_codec.parse undo_data
    players' ← backwards players undo
    state_codec.serialize players'
