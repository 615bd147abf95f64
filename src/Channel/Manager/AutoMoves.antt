-- ===== src/Channel/Manager/AutoMoves.antt =====
-- The loop of the automoves (`ProcessAutoMoves` in gamechannel/channelmanager.cpp).
pub mod Accepted
pub mod Ends
pub mod Rounds
use libxayagame.Base.{
  ℕ, zero, suc, Bool, true, false, not, Option, none, some, list_eq, if◌then◌else◌,
}
use libxayagame.Base.Eq.{◌==◌, number_equality}
use libxayagame.Channel.Types.{Bytes, Verdict, accept, reject, abort}
use libxayagame.Channel.Signatures.{participant}
use libxayagame.Channel.Rules.{BoardRules, Services}
use libxayagame.Channel.RollingState.{get_metadata, get_latest_state}
use libxayagame.Channel.Manager.{apply_local_move}
use libxayagame.Channel.Manager.Environment.{
  Run, returns, aborts, unfinished, ◌>>=◌, checked, required, Environment, Session,
}

module _ (rules : BoardRules) (sv : Services) (channel_id : ℕ) (env : Environment rules) where
  open rules use {whose_turn}
  open env use {maybe_auto_move}

  -- What a round of the loop looks for: the game's automove, if it is the player's turn.
  unfoldable pub next_auto_move :
      Session rules sv channel_id env → Run (Option Bytes × Session rules sv channel_id env)
  next_auto_move s = do
    state ← checked (get_latest_state rules s.manager.board_states)
    meta ← checked (get_metadata rules s.manager.board_states)
    elim (whose_turn state) [
      | none ↦ returns (none, s)
      | some turn ↦ do
        player ← required (participant turn meta.participants)
        if not (player.name == s.manager.player_name)
            then returns (none, s)
            else (let (found, world) = maybe_auto_move s.world state in
                returns (found, record s { world = world }))
    ]

  unfoldable pub process_auto_moves :
      ℕ → Bool → Session rules sv channel_id env → Run (Bool × Session rules sv channel_id env)
  process_auto_moves zero found s = unfinished
  process_auto_moves (suc fuel) found s = do
    (move, asked) ← next_auto_move s
    elim move [
      | none ↦ returns (found, asked)
      | some mv ↦ do
        moved ← checked (apply_local_move rules sv channel_id mv asked.manager)
        process_auto_moves fuel true (record asked { manager = moved })
    ]
