-- ===== src/Channel/Manager/Events.antt =====
-- What happens to a channel manager (gamechannel/channelmanager.cpp) that runs: the calls of its
-- public functions, by events of the chain, of the broadcast and of the user.
pub mod Blocks
pub mod Gone
pub mod Kept
pub mod Moves
use libxayagame.Base.{ℕ, Bool}
use libxayagame.Channel.Types.{Bytes, Metadata, StateProof}
use libxayagame.Channel.Rules.{BoardRules, Services}
use libxayagame.Channel.Manager.Environment.{
  Run, returns, aborts, unfinished, ◌>>=◌, Environment, Session,
}
use libxayagame.Channel.Manager.Updates.{
  process_off_chain, process_on_chain_non_existant, process_on_chain, process_local_move,
  trigger_auto_moves,
}
use libxayagame.Channel.Manager.Requests.{put_state_on_chain, file_dispute, stop_updates}

pub data Event : Type 0 where
  off_chain : Bytes → StateProof → Event
  gone : ℕ → ℕ → Event
  on_chain : ℕ → ℕ → Metadata → Bytes → StateProof → ℕ → Event
  local_move : Bytes → Event
  auto_moves : Event
  put_on_chain : Event
  dispute : Event
  stop : Event

module _ (rules : BoardRules) (sv : Services) (channel_id : ℕ) (env : Environment rules) where
  unfoldable pub handle :
      ℕ → Event → Session rules sv channel_id env → Run (Session rules sv channel_id env)
  handle fuel (off_chain reinit_id proof) s =
      process_off_chain rules sv channel_id env fuel reinit_id proof s
  handle fuel (gone blk h) s = process_on_chain_non_existant rules sv channel_id env blk h s
  handle fuel (on_chain blk h meta reinit_state proof dispute_height) s =
      process_on_chain rules sv channel_id env fuel blk h meta reinit_state proof dispute_height s
  handle fuel (local_move mv) s = process_local_move rules sv channel_id env fuel mv s
  handle fuel auto_moves s = trigger_auto_moves rules sv channel_id env fuel s
  handle fuel put_on_chain s = do
    (txid, t) ← put_state_on_chain rules sv channel_id env s
    returns t
  handle fuel dispute s = do (txid, t) ← file_dispute rules sv channel_id env s; returns t
  handle fuel stop s = stop_updates rules sv channel_id env s
