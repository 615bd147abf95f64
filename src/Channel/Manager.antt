-- ===== src/Channel/Manager.antt =====
-- gamechannel/channelmanager.cpp: the state of the manager of an open channel, and `ApplyLocalMove`.
-- The children have its other operations. Locking and the wait for a change are not modelled.
pub mod Environment
pub mod Events
pub mod Applied
pub mod LocalMove
pub mod AutoMoves
pub mod Updates
pub mod Requests
use libxayagame.Base.{ℕ, Bool, true, false, not, ◌&&◌, List, Option}
use libxayagame.Channel.Types.{
  Bytes, Metadata, StateProof, Verdict, accept, reject, abort, ◌>>=◌, ◌>>◌, or_abort,
}
use libxayagame.Channel.Rules.{BoardRules, Services}
use libxayagame.Channel.StateProof.{extend_state_proof}
use libxayagame.Channel.RollingState.{
  RollingState, check, get_metadata, get_state_proof, get_reinit_id, update_with_move,
}

-- `NO_TURN` is `none`; a null transaction id is 0.
pub record DisputeData : Type 0 where
  pub height : ℕ
  pub turn : Option ℕ
  pub count : ℕ
  pub pending_resolution : ℕ

module _ (rules : BoardRules) (sv : Services) (channel_id : ℕ) where
  -- The two pointers to the senders are flags: whether they are set.
  pub record ChannelManager : Type 0 where
    pub player_name : Bytes
    pub board_states : RollingState rules
    pub has_off_chain_sender : Bool
    pub has_on_chain_sender : Bool
    pub state_version : ℕ
    pub stopped : Bool
    pub exists : Bool
    pub block_hash : ℕ
    pub on_chain_height : ℕ
    pub dispute : Option DisputeData
    pub pending_put_state_on_chain : ℕ
    pub pending_dispute : ℕ

  unfoldable pub apply_local_move : Bytes → ChannelManager → Verdict ChannelManager
  apply_local_move mv m = do
    check (not m.stopped && m.exists)
    meta ← get_metadata rules m.board_states
    proof ← get_state_proof rules m.board_states
    new_proof ← extend_state_proof rules sv channel_id meta proof mv
    reinit ← get_reinit_id rules m.board_states
    (changed, states) ← update_with_move rules sv channel_id m.board_states reinit new_proof
    check changed
    accept (record m { board_states = states })
