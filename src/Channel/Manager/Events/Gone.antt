-- ===== src/Channel/Manager/Events/Gone.antt =====
-- An off-chain state for a channel that no longer exists (`ProcessOffChain` in
-- gamechannel/channelmanager.cpp).
use libxayagame.Base.{ℕ, suc, ◌≡◌, true, false, some, list_eq, list_beq_iff, arith}
use libxayagame.Base.Eq.{number_equality}
use libxayagame.Base.Map.{lookup}
use libxayagame.Channel.Types.{Bytes, Participant, StateProof, accept}
use libxayagame.Channel.Signatures.{participant}
use libxayagame.Channel.Rules.{BoardRules, Services}
use libxayagame.Channel.RollingState.{ReinitData, RollingState, update_with_move}
use libxayagame.Channel.RollingState.Current.{get_metadata-known, get_latest_state-known}
use libxayagame.Channel.Manager.{apply_local_move}
use libxayagame.Channel.Manager.Environment.{Environment, Session, aborts}
use libxayagame.Channel.Manager.AutoMoves.{next_auto_move, process_auto_moves}
use libxayagame.Channel.Manager.Updates.{process_state_update, process_off_chain}

module _ (rules : BoardRules) (sv : Services) (channel_id : ℕ) (env : Environment rules) where
  -- A running manager fails a CHECK at an off-chain state, if the channel does not exist (any
  -- more), the state is fresher than the known one, it is the player's turn in it, and the game
  -- has an automove there.
  pub process_off_chain-aborts :
      (fuel : ℕ) (s : Session rules sv channel_id env) (id : Bytes) (proof : StateProof)
      (states : RollingState rules) (f : ReinitData rules) (turn : ℕ) (player : Participant)
      (mv : Bytes) (w : env.World)
      → (s.manager.stopped ≡ false) × (s.manager.exists ≡ false)
      → update_with_move rules sv channel_id s.manager.board_states id proof ≡ accept (true, states)
      → lookup states.reinit_id states.reinits ≡ some f
      → rules.whose_turn f.latest_state ≡ some turn
      → participant turn f.meta.participants ≡ some player
      → player.name ≡ s.manager.player_name
      → env.maybe_auto_move s.world f.latest_state ≡ (some mv, w)
      → process_off_chain rules sv channel_id env (suc fuel) id proof s ≡ aborts
  unfolding process_off_chain process_state_update process_auto_moves next_auto_move
      apply_local_move
  process_off_chain-aborts fuel s id proof states f turn player mv w gone update there is_turn
        is_player own proposed =
      let own_name = (list_beq_iff player.name s.manager.player_name).1 own in
      ground (
        arith,
        gone,
        update,
        get_metadata-known rules states f there,
        get_latest_state-known rules states f there,
        is_turn,
        is_player,
        own_name,
        proposed,
      )
