-- ===== src/Channel/Manager/Updates.antt =====
-- The updates of gamechannel/channelmanager.cpp: what the manager does on a new block, an off-chain
-- state, or a move of the player.
pub mod Handled
pub mod Managed
pub mod Resolves
use libxayagame.Base.{
  ℕ, suc, Bool, true, false, not, ◌||◌, Option, none, some, [], ltb, leb, list_eq, if◌then◌else◌,
}
use libxayagame.Base.Eq.{◌==◌, number_equality}
use libxayagame.Channel.Types.{Bytes, Metadata, StateProof, accept, reject, abort}
use libxayagame.Channel.Signatures.{participant}
use libxayagame.Channel.Rules.{BoardRules, Services}
use libxayagame.Channel.StateProof.{unverified_proof_end_state}
use libxayagame.Channel.RollingState.{
  get_metadata, get_latest_state, get_state_proof, get_reinit_id, update_with_move, update_on_chain,
}
use libxayagame.Channel.Manager.{DisputeData, apply_local_move}
use libxayagame.Channel.Manager.Environment.{
  Run, returns, aborts, ◌>>=◌, ◌>>◌, assert, checked, required, Environment, Session,
}
use libxayagame.Channel.Manager.AutoMoves.{process_auto_moves}

-- The largest `int`.
abbrev pub int_max : ℕ
int_max = 2147483647

module _ (rules : BoardRules) (sv : Services) (channel_id : ℕ) (env : Environment rules) where
  open rules use {parse_state, whose_turn, turn_count}

  -- `++stateVersion` on the largest `int` is undefined; the model stops there.
  unfoldable pub notify_state_change :
      Session rules sv channel_id env → Run (Session rules sv channel_id env)
  notify_state_change s = do
    assert (ltb 0 s.manager.state_version)
    assert (ltb s.manager.state_version int_max)
    returns
        (record s { manager = record s.manager { state_version = suc s.manager.state_version } })

  unfoldable pub try_resolve_dispute :
      Session rules sv channel_id env → Run (Session rules sv channel_id env)
  try_resolve_dispute s = if not s.manager.exists then returns s else elim s.manager.dispute [
    | none ↦ returns s
    | some dispute ↦ if not (dispute.pending_resolution == 0) then returns s else do
      turn ← required dispute.turn
      meta ← checked (get_metadata rules s.manager.board_states)
      disputed_player ← required (participant turn meta.participants)
      if not (disputed_player.name == s.manager.player_name) then returns s else do
        latest ← checked (get_latest_state rules s.manager.board_states)
        if leb (turn_count latest) dispute.count then returns s else do
          assert s.manager.has_on_chain_sender
          proof ← checked (get_state_proof rules s.manager.board_states)
          let (txid, world) = env.send_resolution s.world proof
          returns (record s {
            manager = record s.manager {
              dispute = some (record dispute { pending_resolution = txid });
            };
            world = world;
          })
  ]

  -- `SendNewState`, where the state is to be broadcast.
  unfoldable pub broadcast_state :
      Bool → Session rules sv channel_id env → Run (Session rules sv channel_id env)
  broadcast_state broadcast s = if not broadcast then returns s else do
    assert s.manager.has_off_chain_sender
    reinit_id ← checked (get_reinit_id rules s.manager.board_states)
    proof ← checked (get_state_proof rules s.manager.board_states)
    returns (record s { world = env.send_new_state s.world reinit_id proof })

  -- `MaybeOnChainMove`, where there is a sender.
  unfoldable pub offer_on_chain_move :
      Session rules sv channel_id env → Run (Session rules sv channel_id env)
  offer_on_chain_move s = if not s.manager.has_on_chain_sender then returns s else do
    latest ← checked (get_latest_state rules s.manager.board_states)
    returns (record s { world = env.maybe_on_chain_move s.world latest })

  unfoldable pub process_state_update :
      ℕ → Bool → Session rules sv channel_id env → Run (Session rules sv channel_id env)
  process_state_update fuel broadcast s = do
    (found, moved) ← process_auto_moves rules sv channel_id env fuel false s
    sent ← broadcast_state (found || broadcast) moved
    resolved ← try_resolve_dispute sent
    offered ← offer_on_chain_move resolved
    notify_state_change offered

  unfoldable pub process_off_chain :
      ℕ
      → Bytes
      → StateProof
      → Session rules sv channel_id env
      → Run (Session rules sv channel_id env)
  process_off_chain fuel reinit_id proof s = if s.manager.stopped then returns s else do
    (changed, states) ←
        checked (update_with_move rules sv channel_id s.manager.board_states reinit_id proof)
    let updated : Session rules sv channel_id env = record s {
      manager = record s.manager { board_states = states };
    }
    if not changed then returns updated else process_state_update fuel false updated

  -- The metadata of a channel without participants.
  abbrev pub no_metadata : Metadata
  no_metadata = record { participants = []; reinit = []; custom = [] }

  -- `SetParticipants`, where there is a broadcaster.
  unfoldable pub tell_participants :
      Metadata → Session rules sv channel_id env → Session rules sv channel_id env
  tell_participants meta s =
      if s.manager.has_off_chain_sender
      then record s { world = env.set_participants s.world meta }
      else s

  unfoldable pub process_on_chain_non_existant :
      ℕ → ℕ → Session rules sv channel_id env → Run (Session rules sv channel_id env)
  unfolding tell_participants
  process_on_chain_non_existant blk h s =
      if s.manager.stopped
      then returns s
      else (notify_state_change (
          tell_participants no_metadata (record s {
            manager = record s.manager { block_hash = blk; on_chain_height = h; exists = false };
          })))

  -- A transaction that is no longer pending is forgotten.
  unfoldable pub reset_mined_txid : Session rules sv channel_id env → ℕ → Run ℕ
  reset_mined_txid s txid = if txid == 0 then returns 0 else do
    assert s.manager.has_on_chain_sender
    returns (if env.is_pending s.world txid then txid else 0)

  -- The dispute after a block in which one is open since `dispute_height`. The code reads a parsed
  -- state that is null through a null pointer; the model aborts there.
  unfoldable pub renew_dispute :
      Session rules sv channel_id env → Metadata → StateProof → ℕ → Run (Option DisputeData)
  unfolding reset_mined_txid
  renew_dispute s meta proof dispute_height = if dispute_height == 0 then returns none else do
    let sent : ℕ = elim s.manager.dispute [ none ↦ 0 | some dispute ↦ dispute.pending_resolution ]
    still_pending ← reset_mined_txid s sent
    p ← required (parse_state channel_id meta (unverified_proof_end_state proof))
    returns (
        some (record {
          height = dispute_height;
          turn = whose_turn p;
          count = turn_count p;
          pending_resolution = still_pending;
        }))

  unfoldable pub process_on_chain :
      ℕ
      → ℕ
      → ℕ
      → Metadata
      → Bytes
      → StateProof
      → ℕ
      → Session rules sv channel_id env
      → Run (Session rules sv channel_id env)
  unfolding tell_participants
  process_on_chain fuel blk h meta reinit_state proof dispute_height s =
      if s.manager.stopped then returns s else do
        put ← reset_mined_txid s s.manager.pending_put_state_on_chain
        filed ← reset_mined_txid s s.manager.pending_dispute
        (changed, states) ←
            checked
              (update_on_chain rules sv channel_id s.manager.board_states meta reinit_state proof)
        dispute ← renew_dispute s meta proof dispute_height
        process_state_update fuel false (
            tell_participants meta (record s {
              manager = record s.manager {
                block_hash = blk;
                on_chain_height = h;
                pending_put_state_on_chain = put;
                pending_dispute = filed;
                exists = true;
                board_states = states;
                dispute = dispute;
              };
            }))

  unfoldable pub process_local_move :
      ℕ → Bytes → Session rules sv channel_id env → Run (Session rules sv channel_id env)
  process_local_move fuel mv s =
      if s.manager.stopped
      then returns s
      else (if not s.manager.exists
          then returns s
          else elim (apply_local_move rules sv channel_id mv s.manager) [
            | reject ↦ returns s
            | abort ↦ aborts
            | accept moved ↦ process_state_update fuel true (record s { manager = moved })
          ])

  -- Both loops of automoves have the fuel.
  unfoldable pub trigger_auto_moves :
      ℕ → Session rules sv channel_id env → Run (Session rules sv channel_id env)
  trigger_auto_moves fuel s =
      if s.manager.stopped
      then returns s
      else (if not s.manager.exists then returns s else do
        (found, moved) ← process_auto_moves rules sv channel_id env fuel false s
        if not found then returns moved else process_state_update fuel true moved)
