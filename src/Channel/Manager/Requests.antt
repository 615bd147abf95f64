-- ===== src/Channel/Manager/Requests.antt =====
-- What a user asks of the channel manager (gamechannel/channelmanager.cpp): to put the state on
-- chain, to file a dispute, to stop. The functions return the transaction id, which is 0 if null.
pub mod Disputes
use libxayagame.Base.{ℕ, true, not, none, some, leb, if◌then◌else◌}
use libxayagame.Base.Eq.{◌==◌, number_equality}
use libxayagame.Channel.Rules.{BoardRules, Services}
use libxayagame.Channel.RollingState.{get_latest_state, get_state_proof, get_on_chain_turn_count}
use libxayagame.Channel.Manager.Environment.{
  Run, returns, ◌>>=◌, ◌>>◌, assert, checked, Environment, Session,
}
use libxayagame.Channel.Manager.Updates.{notify_state_change}

module _ (rules : BoardRules) (sv : Services) (channel_id : ℕ) (env : Environment rules) where
  unfoldable pub put_state_on_chain :
      Session rules sv channel_id env → Run (ℕ × Session rules sv channel_id env)
  put_state_on_chain s = if not s.manager.exists then returns (0, s) else do
    latest ← checked (get_latest_state rules s.manager.board_states)
    on_chain_cnt ← checked (get_on_chain_turn_count rules s.manager.board_states)
    if leb (rules.turn_count latest) on_chain_cnt
        then (do assert (rules.turn_count latest == on_chain_cnt); returns (0, s))
        else do
          assert s.manager.has_on_chain_sender
          proof ← checked (get_state_proof rules s.manager.board_states)
          let (txid, world) = env.send_resolution s.world proof
          returns (
            txid,
            record s {
              manager = record s.manager { pending_put_state_on_chain = txid };
              world = world;
            },
          )

  unfoldable pub file_dispute :
      Session rules sv channel_id env → Run (ℕ × Session rules sv channel_id env)
  file_dispute s = if not s.manager.exists then returns (0, s) else elim s.manager.dispute [
    | some _ ↦ returns (0, s)
    | none ↦ if not (s.manager.pending_dispute == 0) then returns (0, s) else do
      assert s.manager.has_on_chain_sender
      proof ← checked (get_state_proof rules s.manager.board_states)
      let (txid, world) = env.send_dispute s.world proof
      returns
          (txid, record s { manager = record s.manager { pending_dispute = txid }; world = world })
  ]

  unfoldable pub stop_updates :
      Session rules sv channel_id env → Run (Session rules sv channel_id env)
  unfolding notify_state_change
  stop_updates s =
      notify_state_change rules sv channel_id env
        (record s { manager = record s.manager { stopped = true } })
