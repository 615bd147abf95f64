-- ===== src/Channel/Manager/AutoMoves/Accepted.antt =====
-- The automoves of a game that proposes valid moves (`ProcessAutoMoves` in
-- gamechannel/channelmanager.cpp).
use libxayagame.Base.{
  ℕ, ◌≤◌, ◌<◌, ◌≡◌, ◌≢◌, inl, inr, Bool, true, false, some, list_eq, arith, Bool-cases,
}
use libxayagame.Base.Eq.{number_equality}
use libxayagame.Base.Map.{lookup}
use libxayagame.Channel.Types.{Bytes, Metadata, reject}
use libxayagame.Channel.Rules.{BoardRules, Services, IsBoardRules, IsParsed, SignsValidly}
use libxayagame.Channel.StateProof.{unverified_proof_end_state}
use libxayagame.Channel.StateProof.Signing.{Signs, extend_state_proof-accepts}
use libxayagame.Channel.RollingState.{ReinitData}
use libxayagame.Channel.RollingState.Current.{
  get_metadata-known, get_state_proof-known, get_reinit_id-known,
}
use libxayagame.Channel.RollingState.Consistent.{IsConsistent, update_with_move-Outcome}
use libxayagame.Channel.Manager.{ChannelManager, apply_local_move}
use libxayagame.Channel.Manager.LocalMove.{TurnsIncrease}
use libxayagame.Channel.Manager.Environment.{Environment, Session, ProposesMoves, returns}
use libxayagame.Channel.Manager.AutoMoves.{process_auto_moves}
use libxayagame.Channel.Manager.AutoMoves.Ends.{
  HasSettled, IsRefused, running_after, process_auto_moves-HasSettled,
}

module _ (rules : BoardRules) (sv : Services) (channel_id : ℕ) (env : Environment rules)
    (laws : (meta : Metadata) → IsBoardRules rules channel_id meta)
    (increase : TurnsIncrease rules channel_id) (signs : SignsValidly sv) (keys : Signs sv)
    (proposes : ProposesMoves rules channel_id env) where
  open rules use {whose_turn, turn_count, apply_move}

  -- A valid move in the player's turn is not refused.
  apply_local_move-ne-reject :
      (m : ChannelManager rules sv channel_id) (e : ReinitData rules) (mv s : Bytes) (turn : ℕ)
      → (m.stopped ≡ false) × (m.exists ≡ true)
      → IsConsistent rules sv channel_id m.board_states
      → lookup m.board_states.reinit_id m.board_states.reinits ≡ some e
      → whose_turn e.latest_state ≡ some turn
      → apply_move e.latest_state mv ≡ some s
      → apply_local_move rules sv channel_id mv m ≢ reject
  unfolding apply_local_move
  apply_local_move-ne-reject m e mv s turn running c there is_turn applies h =
      let parses = (c.entries m.board_states.reinit_id e there).latest in
      let (new, extends) =
        extend_state_proof-accepts rules sv channel_id e.meta (laws e.meta) e.proof mv s
          e.latest_state turn signs keys parses is_turn applies in
      let (r, update, _) =
        update_with_move-Outcome rules sv channel_id laws m.board_states m.board_states.reinit_id
          new in
      elim (Bool-cases r.0) [
        | inl b ↦ ground (
          arith,
          running,
          get_metadata-known rules m.board_states e there,
          get_state_proof-known rules m.board_states e there,
          get_reinit_id-known rules m.board_states e there,
          extends,
          update,
          b,
          h,
        )
        | inr b ↦ ground (
          arith,
          running,
          get_metadata-known rules m.board_states e there,
          get_state_proof-known rules m.board_states e there,
          get_reinit_id-known rules m.board_states e there,
          extends,
          update,
          b,
          h,
        )
      ]

  not-IsRefused :
      (s : Session rules sv channel_id env) (e : ReinitData rules)
      → (s.manager.stopped ≡ false) × (s.manager.exists ≡ true)
      → ¬ IsRefused rules sv channel_id env laws increase signs s e
  not-IsRefused s e running x =
      let id = x.at.manager.board_states.reinit_id in
      let parses = (x.advanced.consistent.entries id x.entry x.advanced.there).latest in
      let (t, applies) =
        proposes x.entry.meta x.at.world x.after x.entry.latest_state x.move
          (unverified_proof_end_state x.entry.proof, parses) x.proposed in
      apply_local_move-ne-reject x.at.manager x.entry x.move t x.turn
        (running_after rules sv channel_id env laws increase signs s.manager x.at.manager running
          x.advanced.frame)
        x.advanced.consistent x.advanced.there x.is_turn applies x.refused

  -- The loop returns.
  pub process_auto_moves-returns :
      (limit : ℕ)
      → ((meta : Metadata) (p : rules.Parsed)
          → IsParsed rules channel_id meta p
          → turn_count p < limit)
      → (fuel : ℕ) (found : Bool) (s : Session rules sv channel_id env) (e : ReinitData rules)
      → (s.manager.stopped ≡ false) × (s.manager.exists ≡ true)
      → IsConsistent rules sv channel_id s.manager.board_states
      → lookup s.manager.board_states.reinit_id s.manager.board_states.reinits ≡ some e
      → limit ≤ fuel
      → (r : Bool × Session rules sv channel_id env) × (process_auto_moves rules sv channel_id env
            fuel found s
          ≡ returns r)
        × HasSettled rules sv channel_id env laws increase signs found s e r
  process_auto_moves-returns limit bounded fuel found s e running c there enough =
      elim (process_auto_moves-HasSettled rules sv channel_id env laws increase signs limit bounded
        fuel found s e running c there (omega (arith, enough))) [
          | inl ends ↦ ends
          | inr (_, x) ↦ absurd (not-IsRefused s e running x)
        ]
