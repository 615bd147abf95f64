-- ===== src/Channel/Manager/Events/Kept.antt =====
-- At admissible events the channel manager (gamechannel/channelmanager.cpp) fails no CHECK.
use libxayagame.Base.{ℕ, ◌<◌, ◌≤◌, ◌≡◌, ◌≢◌, true, some, arith}
use libxayagame.Channel.Types.{Metadata}
use libxayagame.Channel.Rules.{BoardRules, Services, IsBoardRules, IsParsed, SignsValidly}
use libxayagame.Channel.StateProof.{unverified_proof_end_state}
use libxayagame.Channel.StateProof.Signing.{Signs}
use libxayagame.Channel.RollingState.Updated.{IsFromChain}
use libxayagame.Channel.Manager.LocalMove.{TurnsIncrease}
use libxayagame.Channel.Manager.Environment.{Environment, Session, ProposesMoves}
use libxayagame.Channel.Manager.Updates.{int_max}
use libxayagame.Channel.Manager.Updates.Resolves.{IsManaged}
use libxayagame.Channel.Manager.Events.{
  Event, off_chain, gone, on_chain, local_move, auto_moves, put_on_chain, dispute, stop, handle,
}
use libxayagame.Channel.Manager.Events.Moves.{
  IsKept, process_off_chain-IsKept, process_local_move-IsKept, trigger_auto_moves-IsKept,
}
use libxayagame.Channel.Manager.Events.Blocks.{
  process_on_chain_non_existant-IsKept, stop_updates-IsKept, file_dispute-IsKept,
  put_state_on_chain-IsKept, process_on_chain-IsKept,
}

module _ (rules : BoardRules) (sv : Services) (channel_id : ℕ) (env : Environment rules)
    (laws : (meta : Metadata) → IsBoardRules rules channel_id meta) where
  open rules use {Parsed, parse_state, whose_turn, turn_count}

  -- What is asked of an event: a block brings data that the chain has checked, with a dispute only
  -- in a state that is somebody's turn, and an off-chain state comes while the channel exists.
  abbrev pub IsAdmissible : Session rules sv channel_id env → Event → Type 0
  IsAdmissible s (off_chain reinit_id proof) = s.manager.exists ≡ true
  IsAdmissible s (on_chain blk h meta reinit_state proof height) =
      IsFromChain rules sv channel_id laws s.manager.board_states meta reinit_state proof
      × ((p : Parsed)
          → parse_state channel_id meta (unverified_proof_end_state proof) ≡ some p
          → height ≢ 0
          → (turn : ℕ) × (whose_turn p ≡ some turn))
  IsAdmissible s _ = Unit

  module _ (increase : TurnsIncrease rules channel_id) (signs : SignsValidly sv) (keys : Signs sv)
      (proposes : ProposesMoves rules channel_id env) (limit : ℕ)
      (bounded : (meta : Metadata) (p : Parsed)
        → IsParsed rules channel_id meta p
        → turn_count p < limit)
      (fuel : ℕ) (enough : limit ≤ fuel) where
    -- Let the rules be as documented with turn counts below a limit, the wallet hold the keys and
    -- sign validly, and the game propose valid automoves only. Then a manager that is connected to
    -- its two senders, with consistent board states and with disputes about a player's turn, stays
    -- so at every event, as long as the version counter has not run out, blocks bring checked data,
    -- with disputes in a player's turn only, and off-chain states come while the channel exists.
    -- The call returns: no CHECK fails and, with fuel as much as the limit, every loop ends. There
    -- is at most one new version.
    pub handle-IsKept :
        (event : Event) (s : Session rules sv channel_id env)
        → IsManaged rules sv channel_id s.manager
        → s.manager.state_version < int_max
        → IsAdmissible s event
        → IsKept rules sv channel_id env s (handle rules sv channel_id env fuel event s)
    unfolding handle
    handle-IsKept (off_chain id proof) s i room exists =
        process_off_chain-IsKept rules sv channel_id env laws increase signs keys proposes limit
          bounded fuel enough s i room id proof exists
    handle-IsKept (gone blk h) s i room _ =
        process_on_chain_non_existant-IsKept rules sv channel_id env laws s i room blk h
    handle-IsKept (on_chain blk h meta reinit_state proof height) s i room (from, turns) =
        process_on_chain-IsKept rules sv channel_id env laws s i room increase signs keys proposes
          limit bounded fuel enough blk h meta reinit_state proof height from turns
    handle-IsKept (local_move mv) s i room _ =
        process_local_move-IsKept rules sv channel_id env laws increase signs keys proposes limit
          bounded fuel enough s i room mv
    handle-IsKept auto_moves s i room _ =
        trigger_auto_moves-IsKept rules sv channel_id env laws increase signs keys proposes limit
          bounded fuel enough s i room
    handle-IsKept put_on_chain s i room _ =
        let (x, t, run, managed, version) =
          put_state_on_chain-IsKept rules sv channel_id env laws s i room in
        (t, ground (arith, run), managed, omega (arith, version))
    handle-IsKept dispute s i room _ =
        let (x, t, run, managed, version) =
          file_dispute-IsKept rules sv channel_id env laws s i room in
        (t, ground (arith, run), managed, omega (arith, version))
    handle-IsKept stop s i room _ = stop_updates-IsKept rules sv channel_id env laws s i room
