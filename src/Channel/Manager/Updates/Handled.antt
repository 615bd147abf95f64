-- ===== src/Channel/Manager/Updates/Handled.antt =====
-- What a state update of the channel manager does (`ProcessStateUpdate` in
-- gamechannel/channelmanager.cpp).
use libxayagame.Base.{
  ℕ, suc, ◌<◌, ◌≤◌, ◌≡◌, Bool, true, false, ◌||◌, some, list_eq, arith, subst, ap, sym, ◌∙◌,
}
use libxayagame.Base.Eq.{number_equality}
use libxayagame.Base.Map.{lookup}
use libxayagame.Channel.Types.{Metadata}
use libxayagame.Channel.Rules.{BoardRules, Services, IsBoardRules, IsParsed, SignsValidly}
use libxayagame.Channel.StateProof.Signing.{Signs}
use libxayagame.Channel.RollingState.{ReinitData, RollingState}
use libxayagame.Channel.Manager.{ChannelManager}
use libxayagame.Channel.Manager.LocalMove.{TurnsIncrease}
use libxayagame.Channel.Manager.Environment.{Environment, Session, ProposesMoves, returns}
use libxayagame.Channel.Manager.AutoMoves.{process_auto_moves}
use libxayagame.Channel.Manager.AutoMoves.Rounds.{HasNoAutoMove}
use libxayagame.Channel.Manager.AutoMoves.Ends.{HasSettled, running_after}
use libxayagame.Channel.Manager.AutoMoves.Accepted.{process_auto_moves-returns}
use libxayagame.Channel.Manager.Updates.{int_max, process_state_update}
use libxayagame.Channel.Manager.Updates.Resolves.{IsManaged, try_resolve_dispute-Resolves}
use libxayagame.Channel.Manager.Updates.Managed.{
  version-IsManaged, states-IsManaged, notify_state_change_lem, broadcast_state_lem,
  offer_on_chain_move_lem, Resolves-Keeps,
}

module _ (rules : BoardRules) (sv : Services) (channel_id : ℕ) (env : Environment rules)
    (laws : (meta : Metadata) → IsBoardRules rules channel_id meta)
    (increase : TurnsIncrease rules channel_id) (signs : SignsValidly sv) (keys : Signs sv)
    (proposes : ProposesMoves rules channel_id env) (limit : ℕ)
    (bounded : (meta : Metadata) (p : rules.Parsed)
      → IsParsed rules channel_id meta p
      → rules.turn_count p < limit) where
  open rules use {turn_count}

  -- The manager is ready for the next update, no older, and one version further.
  pub record IsHandled (m n : ChannelManager rules sv channel_id) (e : ReinitData rules)
      : Type 0 where
    pub managed : IsManaged rules sv channel_id n
    pub stopped : n.stopped ≡ m.stopped
    pub exists : n.exists ≡ true
    pub version : n.state_version ≡ suc m.state_version
    pub entry : ReinitData rules
    pub there : lookup n.board_states.reinit_id n.board_states.reinits ≡ some entry
    pub no_older : turn_count e.latest_state ≤ turn_count entry.latest_state
    pub world : env.World
    pub settled :
        HasNoAutoMove rules sv channel_id env n.player_name world entry.meta entry.latest_state

  module _ (fuel : ℕ) (broadcast : Bool) (s : Session rules sv channel_id env)
      (e : ReinitData rules) (running : (s.manager.stopped ≡ false) × (s.manager.exists ≡ true))
      (i : IsManaged rules sv channel_id s.manager)
      (there : lookup s.manager.board_states.reinit_id s.manager.board_states.reinits ≡ some e)
      (room : s.manager.state_version < int_max) (enough : limit ≤ fuel) where
    -- After the automoves: no CHECK fails.
    after_moves :
        (found : Bool) (t : Session rules sv channel_id env)
        → process_auto_moves rules sv channel_id env fuel false s ≡ returns (found, t)
        → HasSettled rules sv channel_id env laws increase signs false s e (found, t)
        → (u : Session rules sv channel_id env) × (process_state_update rules sv channel_id env fuel
              broadcast s
            ≡ returns u)
          × IsHandled s.manager u.manager e
    unfolding process_state_update
    after_moves found t moves h =
        let a = h.advanced in
        let i1 =
          states-IsManaged rules sv channel_id s.manager e i there t.manager h.entry a.consistent
            a.there a.same_meta a.frame in
        let still =
          running_after rules sv channel_id env laws increase signs s.manager t.manager running
            a.frame in
        let name = ap (λ (k : ChannelManager rules sv channel_id). k.player_name) a.frame in
        let count = ap (λ (k : ChannelManager rules sv channel_id). k.state_version) a.frame in
        let (w1, sent) =
          broadcast_state_lem rules sv channel_id env t h.entry i1 a.there (found || broadcast) in
        let t1 : Session rules sv channel_id env = record t { world = w1 } in
        let (t2, resolves, how) =
          try_resolve_dispute-Resolves rules sv channel_id env t1 h.entry still.1 i1 a.there in
        let k = Resolves-Keeps rules sv channel_id env t1 t2 h.entry i1 a.there how in
        let there2 : lookup t2.manager.board_states.reinit_id t2.manager.board_states.reinits
            ≡ some h.entry =
          subst (λ (st : RollingState rules). lookup st.reinit_id st.reinits ≡ some h.entry)
            (sym k.states) a.there in
        let (w3, offered) =
          offer_on_chain_move_lem rules sv channel_id env t2 h.entry k.managed there2 in
        let t3 : Session rules sv channel_id env = record t2 { world = w3 } in
        let notified =
          notify_state_change_lem rules sv channel_id env t3 k.managed.version
            (omega (arith, k.version, count, room)) in
        (
          record t3 {
            manager = record t3.manager { state_version = suc t3.manager.state_version };
          },
          ground (arith, moves, sent, resolves, offered, notified),
          record {
            managed =
                version-IsManaged rules sv channel_id t2.manager t2.manager.state_version k.managed;
            stopped =
                k.stopped ∙ ap (λ (x : ChannelManager rules sv channel_id). x.stopped) a.frame;
            exists = k.exists ∙ still.1;
            version = omega (arith, k.version, count);
            entry = h.entry;
            there = there2;
            no_older = h.no_older;
            world = t.world;
            settled =
                subst
                  (λ n.
                    HasNoAutoMove rules sv channel_id env n t.world h.entry.meta
                      h.entry.latest_state)
                  (sym (k.player ∙ name)) h.settled;
          },
        )

    pub process_state_update-IsHandled :
        (u : Session rules sv channel_id env) × (process_state_update rules sv channel_id env fuel
            broadcast s
          ≡ returns u)
        × IsHandled s.manager u.manager e
    process_state_update-IsHandled =
        let (r, moves, h) =
          process_auto_moves-returns rules sv channel_id env laws increase signs keys proposes limit
            bounded fuel false s e running i.consistent there enough in
        after_moves r.0 r.1 moves h
