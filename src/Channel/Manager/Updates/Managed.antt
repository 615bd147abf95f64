-- ===== src/Channel/Manager/Updates/Managed.antt =====
-- A state update keeps the invariant of the channel manager (`ProcessStateUpdate` in
-- gamechannel/channelmanager.cpp).
use libxayagame.Base.{
  ℕ, suc, ◌<◌, ◌≡◌, inl, inr, Bool, true, false, some, length, list_eq, arith, refl, subst, ap, sym,
  ◌∙◌,
}
use libxayagame.Base.Eq.{number_equality}
use libxayagame.Base.Map.{lookup}
use libxayagame.Channel.Types.{Metadata}
use libxayagame.Channel.Rules.{BoardRules, Services}
use libxayagame.Channel.RollingState.{ReinitData}
use libxayagame.Channel.RollingState.Current.{
  get_reinit_id-known, get_state_proof-known, get_latest_state-known,
}
use libxayagame.Channel.RollingState.Consistent.{IsConsistent}
use libxayagame.Channel.Manager.{ChannelManager, DisputeData}
use libxayagame.Channel.Manager.Environment.{Environment, Session, returns}
use libxayagame.Channel.Manager.Updates.{
  int_max, notify_state_change, broadcast_state, offer_on_chain_move,
}
use libxayagame.Channel.Manager.Updates.Resolves.{IsManaged, Resolves}

module _ (rules : BoardRules) (sv : Services) (channel_id : ℕ) where
  open rules use {turn_count}

  -- The invariant does not look at the version, as long as it is positive.
  pub version-IsManaged :
      (m : ChannelManager rules sv channel_id) (v : ℕ)
      → IsManaged rules sv channel_id m
      → IsManaged rules sv channel_id (record m { state_version = suc v })
  version-IsManaged m v i = record {
    consistent = i.consistent;
    known = i.known;
    disputed = λ d h.
        let x = i.disputed d h in
        record {
          entry = x.entry;
          there = x.there;
          turn = x.turn;
          is_turn = x.is_turn;
          in_range = x.in_range;
        };
    off_chain = i.off_chain;
    on_chain = i.on_chain;
    version = omega arith;
  }

  module _ (m : ChannelManager rules sv channel_id) (e : ReinitData rules)
      (i : IsManaged rules sv channel_id m)
      (there : lookup m.board_states.reinit_id m.board_states.reinits ≡ some e) where
    -- A resolution leaves the dispute as it is but for the transaction.
    pub pending-IsManaged :
        (d : DisputeData) (txid : ℕ)
        → m.dispute ≡ some d
        → IsManaged rules sv channel_id
            (record m { dispute = some (record d { pending_resolution = txid }) })
    pending-IsManaged d txid h = record {
      consistent = i.consistent;
      known = i.known;
      disputed = λ d' k.
          let x = i.disputed d h in
          record {
            entry = x.entry;
            there = x.there;
            turn = x.turn;
            is_turn = ground (arith, x.is_turn, k);
            in_range = x.in_range;
          };
      off_chain = i.off_chain;
      on_chain = i.on_chain;
      version = i.version;
    }

    -- New board states with the same current reinitialisation.
    pub states-IsManaged :
        (n : ChannelManager rules sv channel_id) (f : ReinitData rules)
        → IsConsistent rules sv channel_id n.board_states
        → lookup n.board_states.reinit_id n.board_states.reinits ≡ some f
        → f.meta ≡ e.meta
        → n ≡ record m { board_states = n.board_states }
        → IsManaged rules sv channel_id n
    states-IsManaged n f c now same_meta frame =
        subst (IsManaged rules sv channel_id) (sym frame) (record {
          consistent = c;
          known = λ _. (f, now);
          disputed = λ d h.
              let x = i.disputed d h in
              let same : x.entry ≡ e = ground (arith, x.there, there) in
              record {
                entry = f;
                there = now;
                turn = x.turn;
                is_turn = x.is_turn;
                in_range =
                    subst (λ (k : Metadata). x.turn < length k.participants)
                      (ap (λ (k : ReinitData rules). k.meta) same ∙ sym same_meta) x.in_range;
              };
          off_chain = i.off_chain;
          on_chain = i.on_chain;
          version = i.version;
        })

  module _ (env : Environment rules) (s : Session rules sv channel_id env) where
    pub notify_state_change_lem :
        0 < s.manager.state_version
        → s.manager.state_version < int_max
        → notify_state_change rules sv channel_id env s
          ≡ returns (record s {
            manager = record s.manager { state_version = suc s.manager.state_version };
          })
    unfolding notify_state_change
    notify_state_change_lem p q = ground (arith, p, q)

    module _ (e : ReinitData rules) (i : IsManaged rules sv channel_id s.manager)
        (there : lookup s.manager.board_states.reinit_id s.manager.board_states.reinits
          ≡ some e) where
      pub broadcast_state_lem :
          (broadcast : Bool)
          → (w : env.World) × (broadcast_state rules sv channel_id env broadcast s
              ≡ returns (record s { world = w }))
      unfolding broadcast_state
      broadcast_state_lem false = (s.world, refl)
      broadcast_state_lem true = (
        env.send_new_state s.world s.manager.board_states.reinit_id e.proof,
        ground (
          arith,
          i.off_chain,
          get_reinit_id-known rules s.manager.board_states e there,
          get_state_proof-known rules s.manager.board_states e there,
        ),
      )

      pub offer_on_chain_move_lem :
          (w : env.World) × (offer_on_chain_move rules sv channel_id env s
            ≡ returns (record s { world = w }))
      unfolding offer_on_chain_move
      offer_on_chain_move_lem = (
        env.maybe_on_chain_move s.world e.latest_state,
        ground (arith, i.on_chain, get_latest_state-known rules s.manager.board_states e there),
      )

  -- What a dispute's resolution leaves alone.
  pub record Keeps (m n : ChannelManager rules sv channel_id) : Type 0 where
    pub managed : IsManaged rules sv channel_id n
    pub states : n.board_states ≡ m.board_states
    pub player : n.player_name ≡ m.player_name
    pub stopped : n.stopped ≡ m.stopped
    pub exists : n.exists ≡ m.exists
    pub version : n.state_version ≡ m.state_version

  pub Resolves-Keeps :
      (env : Environment rules) (s t : Session rules sv channel_id env) (e : ReinitData rules)
      → IsManaged rules sv channel_id s.manager
      → lookup s.manager.board_states.reinit_id s.manager.board_states.reinits ≡ some e
      → Resolves rules sv channel_id env s e t
      → Keeps s.manager t.manager
  Resolves-Keeps env s t e i there (inl (d, need, is_resolved)) =
      subst (λ (x : Session rules sv channel_id env). Keeps s.manager x.manager) (sym is_resolved)
        (record {
          managed =
              pending-IsManaged s.manager e i there d (env.send_resolution s.world e.proof).0
                need.open_dispute;
          states = refl;
          player = refl;
          stopped = refl;
          exists = refl;
          version = refl;
        })
  Resolves-Keeps env s t e i there (inr (_, unchanged)) =
      subst (λ (x : Session rules sv channel_id env). Keeps s.manager x.manager) (sym unchanged)
        (record {
          managed = i;
          states = refl;
          player = refl;
          stopped = refl;
          exists = refl;
          version = refl;
        })
