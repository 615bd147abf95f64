-- ===== src/Channel/Manager/Updates/Resolves.antt =====
-- When the channel manager sends a resolution (`TryResolveDispute` in
-- gamechannel/channelmanager.cpp), and the invariant that this relies on.
use libxayagame.Base.{
  ℕ, ◌<◌, ◌≡◌, ◌⊎◌, inl, inr, true, false, some, leb, length, list_eq, arith, Bool-cases,
  Option-cases, refl, subst, ap, sym, ◌∙◌, list_beq_iff,
}
use libxayagame.Base.Eq.{◌==◌, number_equality}
use libxayagame.Base.Map.{lookup}
use libxayagame.Channel.Types.{Participant}
use libxayagame.Channel.Signatures.{participant}
use libxayagame.Channel.Rules.{BoardRules, Services}
use libxayagame.Channel.StateProof.Checks.{participant-total}
use libxayagame.Channel.RollingState.{ReinitData}
use libxayagame.Channel.RollingState.Current.{
  get_metadata-known, get_state_proof-known, get_latest_state-known,
}
use libxayagame.Channel.RollingState.Consistent.{IsConsistent}
use libxayagame.Channel.Manager.{ChannelManager, DisputeData}
use libxayagame.Channel.Manager.Environment.{Environment, Session, returns}
use libxayagame.Channel.Manager.Updates.{try_resolve_dispute}

module _ (rules : BoardRules) (sv : Services) (channel_id : ℕ) where
  open rules use {turn_count}

  -- A dispute is about a turn of one of the channel's participants.
  pub record IsDisputed (m : ChannelManager rules sv channel_id) (d : DisputeData) : Type 0 where
    pub entry : ReinitData rules
    pub there : lookup m.board_states.reinit_id m.board_states.reinits ≡ some entry
    pub turn : ℕ
    pub is_turn : d.turn ≡ some turn
    pub in_range : turn < length entry.meta.participants

  -- The state of a manager whose two senders are set. A channel that exists has a known state.
  pub record IsManaged (m : ChannelManager rules sv channel_id) : Type 0 where
    pub consistent : IsConsistent rules sv channel_id m.board_states
    pub known :
        m.exists ≡ true
        → (e : ReinitData rules) × (lookup m.board_states.reinit_id m.board_states.reinits ≡ some e)
    pub disputed : (d : DisputeData) → m.dispute ≡ some d → IsDisputed m d
    pub off_chain : m.has_off_chain_sender ≡ true
    pub on_chain : m.has_on_chain_sender ≡ true
    pub version : 0 < m.state_version

  module _ (env : Environment rules) (s : Session rules sv channel_id env)
      (e : ReinitData rules) where
    -- There is an open dispute about the player's own turn, for which no resolution is pending, and
    -- the best known state is fresher than the disputed one.
    pub record NeedsResolution (d : DisputeData) : Type 0 where
      pub open_dispute : s.manager.dispute ≡ some d
      pub unsent : d.pending_resolution ≡ 0
      pub turn : ℕ
      pub player : Participant
      pub is_turn : d.turn ≡ some turn
      pub is_player : participant turn e.meta.participants ≡ some player
      pub own : player.name ≡ s.manager.player_name
      pub fresher : d.count < turn_count e.latest_state

    -- The best known state has been sent as a resolution, and its transaction id is kept.
    abbrev pub resolved : DisputeData → Session rules sv channel_id env
    resolved d =
        let (txid, world) = env.send_resolution s.world e.proof in
        record s {
          manager = record s.manager { dispute = some (record d { pending_resolution = txid }) };
          world = world;
        }

    abbrev pub Resolves : Session rules sv channel_id env → Type 0
    Resolves t =
        ((d : DisputeData) × NeedsResolution d × (t ≡ resolved d))
        ⊎ (((d : DisputeData) → ¬ NeedsResolution d) × (t ≡ s))

    -- A dispute about another player's turn needs no resolution of this one.
    other_player :
        (d d' : DisputeData) (p : Participant)
        → NeedsResolution d'
        → s.manager.dispute ≡ some d
        → (turn : ℕ) → d.turn ≡ some turn
        → participant turn e.meta.participants ≡ some p
        → (p.name == s.manager.player_name) ≡ false
        → ⊥
    other_player d d' p n h turn is_turn is_player other =
        let same : d' ≡ d = ground (arith, n.open_dispute, h) in
        let same_turn : n.turn ≡ turn =
          ground (arith, n.is_turn, ap (λ (x : DisputeData). x.turn) same, is_turn) in
        let same_player : n.player ≡ p = ground (
          arith,
          n.is_player,
          is_player,
          ap (λ (i : ℕ). participant i e.meta.participants) same_turn,
        ) in
        let own =
          (list_beq_iff p.name s.manager.player_name).1
            (ap (λ (x : Participant). x.name) (sym same_player) ∙ n.own) in
        cc (own, other)

    module _ (exists : s.manager.exists ≡ true) (managed : IsManaged s.manager)
        (there : lookup s.manager.board_states.reinit_id s.manager.board_states.reinits
          ≡ some e) where
      -- On a channel that exists no CHECK fails. A resolution with the best known state is sent
      -- exactly if there is an open dispute about the player's own turn for which none is pending,
      -- and the best known state is fresher than the disputed one; otherwise nothing changes.
      pub try_resolve_dispute-Resolves :
          (t : Session rules sv channel_id env) × (try_resolve_dispute rules sv channel_id env s
            ≡ returns t)
          × Resolves t
      unfolding try_resolve_dispute
      try_resolve_dispute-Resolves = elim (Option-cases s.manager.dispute) [
        | inl h ↦ (s, ground (arith, exists, h), inr (λ d n. cc (n.open_dispute, h), refl))
        | inr (d, h) ↦
            let about = managed.disputed d h in
            let same : about.entry ≡ e = ground (arith, about.there, there) in
            let in_range : about.turn < length e.meta.participants =
              subst (λ (x : ReinitData rules). about.turn < length x.meta.participants) same
                about.in_range in
            let (p, is_player) = participant-total about.turn e.meta.participants in_range in
            let meta_known = get_metadata-known rules s.manager.board_states e there in
            let state_known = get_latest_state-known rules s.manager.board_states e there in
            let proof_known = get_state_proof-known rules s.manager.board_states e there in
            elim (Bool-cases (d.pending_resolution == 0)) [
              | inr sent ↦ (
                s,
                ground (arith, exists, h, sent),
                inr (λ d' n. ground (arith, n.open_dispute, n.unsent, h, sent), refl),
              )
              | inl unsent ↦ elim (Bool-cases (p.name == s.manager.player_name)) [
                | inr other ↦ (
                  s,
                  ground (arith, exists, h, unsent, about.is_turn, meta_known, is_player, other),
                  inr (
                    λ d' n. other_player d d' p n h about.turn about.is_turn is_player other,
                    refl,
                  ),
                )
                | inl own ↦ elim (Bool-cases (leb (turn_count e.latest_state) d.count)) [
                  | inl old ↦ (
                    s,
                    ground (
                      arith, exists, h, unsent, about.is_turn, meta_known, is_player, own,
                      state_known, old,
                    ),
                    inr (λ d' n. ground (arith, n.open_dispute, n.fresher, h, old), refl),
                  )
                  | inr fresh ↦ (
                    resolved d,
                    ground (
                      arith, exists, h, unsent, about.is_turn, meta_known, is_player, own,
                      state_known, fresh, managed.on_chain, proof_known,
                    ),
                    inl (
                      d,
                      record {
                        open_dispute = h;
                        unsent = ground (arith, unsent);
                        turn = about.turn;
                        player = p;
                        is_turn = about.is_turn;
                        is_player = is_player;
                        own = (list_beq_iff p.name s.manager.player_name).0 own;
                        fresher = ground (arith, fresh);
                      },
                      refl,
                    ),
                  )
                ]
              ]
            ]
      ]
