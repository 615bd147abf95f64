-- ===== src/Channel/Manager/Events/Blocks.antt =====
-- Blocks and requests of the user keep the invariant of the channel manager
-- (gamechannel/channelmanager.cpp).
use libxayagame.Base.{
  ℕ, suc, ◌<◌, ◌≤◌, ◌≡◌, ◌≢◌, inl, inr, true, false, Option, none, some, leb, if◌then◌else◌, length,
  list_eq, arith, refl, subst, ap, sym, ◌∙◌, Bool-cases, Option-cases,
}
use libxayagame.Base.Eq.{◌==◌, number_equality}
use libxayagame.Channel.Types.{Bytes, Metadata, StateProof}
use libxayagame.Channel.Rules.{BoardRules, Services, IsBoardRules, IsParsed, SignsValidly}
use libxayagame.Channel.StateProof.{unverified_proof_end_state}
use libxayagame.Channel.StateProof.Checks.{IsValidProof-parses}
use libxayagame.Channel.StateProof.Signing.{Signs}
use libxayagame.Channel.RollingState.Current.{
  get_state_proof-known, get_latest_state-known, get_on_chain_turn_count-known,
}
use libxayagame.Channel.RollingState.Updated.{IsFromChain}
use libxayagame.Channel.RollingState.OnChain.{update_on_chain-IsSynced}
use libxayagame.Channel.Manager.{ChannelManager, DisputeData}
use libxayagame.Channel.Manager.LocalMove.{TurnsIncrease}
use libxayagame.Channel.Manager.Environment.{Environment, Session, ProposesMoves, returns}
use libxayagame.Channel.Manager.Updates.{
  int_max, notify_state_change, tell_participants, no_metadata, process_on_chain_non_existant,
  reset_mined_txid, renew_dispute, process_on_chain,
}
use libxayagame.Channel.Manager.Requests.{put_state_on_chain, file_dispute, stop_updates}
use libxayagame.Channel.Manager.Updates.Resolves.{IsManaged}
use libxayagame.Channel.Manager.Updates.Managed.{version-IsManaged, notify_state_change_lem}
use libxayagame.Channel.Manager.Events.Moves.{IsKept, update-IsKept}

module _ (rules : BoardRules) (sv : Services) (channel_id : ℕ) (env : Environment rules)
    (laws : (meta : Metadata) → IsBoardRules rules channel_id meta) where
  open rules use {Parsed, parse_state, whose_turn, turn_count}

  -- Flags and counters that the invariant does not look at.
  flags-IsManaged :
      (m n : ChannelManager rules sv channel_id)
      → IsManaged rules sv channel_id m
      → n.board_states ≡ m.board_states
      → (n.exists ≡ true → m.exists ≡ true)
      → n.dispute ≡ m.dispute
      → n.has_off_chain_sender ≡ m.has_off_chain_sender
      → n.has_on_chain_sender ≡ m.has_on_chain_sender
      → n.state_version ≡ m.state_version
      → IsManaged rules sv channel_id n
  flags-IsManaged m n i states exists disputes off on version = record {
    consistent = rw states i.consistent;
    known = λ h. rw states (i.known (exists h));
    disputed = λ d h.
        let x = i.disputed d (sym disputes ∙ h) in
        record {
          entry = x.entry;
          there = rw states x.there;
          turn = x.turn;
          is_turn = x.is_turn;
          in_range = x.in_range;
        };
    off_chain = off ∙ i.off_chain;
    on_chain = on ∙ i.on_chain;
    version = omega (arith, i.version, version);
  }

  tell_participants_lem :
      (meta : Metadata) (t : Session rules sv channel_id env)
      → (w : env.World) × (tell_participants rules sv channel_id env meta t
          ≡ record t { world = w })
  unfolding tell_participants
  tell_participants_lem meta t = elim (Bool-cases t.manager.has_off_chain_sender) [
    | inl h ↦ (env.set_participants t.world meta, rw h refl)
    | inr h ↦ (t.world, rw h refl)
  ]

  module _ (s : Session rules sv channel_id env) (i : IsManaged rules sv channel_id s.manager)
      (room : s.manager.state_version < int_max) where
    notified-IsKept :
        (t : Session rules sv channel_id env)
        → IsManaged rules sv channel_id t.manager
        → t.manager.state_version ≡ s.manager.state_version
        → IsKept rules sv channel_id env s (notify_state_change rules sv channel_id env t)
    notified-IsKept t j version = (
      record t { manager = record t.manager { state_version = suc t.manager.state_version } },
      notify_state_change_lem rules sv channel_id env t j.version (omega (arith, version, room)),
      version-IsManaged rules sv channel_id t.manager t.manager.state_version j,
      omega (arith, version),
    )

    pub process_on_chain_non_existant-IsKept :
        (blk h : ℕ)
        → IsKept rules sv channel_id env s
            (process_on_chain_non_existant rules sv channel_id env blk h s)
    unfolding process_on_chain_non_existant
    process_on_chain_non_existant-IsKept blk h = elim (Bool-cases s.manager.stopped) [
      | inl stopped ↦ (s, ground (arith, stopped), i, omega arith)
      | inr running ↦
          let n : ChannelManager rules sv channel_id = record s.manager {
            block_hash = blk;
            on_chain_height = h;
            exists = false;
          } in
          let (w, told) =
            tell_participants_lem (no_metadata rules sv channel_id env)
              (record s { manager = n }) in
          let (t, run, managed, version) =
            notified-IsKept (record s { manager = n; world = w })
              (flags-IsManaged s.manager n i refl (λ k. absurd (cc)) refl refl refl refl) refl in
          (t, ground (arith, running, told, run), managed, version)
    ]

    pub stop_updates-IsKept :
        IsKept rules sv channel_id env s (stop_updates rules sv channel_id env s)
    unfolding stop_updates
    stop_updates-IsKept =
        let n : ChannelManager rules sv channel_id = record s.manager { stopped = true } in
        notified-IsKept (record s { manager = n })
          (flags-IsManaged s.manager n i refl (λ h. h) refl refl refl refl) refl

    pub file_dispute-IsKept :
        (x : ℕ) × (t : Session rules sv channel_id env) × (file_dispute rules sv channel_id env s
          ≡ returns (x, t))
        × IsManaged rules sv channel_id t.manager
        × (t.manager.state_version ≡ s.manager.state_version)
    unfolding file_dispute
    file_dispute-IsKept = elim (Bool-cases s.manager.exists) [
      | inr gone ↦ (0, s, ground (arith, gone), i, refl)
      | inl exists ↦ elim (Option-cases s.manager.dispute) [
        | inr (d, h) ↦ (0, s, ground (arith, exists, h), i, refl)
        | inl h ↦ elim (Bool-cases (s.manager.pending_dispute == 0)) [
          | inr sent ↦ (0, s, ground (arith, exists, h, sent), i, refl)
          | inl unsent ↦
              let (e, there) = i.known exists in
              let (txid, world) = env.send_dispute s.world e.proof in
              let n : ChannelManager rules sv channel_id = record s.manager {
                pending_dispute = txid;
              } in
              (
                txid,
                record s { manager = n; world = world },
                ground (
                  arith,
                  exists,
                  h,
                  unsent,
                  i.on_chain,
                  get_state_proof-known rules s.manager.board_states e there,
                ),
                flags-IsManaged s.manager n i refl (λ k. k) refl refl refl refl,
                refl,
              )
        ]
      ]
    ]

    pub put_state_on_chain-IsKept :
        (x : ℕ) × (t : Session rules sv channel_id env) × (put_state_on_chain rules sv channel_id
            env s
          ≡ returns (x, t))
        × IsManaged rules sv channel_id t.manager
        × (t.manager.state_version ≡ s.manager.state_version)
    unfolding put_state_on_chain
    put_state_on_chain-IsKept = elim (Bool-cases s.manager.exists) [
      | inr gone ↦ (0, s, ground (arith, gone), i, refl)
      | inl exists ↦
          let (e, there) = i.known exists in
          let state_known = get_latest_state-known rules s.manager.board_states e there in
          let turn_known = get_on_chain_turn_count-known rules s.manager.board_states e there in
          let proof_known = get_state_proof-known rules s.manager.board_states e there in
          let behind = (i.consistent.entries s.manager.board_states.reinit_id e there).on_chain in
          elim (Bool-cases (leb (turn_count e.latest_state) e.on_chain_turn)) [
            | inl old ↦
                let level : (turn_count e.latest_state == e.on_chain_turn) ≡ true =
                  ground (arith, old, behind) in
                (0, s, ground (arith, exists, state_known, turn_known, old, level), i, refl)
            | inr new ↦
                let (txid, world) = env.send_resolution s.world e.proof in
                let n : ChannelManager rules sv channel_id = record s.manager {
                  pending_put_state_on_chain = txid;
                } in
                (
                  txid,
                  record s { manager = n; world = world },
                  ground (arith, exists, state_known, turn_known, new, i.on_chain, proof_known),
                  flags-IsManaged s.manager n i refl (λ k. k) refl refl refl refl,
                  refl,
                )
          ]
    ]

    reset_mined_txid_lem :
        (txid : ℕ) → (x : ℕ) × (reset_mined_txid rules sv channel_id env s txid ≡ returns x)
    unfolding reset_mined_txid
    reset_mined_txid_lem txid = (
      if txid == 0 then 0 else if env.is_pending s.world txid then txid else 0,
      ground (arith, i.on_chain),
    )

    renew_dispute_lem :
        (meta : Metadata) (proof : StateProof) (h : ℕ) (p : Parsed)
        → parse_state channel_id meta (unverified_proof_end_state proof) ≡ some p
        → (new : Option DisputeData) × (renew_dispute rules sv channel_id env s meta proof h
            ≡ returns new)
          × ((d : DisputeData) → new ≡ some d → (h ≢ 0) × (d.turn ≡ whose_turn p))
    unfolding renew_dispute
    renew_dispute_lem meta proof h p parses = elim (Bool-cases (h == 0)) [
      | inl over ↦ (none, ground (arith, over), λ d k. absurd (cc))
      | inr open_dispute ↦
          let old : ℕ = elim s.manager.dispute [ none ↦ 0 | some d ↦ d.pending_resolution ] in
          let (x, run) = reset_mined_txid_lem old in
          let new : DisputeData = record {
            height = h;
            turn = whose_turn p;
            count = turn_count p;
            pending_resolution = x;
          } in
          (
            some new,
            ground (arith, open_dispute, run, parses),
            λ d k.
                let same : new ≡ d = cc (k) in
                (λ z. ground (arith, open_dispute, z), ap (λ (y : DisputeData). y.turn) (sym same)),
          )
    ]

    module _ (increase : TurnsIncrease rules channel_id) (signs : SignsValidly sv) (keys : Signs sv)
        (proposes : ProposesMoves rules channel_id env) (limit : ℕ)
        (bounded : (meta : Metadata) (p : Parsed)
          → IsParsed rules channel_id meta p
          → turn_count p < limit)
        (fuel : ℕ) (enough : limit ≤ fuel) where
      pub process_on_chain-IsKept :
          (blk h : ℕ) (meta : Metadata) (reinit_state : Bytes) (proof : StateProof) (height : ℕ)
          → IsFromChain rules sv channel_id laws s.manager.board_states meta reinit_state proof
          → ((p : Parsed)
              → parse_state channel_id meta (unverified_proof_end_state proof) ≡ some p
              → height ≢ 0
              → (turn : ℕ) × (whose_turn p ≡ some turn))
          → IsKept rules sv channel_id env s
              (process_on_chain rules sv channel_id env fuel blk h meta reinit_state proof height s)
      unfolding process_on_chain
      process_on_chain-IsKept blk h meta reinit_state proof height from turns =
          elim (Bool-cases s.manager.stopped) [
            | inl stopped ↦ (s, ground (arith, stopped), i, omega arith)
            | inr running ↦
                let (p, parses) =
                  IsValidProof-parses rules sv channel_id meta (laws meta) reinit_state proof
                    from.valid in
                let (put, reset_put) = reset_mined_txid_lem s.manager.pending_put_state_on_chain in
                let (filed, reset_filed) = reset_mined_txid_lem s.manager.pending_dispute in
                let (changed, states, update, synced) =
                  update_on_chain-IsSynced rules sv channel_id laws s.manager.board_states meta
                    reinit_state proof p i.consistent from parses in
                let (new, renewed, about) = renew_dispute_lem meta proof height p parses in
                let n : ChannelManager rules sv channel_id = record s.manager {
                  block_hash = blk;
                  on_chain_height = h;
                  pending_put_state_on_chain = put;
                  pending_dispute = filed;
                  exists = true;
                  board_states = states;
                  dispute = new;
                } in
                let j : IsManaged rules sv channel_id n = record {
                  consistent = synced.consistent;
                  known = λ _. (synced.entry, synced.current_entry);
                  disputed = λ d k.
                      let (open_dispute, same_turn) = about d k in
                      let (turn, is_turn) = turns p parses open_dispute in
                      record {
                        entry = synced.entry;
                        there = synced.current_entry;
                        turn = turn;
                        is_turn = same_turn ∙ is_turn;
                        in_range =
                            subst (λ (x : Metadata). turn < length x.participants)
                              (sym synced.same_meta)
                              ((laws meta).turn_in_range p turn
                                (unverified_proof_end_state proof, parses) is_turn);
                      };
                  off_chain = i.off_chain;
                  on_chain = i.on_chain;
                  version = i.version;
                } in
                let (w, told) = tell_participants_lem meta (record s { manager = n }) in
                let (t, run, managed, version) =
                  update-IsKept rules sv channel_id env laws increase signs keys proposes limit
                    bounded fuel enough (record s { manager = n; world = w }) s false synced.entry
                    (running, refl) j synced.current_entry refl room in
                (
                  t,
                  ground (arith, running, reset_put, reset_filed, update, renewed, told, run),
                  managed,
                  version,
                )
          ]
