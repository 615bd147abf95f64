-- ===== src/Channel/Manager/LocalMove.antt =====
-- A local move changes the best known state (gamechannel/channelmanager.cpp).
use libxayagame.Base.{
  ℕ, ◌<◌, ◌≡◌, refl, sym, ap, subst, ◌⊎◌, inl, inr, true, false, some, list_eq, arith,
}
use libxayagame.Base.Eq.{number_equality, same_refl}
use libxayagame.Base.Map.{lookup}
use libxayagame.Channel.Types.{
  Bytes, Metadata, StateProof, ProtoVersion, original, accept, reject, Verdict-cases,
  check_versioned_proto,
}
use libxayagame.Channel.Rules.{BoardRules, Services, IsBoardRules, IsParsed, SignsValidly}
use libxayagame.Channel.StateProof.{extend_state_proof, unverified_proof_end_state}
use libxayagame.Channel.StateProof.Proofs.{IsValidProof}
use libxayagame.Channel.StateProof.Valid.{verify_state_proof_iff}
use libxayagame.Channel.StateProof.Checks.{extend_state_proof-ne-abort}
use libxayagame.Channel.StateProof.Extend.{extend_state_proof-IsValidProof}
use libxayagame.Channel.StateProof.Versions.{extend_state_proof-versioned}
use libxayagame.Channel.RollingState.{ReinitData, set_entry, update_fresher, update_with_move}
use libxayagame.Channel.RollingState.Current.{
  get_metadata-known, get_state_proof-known, get_reinit_id-known,
}
use libxayagame.Channel.RollingState.Consistent.{IsConsistent}
use libxayagame.Channel.Manager.{ChannelManager, apply_local_move}

-- What boardrules.hpp says of turn counts: they increase with the moves.
abbrev pub TurnsIncrease : (rules : BoardRules) → ℕ → Type 0
TurnsIncrease rules channel_id =
    (meta : Metadata) (p q : rules.Parsed) (mv s : Bytes)
    → IsParsed rules channel_id meta p
    → rules.apply_move p mv ≡ some s
    → rules.parse_state channel_id meta s ≡ some q
    → rules.turn_count p < rules.turn_count q

module _ (rules : BoardRules) (sv : Services) (channel_id : ℕ)
    (laws : (meta : Metadata) → IsBoardRules rules channel_id meta)
    (increase : TurnsIncrease rules channel_id) (signs : SignsValidly sv) where
  open rules use {Parsed, parse_state, turn_count, proto_version, apply_move}

  -- The move was applied: the new state is that of the current reinitialisation, shown by a valid
  -- proof.
  pub record IsApplied (mv : Bytes) (m n : ChannelManager rules sv channel_id)
      (e : ReinitData rules) : Type 0 where
    pub proof : StateProof
    pub parsed : Parsed
    pub versioned : check_versioned_proto (proto_version e.meta) proof ≡ true
    pub valid : IsValidProof rules sv channel_id e.meta e.reinit_state proof
    pub applies : apply_move e.latest_state mv ≡ some (unverified_proof_end_state proof)
    pub parses : parse_state channel_id e.meta (unverified_proof_end_state proof) ≡ some parsed
    pub fresher : turn_count e.latest_state < turn_count parsed
    pub result : n ≡ record m {
      board_states =
          set_entry rules sv channel_id m.board_states.reinit_id
            (record e { proof = proof; latest_state = parsed })
            m.board_states;
    }

  module _ (mv : Bytes) (m : ChannelManager rules sv channel_id) (e : ReinitData rules)
      (running : (m.stopped ≡ false) × (m.exists ≡ true))
      (c : IsConsistent rules sv channel_id m.board_states)
      (there : lookup m.board_states.reinit_id m.board_states.reinits ≡ some e) where
    version : (v : ProtoVersion) → v ≡ original
    version original = refl

    -- The update with the extended proof succeeds.
    updated :
        (new : StateProof)
        → extend_state_proof rules sv channel_id e.meta e.proof mv ≡ accept new
        → (n : ChannelManager rules sv channel_id) × (update_with_move rules sv channel_id
              m.board_states m.board_states.reinit_id new
            ≡ accept (true, n.board_states))
          × IsApplied mv m n e
    unfolding update_with_move update_fresher
    updated new extends =
        let ce = c.entries m.board_states.reinit_id e there in
        let (v, p, parses, applies) =
          extend_state_proof-IsValidProof rules sv channel_id e.meta (laws e.meta) e.reinit_state
            e.proof new mv signs ce.valid extends in
        let same : p ≡ e.latest_state = ground (arith, parses, ce.latest) in
        let applies_here : apply_move e.latest_state mv ≡ some (unverified_proof_end_state new) =
          subst (λ x. apply_move x mv ≡ some (unverified_proof_end_state new)) same applies in
        let parsed_here : IsParsed rules channel_id e.meta e.latest_state =
          (unverified_proof_end_state e.proof, ce.latest) in
        let (q, after) =
          (laws e.meta).applied_parses e.latest_state mv (unverified_proof_end_state new)
            parsed_here applies_here in
        let grows =
          increase e.meta e.latest_state q mv (unverified_proof_end_state new) parsed_here
            applies_here after in
        let versioned : check_versioned_proto (proto_version e.meta) new ≡ true =
          subst (λ k. check_versioned_proto k new ≡ true) (sym (version (proto_version e.meta)))
            (extend_state_proof-versioned rules sv channel_id e.meta e.proof new mv
              (subst (λ k. check_versioned_proto k e.proof ≡ true) (version (proto_version e.meta))
                ce.versioned)
              extends) in
        let verified =
          (verify_state_proof_iff rules sv channel_id e.meta e.reinit_state new
              (unverified_proof_end_state new)).1
            (v, refl) in
        (
          record m {
            board_states =
                set_entry rules sv channel_id m.board_states.reinit_id
                  (record e { proof = new; latest_state = q }) m.board_states;
          },
          ground
              (arith, there, versioned, verified, after, grows, same_refl m.board_states.reinit_id),
          record {
            proof = new;
            parsed = q;
            versioned = versioned;
            valid = v;
            applies = applies_here;
            parses = after;
            fresher = grows;
            result = refl;
          },
        )

    -- If the rules are as documented, with turn counts that increase, and the wallet's signatures
    -- are valid, then on a channel that exists, with a consistent state and a known current
    -- reinitialisation, a local move fails no CHECK: it is refused and nothing changes, or the best
    -- known state becomes what the move makes of it, fresher and shown by a valid proof.
    pub apply_local_move-IsApplied :
        (apply_local_move rules sv channel_id mv m ≡ reject)
        ⊎ ((n : ChannelManager rules sv channel_id) × (apply_local_move rules sv channel_id mv m
              ≡ accept n)
            × IsApplied mv m n e)
    unfolding apply_local_move
    apply_local_move-IsApplied =
        let meta_known = get_metadata-known rules m.board_states e there in
        let proof_known = get_state_proof-known rules m.board_states e there in
        let id_known = get_reinit_id-known rules m.board_states e there in
        elim (Verdict-cases (extend_state_proof rules sv channel_id e.meta e.proof mv)) [
          | inr (inl refused) ↦
              inl (ground (arith, running, meta_known, proof_known, id_known, refused))
          | inr (inr fails) ↦ absurd (
              extend_state_proof-ne-abort rules sv channel_id e.meta (laws e.meta) e.reinit_state
                e.proof mv signs (c.entries m.board_states.reinit_id e there).valid fails)
          | inl (new, extends) ↦
              let (n, update, applied) = updated new extends in
              inr (
                record m { board_states = n.board_states },
                ground (arith, running, meta_known, proof_known, id_known, extends, update),
                record {
                  proof = applied.proof;
                  parsed = applied.parsed;
                  versioned = applied.versioned;
                  valid = applied.valid;
                  applies = applied.applies;
                  parses = applied.parses;
                  fresher = applied.fresher;
                  result =
                      ap
                        (λ (k : ChannelManager rules sv channel_id). record m {
                          board_states = k.board_states;
                        })
                        applied.result;
                },
              )
        ]
