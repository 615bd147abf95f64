-- ===== src/Channel/RollingState/Updated.antt =====
-- One entry of the rolling state with newer data from the chain (gamechannel/rollingstate.cpp).
use libxayagame.Base.{ℕ, ◌≤◌, ◌≡◌, refl, inl, inr, true, some, ltb, leb, list_eq, arith, Bool-cases}
use libxayagame.Base.Eq.{number_equality}
use libxayagame.Base.Map.{lookup}
use libxayagame.Channel.Types.{Bytes, Metadata, metadata_eq, StateProof, check_versioned_proto}
use libxayagame.Channel.Rules.{BoardRules, Services, IsBoardRules}
use libxayagame.Channel.StateProof.{unverified_proof_end_state}
use libxayagame.Channel.StateProof.Proofs.{IsValidProof}
use libxayagame.Channel.RollingState.{ReinitData, RollingState, update_entry}
use libxayagame.Channel.RollingState.Consistent.{IsConsistentEntry}

module _ (rules : BoardRules) (sv : Services) (channel_id : ℕ)
    (laws : (meta : Metadata) → IsBoardRules rules channel_id meta) where
  open rules use {Parsed, parse_state, turn_count, proto_version}

  -- What the chain guarantees of its data: the proof is valid and of the right version, and the
  -- reinitialisation ID determines the metadata and the initial state.
  pub record IsFromChain (st : RollingState rules) (meta : Metadata) (reinit_state : Bytes)
      (proof : StateProof) : Type 0 where
    pub versioned : check_versioned_proto (proto_version meta) proof ≡ true
    pub valid : IsValidProof rules sv channel_id meta reinit_state proof
    pub unique :
        (e : ReinitData rules)
        → lookup meta.reinit st.reinits ≡ some e
        → (meta ≡ e.meta) × (reinit_state ≡ e.reinit_state)

  -- What holds of an entry that is updated with a proof of the state `p`.
  pub record IsUpdated (id : Bytes) (e f : ReinitData rules) (p : Parsed) : Type 0 where
    pub consistent : IsConsistentEntry rules sv channel_id id f
    pub same_meta : f.meta ≡ e.meta
    pub same_reinit : f.reinit_state ≡ e.reinit_state
    pub latest : turn_count e.latest_state ≤ turn_count f.latest_state
    pub shown : turn_count p ≤ turn_count f.latest_state
    pub on_chain : e.on_chain_turn ≤ f.on_chain_turn
    pub recorded : turn_count p ≤ f.on_chain_turn

  module _ (id : Bytes) (e : ReinitData rules) (p : Parsed) (turn : ℕ)
      (c : IsConsistentEntry rules sv channel_id id e) (later : e.on_chain_turn ≤ turn)
      (recorded : turn_count p ≤ turn) where
    -- The stored state stays, since it is as fresh as the update.
    IsUpdated-kept :
        turn ≤ turn_count e.latest_state → IsUpdated id e (record e { on_chain_turn = turn }) p
    IsUpdated-kept fresh = record {
      consistent = record {
        keyed = c.keyed;
        valid = c.valid;
        versioned = c.versioned;
        latest = c.latest;
        on_chain = fresh;
      };
      same_meta = refl;
      same_reinit = refl;
      latest = omega arith;
      shown = omega (arith, fresh, recorded);
      on_chain = later;
      recorded = recorded;
    }

    -- The stored state is replaced by the fresher one of the update.
    IsUpdated-replaced :
        (proof : StateProof)
        → turn ≤ turn_count p
        → turn_count e.latest_state ≤ turn_count p
        → check_versioned_proto (proto_version e.meta) proof ≡ true
        → IsValidProof rules sv channel_id e.meta e.reinit_state proof
        → parse_state channel_id e.meta (unverified_proof_end_state proof) ≡ some p
        → IsUpdated id e (record e { on_chain_turn = turn; proof = proof; latest_state = p }) p
    IsUpdated-replaced proof on_chain fresher version valid parses = record {
      consistent = record {
        keyed = c.keyed;
        valid = valid;
        versioned = version;
        latest = parses;
        on_chain = on_chain;
      };
      same_meta = refl;
      same_reinit = refl;
      latest = fresher;
      shown = omega arith;
      on_chain = later;
      recorded = recorded;
    }

  pub update_entry-IsUpdated :
      (id : Bytes) (e : ReinitData rules) (proof : StateProof) (p : Parsed)
      → IsConsistentEntry rules sv channel_id id e
      → check_versioned_proto (proto_version e.meta) proof ≡ true
      → IsValidProof rules sv channel_id e.meta e.reinit_state proof
      → parse_state channel_id e.meta (unverified_proof_end_state proof) ≡ some p
      → IsUpdated id e (update_entry rules sv channel_id e proof p).0 p
  unfolding update_entry
  update_entry-IsUpdated id e proof p c version valid parses =
      let on_chain = c.on_chain in
      elim (Bool-cases (ltb e.on_chain_turn (turn_count p))) [
        | inl later ↦ elim (Bool-cases (leb (turn_count p) (turn_count e.latest_state))) [
          | inl old ↦
              rw (later, old)
                (IsUpdated-kept id e p (turn_count p) c (ground (arith, later)) (omega arith)
                  (ground (arith, old)))
          | inr new ↦
              rw (later, new)
                (IsUpdated-replaced id e p (turn_count p) c (ground (arith, later)) (omega arith)
                  proof (omega arith) (ground (arith, new)) version valid parses)
        ]
        | inr earlier ↦ elim (Bool-cases (leb (turn_count p) (turn_count e.latest_state))) [
          | inl old ↦
              rw (earlier, old)
                (IsUpdated-kept id e p e.on_chain_turn c (omega arith) (ground (arith, earlier))
                  on_chain)
          | inr new ↦ absurd (ground (arith, earlier, new, on_chain))
        ]
      ]
