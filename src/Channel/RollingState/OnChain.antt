-- ===== src/Channel/RollingState/OnChain.antt =====
-- On-chain updates (`UpdateOnChain` in gamechannel/rollingstate.cpp).
use libxayagame.Base.{
  ℕ, ◌≤◌, ◌≡◌, refl, subst, sym, ◌∙◌, inl, inr, Bool, true, not, none, some, List, if◌then◌else◌,
  list_eq, list_beq_iff, arith, Bool-cases, Option-cases,
}
use libxayagame.Base.Eq.{◌==◌, number_equality, same_refl}
use libxayagame.Base.Map.{lookup, insert, lookup-insert}
use libxayagame.Channel.Types.{
  Bytes, Metadata, metadata_eq, metadata_beq_iff, StateProof, accept, check_versioned_proto,
}
use libxayagame.Channel.Rules.{BoardRules, Services, IsBoardRules}
use libxayagame.Channel.StateProof.{unverified_proof_end_state}
use libxayagame.Channel.StateProof.Proofs.{IsValidProof}
use libxayagame.Channel.StateProof.Valid.{verify_state_proof_iff}
use libxayagame.Channel.RollingState.{
  ReinitData, RollingState, set_entry, update_entry, update_on_chain,
}
use libxayagame.Channel.RollingState.Consistent.{
  IsConsistentEntry, IsConsistent, set_entry-IsConsistent,
}
use libxayagame.Channel.RollingState.Moves.{IsNoOlder}
use libxayagame.Channel.RollingState.Updated.{IsFromChain, IsUpdated, update_entry-IsUpdated}

module _ (rules : BoardRules) (sv : Services) (channel_id : ℕ)
    (laws : (meta : Metadata) → IsBoardRules rules channel_id meta) where
  open rules use {Parsed, parse_state, turn_count, proto_version}

  -- What an on-chain update leads to.
  pub record IsSynced (st st' : RollingState rules) (meta : Metadata) (p : Parsed) : Type 0 where
    pub consistent : IsConsistent rules sv channel_id st'
    pub no_older : IsNoOlder rules sv channel_id laws st st'
    pub switched : st'.reinit_id ≡ meta.reinit
    pub entry : ReinitData rules
    pub current_entry : lookup st'.reinit_id st'.reinits ≡ some entry
    pub same_meta : entry.meta ≡ meta
    pub shown : turn_count p ≤ turn_count entry.latest_state
    pub recorded : turn_count p ≤ entry.on_chain_turn

  insert-no_older :
      (id j : Bytes) (f x : ReinitData rules) (m : List (Bytes × ReinitData rules))
      → (lookup id m ≡ some x
          → (f.meta ≡ x.meta)
            × (f.reinit_state ≡ x.reinit_state)
            × (turn_count x.latest_state ≤ turn_count f.latest_state)
            × (x.on_chain_turn ≤ f.on_chain_turn))
      → lookup j m ≡ some x
      → (y : ReinitData rules) × (lookup j (insert id f m) ≡ some y)
        × (y.meta ≡ x.meta)
        × (y.reinit_state ≡ x.reinit_state)
        × (turn_count x.latest_state ≤ turn_count y.latest_state)
        × (x.on_chain_turn ≤ y.on_chain_turn)
  insert-no_older id j f x m keeps there = elim (Bool-cases (id == j)) [
    | inl hit ↦
        let (a, b, l, o) = keeps (rw ((list_beq_iff id j).0 hit) there) in
        (f, rw (lookup-insert, hit), a, b, l, o)
    | inr miss ↦ (x, rw (lookup-insert, miss) there, refl, refl, omega arith, omega arith)
  ]

  module _ (st : RollingState rules) (meta : Metadata) (reinit_state : Bytes) (proof : StateProof)
      (p : Parsed) (c : IsConsistent rules sv channel_id st)
      (h : IsFromChain rules sv channel_id laws st meta reinit_state proof)
      (parses : parse_state channel_id meta (unverified_proof_end_state proof) ≡ some p) where
    moved : RollingState rules
    moved = record st { reinit_id = meta.reinit }

    IsSynced-new :
        (e : ReinitData rules)
        → lookup meta.reinit st.reinits ≡ none
        → e.meta ≡ meta
        → IsConsistentEntry rules sv channel_id meta.reinit e
        → turn_count p ≤ turn_count e.latest_state
        → turn_count p ≤ e.on_chain_turn
        → IsSynced st (set_entry rules sv channel_id meta.reinit e moved) meta p
    unfolding moved
    IsSynced-new e absent of_meta ce shown recorded = record {
      consistent =
          set_entry-IsConsistent rules sv channel_id meta.reinit e moved c.entries ce (inl refl);
      no_older = λ j x there.
          insert-no_older meta.reinit j e x st.reinits (λ k. absurd (ground (arith, k, absent)))
            there;
      switched = refl;
      entry = e;
      current_entry = rw (lookup-insert, same_refl meta.reinit) refl;
      same_meta = of_meta;
      shown = shown;
      recorded = recorded;
    }

    IsSynced-old :
        (e f : ReinitData rules)
        → lookup meta.reinit st.reinits ≡ some e
        → meta ≡ e.meta
        → IsUpdated rules sv channel_id laws meta.reinit e f p
        → IsSynced st (set_entry rules sv channel_id meta.reinit f moved) meta p
    unfolding moved
    IsSynced-old e f there of_meta u = record {
      consistent =
          set_entry-IsConsistent rules sv channel_id meta.reinit f moved c.entries u.consistent
            (inl refl);
      no_older = λ j x k.
          insert-no_older meta.reinit j f x st.reinits
            (λ l.
              let same : e ≡ x = ground (arith, there, l) in
              subst
                (λ (y : ReinitData rules).
                  (f.meta ≡ y.meta)
                  × (f.reinit_state ≡ y.reinit_state)
                  × (turn_count y.latest_state ≤ turn_count f.latest_state)
                  × (y.on_chain_turn ≤ f.on_chain_turn))
                same (u.same_meta, u.same_reinit, u.latest, u.on_chain))
            k;
      switched = refl;
      entry = f;
      current_entry = rw (lookup-insert, same_refl meta.reinit) refl;
      same_meta = u.same_meta ∙ sym of_meta;
      shown = u.shown;
      recorded = u.recorded;
    }

    -- On a consistent state, an update from the chain whose proof is valid and of the right version,
    -- and whose metadata and initial state are those known of its reinitialisation if any are,
    -- passes every CHECK. It leads to a consistent state in which no
    -- known state is older, the reinitialisation and its metadata are those of the update, and its
    -- best state and the recorded on-chain turn are at least as fresh as the update.
    pub update_on_chain-IsSynced :
        (changed : Bool) × (st' : RollingState rules) × (update_on_chain rules sv channel_id st meta
            reinit_state proof
          ≡ accept (changed, st'))
        × IsSynced st st' meta p
    unfolding update_on_chain moved
    update_on_chain-IsSynced =
        let e0 =
          (verify_state_proof_iff rules sv channel_id meta reinit_state proof
              (unverified_proof_end_state proof)).1
            (h.valid, refl) in
        elim (Option-cases (lookup meta.reinit st.reinits)) [
          | inl absent ↦
              let e : ReinitData rules = record {
                meta = meta;
                reinit_state = reinit_state;
                on_chain_turn = turn_count p;
                proof = proof;
                latest_state = p;
              } in
              (
                true,
                set_entry rules sv channel_id meta.reinit e moved,
                ground (arith, h.versioned, e0, absent, parses),
                IsSynced-new e absent refl
                    (record {
                      keyed = refl;
                      valid = h.valid;
                      versioned = h.versioned;
                      latest = parses;
                      on_chain = omega arith;
                    })
                    (omega arith) (omega arith),
              )
          | inr (e, there) ↦
              let (same_meta, same_reinit) = h.unique e there in
              let same_parse : parse_state channel_id e.meta (unverified_proof_end_state proof)
                  ≡ some p =
                subst
                  (λ (m : Metadata).
                    parse_state channel_id m (unverified_proof_end_state proof) ≡ some p)
                  same_meta parses in
              let u =
                update_entry-IsUpdated rules sv channel_id laws meta.reinit e proof p
                  (c.entries meta.reinit e there)
                  (subst (λ (m : Metadata). check_versioned_proto (proto_version m) proof ≡ true)
                    same_meta h.versioned)
                  (subst (λ (m : Metadata). IsValidProof rules sv channel_id m e.reinit_state proof)
                    same_meta
                    (subst (λ x. IsValidProof rules sv channel_id meta x proof) same_reinit
                      h.valid))
                  same_parse in
              (
                if (update_entry rules sv channel_id e proof p).1
                    then true
                    else not (st.reinit_id == meta.reinit),
                set_entry rules sv channel_id meta.reinit
                    (update_entry rules sv channel_id e proof p).0 moved,
                ground (
                  arith,
                  h.versioned,
                  e0,
                  there,
                  same_parse,
                  (metadata_beq_iff meta e.meta).1 same_meta,
                  (list_beq_iff reinit_state e.reinit_state).1 same_reinit,
                ),
                IsSynced-old e (update_entry rules sv channel_id e proof p).0 there same_meta u,
              )
        ]
