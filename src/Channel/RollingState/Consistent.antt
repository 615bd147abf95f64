-- ===== src/Channel/RollingState/Consistent.antt =====
-- The invariant of gamechannel/rollingstate.cpp, and what an off-chain update does.
use libxayagame.Base.{
  ℕ, ◌≤◌, ◌<◌, ◌≡◌, refl, subst, ◌⊎◌, inl, inr, Bool, true, false, some, List, [], leb,
  if◌then◌else◌, list_eq, list_beq_iff, arith, Bool-cases, Option-cases,
}
use libxayagame.Base.Eq.{◌==◌, number_equality, same_refl}
use libxayagame.Base.Map.{lookup, insert, lookup-insert}
use libxayagame.Channel.Types.{
  Bytes, Metadata, metadata_eq, StateProof, accept, Verdict-cases, check_versioned_proto,
}
use libxayagame.Channel.Rules.{BoardRules, Services, IsBoardRules}
use libxayagame.Channel.StateProof.{verify_state_proof, unverified_proof_end_state}
use libxayagame.Channel.StateProof.Proofs.{IsValidProof}
use libxayagame.Channel.StateProof.Valid.{verify_state_proof_iff}
use libxayagame.Channel.StateProof.Checks.{verify_state_proof-ne-abort, IsValidProof-parses}
use libxayagame.Channel.RollingState.{ReinitData, RollingState, set_entry, update_with_move}

module _ (rules : BoardRules) (sv : Services) (channel_id : ℕ) where
  open rules use {Parsed, parse_state, turn_count, proto_version}

  -- The stored state is what the stored proof shows, the proof is valid and of the right version,
  -- and it is at least as fresh as what is known to be on chain.
  pub record IsConsistentEntry (id : Bytes) (e : ReinitData rules) : Type 0 where
    pub keyed : e.meta.reinit ≡ id
    pub valid : IsValidProof rules sv channel_id e.meta e.reinit_state e.proof
    pub versioned : check_versioned_proto (proto_version e.meta) e.proof ≡ true
    pub latest :
        parse_state channel_id e.meta (unverified_proof_end_state e.proof) ≡ some e.latest_state
    pub on_chain : e.on_chain_turn ≤ turn_count e.latest_state

  -- Every entry is consistent, and there is one for the current reinitialisation.
  pub record IsConsistent (st : RollingState rules) : Type 0 where
    pub entries :
        (id : Bytes) (e : ReinitData rules) → lookup id st.reinits ≡ some e → IsConsistentEntry id e
    pub known :
        (st.reinits ≡ []) ⊎ ((e : ReinitData rules) × (lookup st.reinit_id st.reinits ≡ some e))

  -- What a proof must be to change an entry.
  pub record IsFresher (e : ReinitData rules) (proof : StateProof) (p : Parsed) : Type 0 where
    pub versioned : check_versioned_proto (proto_version e.meta) proof ≡ true
    pub valid : IsValidProof rules sv channel_id e.meta e.reinit_state proof
    pub parses : parse_state channel_id e.meta (unverified_proof_end_state proof) ≡ some p
    pub fresher : turn_count e.latest_state < turn_count p

  -- The two outcomes of an off-chain update: nothing changes, or the state of one known
  -- reinitialisation becomes a fresher one that its proof shows.
  pub record HasMoved (st : RollingState rules) (id : Bytes) (proof : StateProof)
      (r : Bool × RollingState rules) : Type 0 where
    pub entry : ReinitData rules
    pub parsed : Parsed
    pub found : lookup id st.reinits ≡ some entry
    pub fresh : IsFresher entry proof parsed
    pub result : r ≡ (
      id == st.reinit_id,
      set_entry rules sv channel_id id (record entry { proof = proof; latest_state = parsed }) st,
    )

  abbrev pub Outcome : RollingState rules → Bytes → StateProof → Bool × RollingState rules → Type 0
  Outcome st id proof r = (r ≡ (false, st)) ⊎ HasMoved st id proof r

  module _ (laws : (meta : Metadata) → IsBoardRules rules channel_id meta) where
    -- If the rules are as documented, an off-chain update passes every CHECK, whatever a peer
    -- sends. It changes nothing, or it replaces the proof and the state of one known
    -- reinitialisation by a valid proof of the right version and the fresher state that the proof
    -- ends with, and reports whether that reinitialisation is the current one.
    pub update_with_move-Outcome :
        (st : RollingState rules) (id : Bytes) (proof : StateProof)
        → (r : Bool × RollingState rules) × (update_with_move rules sv channel_id st id proof
            ≡ accept r)
          × Outcome st id proof r
    unfolding update_with_move
    update_with_move-Outcome st id proof = elim (Option-cases (lookup id st.reinits)) [
      | inl e ↦ ((false, st), rw (e, update_with_move), inl refl)
      | inr (entry, e) ↦
          elim (Bool-cases (check_versioned_proto (proto_version entry.meta) proof)) [
            | inr f ↦ ((false, st), ground (arith, e, f), inl refl)
            | inl f ↦
                elim (Verdict-cases
                  (verify_state_proof rules sv channel_id entry.meta entry.reinit_state proof)) [
                    | inr (inl g) ↦ ((false, st), ground (arith, e, f, g), inl refl)
                    | inr (inr g) ↦ absurd (
                        verify_state_proof-ne-abort rules sv channel_id entry.meta (laws entry.meta)
                          entry.reinit_state proof g)
                    | inl (x, g) ↦
                        let (v, end) =
                          (verify_state_proof_iff rules sv channel_id entry.meta entry.reinit_state
                              proof x).0
                            g in
                        let (p, k) =
                          IsValidProof-parses rules sv channel_id entry.meta (laws entry.meta)
                            entry.reinit_state proof v in
                        elim (Bool-cases (leb (turn_count p) (turn_count entry.latest_state))) [
                          | inl old ↦ ((false, st), ground (arith, e, f, g, end, k, old), inl refl)
                          | inr new ↦ (
                            (
                              id == st.reinit_id,
                              set_entry rules sv channel_id id
                                  (record entry { proof = proof; latest_state = p }) st,
                            ),
                            ground (arith, e, f, g, end, k, new),
                            inr (record {
                              entry = entry;
                              parsed = p;
                              found = e;
                              fresh = record {
                                versioned = f;
                                valid = v;
                                parses = k;
                                fresher = ground (arith, new);
                              };
                              result = refl;
                            }),
                          )
                        ]
                  ]
          ]
    ]

    -- A consistent entry stays so with a fresher state.
    pub fresher-IsConsistentEntry :
        (id : Bytes) (e : ReinitData rules) (proof : StateProof) (p : Parsed)
        → IsConsistentEntry id e
        → IsFresher e proof p
        → IsConsistentEntry id (record e { proof = proof; latest_state = p })
    fresher-IsConsistentEntry id e proof p c f = record {
      keyed = c.keyed;
      valid = f.valid;
      versioned = f.versioned;
      latest = f.parses;
      on_chain = omega (arith, c.on_chain, f.fresher);
    }

  pub entry_lookup :
      (id j : Bytes) (e f : ReinitData rules) (m : List (Bytes × ReinitData rules))
      → lookup j (insert id e m) ≡ some f
      → ((id ≡ j) × (e ≡ f)) ⊎ (lookup j m ≡ some f)
  entry_lookup id j e f m h =
      let now = lookup-insert id j e m in
      elim (Bool-cases (id == j)) [
        | inl hit ↦ inl ((list_beq_iff id j).0 hit, ground (arith, now, hit, h))
        | inr miss ↦ inr (ground (arith, now, miss, h))
      ]

  pub set_entry-IsConsistent :
      (id : Bytes) (e : ReinitData rules) (st : RollingState rules)
      → ((j : Bytes) (f : ReinitData rules) → lookup j st.reinits ≡ some f → IsConsistentEntry j f)
      → IsConsistentEntry id e
      → (id ≡ st.reinit_id) ⊎ ((f : ReinitData rules) × (lookup st.reinit_id st.reinits ≡ some f))
      → IsConsistent (set_entry rules sv channel_id id e st)
  set_entry-IsConsistent id e st old ce here = record {
    entries = λ j f h. elim (entry_lookup id j e f st.reinits h) [
      | inl (same, eq) ↦
          subst (λ k. IsConsistentEntry k f) same (subst (IsConsistentEntry id) eq ce)
      | inr there ↦ old j f there
    ];
    known = inr (elim here [
      | inl same ↦ (e, rw (← same, lookup-insert, same_refl id))
      | inr (f, there) ↦ (
        if id == st.reinit_id then e else f,
        ground (arith, lookup-insert id st.reinit_id e st.reinits, there),
      )
    ]);
  }
