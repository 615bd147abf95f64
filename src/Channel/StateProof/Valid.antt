-- ===== src/Channel/StateProof/Valid.antt =====
-- The checker of gamechannel/stateproof.cpp accepts just the valid proofs.
use libxayagame.Base.{
  ℕ, ◌≡◌, refl, ◌∙◌, ◌↔◌, inl, inr, ◌||◌, some, List, [], ◌∷◌, contains, arith, Bool-cases,
  Option-cases,
}
use libxayagame.Base.Eq.{number_equality}
use libxayagame.Channel.Types.{
  Bytes, Metadata, StateTransition, StateProof, accept, or_reject, >>=-eq-accept,
}
use libxayagame.Channel.Rules.{BoardRules, Services}
use libxayagame.Channel.Signatures.{state_topic, set_union, verify_participant_signatures}
use libxayagame.Channel.Signatures.Sets.{contains-set_union}
use libxayagame.Channel.StateProof.{
  last_state, unverified_proof_end_state, extra_verify_state_transition, verify_transitions,
  verify_state_proof,
}
use libxayagame.Channel.StateProof.Proofs.{
  all_signed_sound, all_signed_complete, signatures_on, verify_participant_signatures_lem,
  contains-signatures_on, IsTransition, Chain, signed_any, IsValidProof,
}

module _ (rules : BoardRules) (sv : Services) (channel_id : ℕ) (meta : Metadata) where
  open rules use {Parsed, parse_state, equals, whose_turn, apply_move}

  pub extra_verify_sound :
      (p q : Parsed) (t : StateTransition) (s : List ℕ)
      → extra_verify_state_transition rules sv channel_id meta p t ≡ accept (s, q)
      → (s ≡ signatures_on rules sv channel_id meta t.new_state)
        × IsTransition rules sv channel_id meta p t q
  unfolding extra_verify_state_transition
  extra_verify_sound p q t s h = elim (Option-cases (whose_turn p)) [
    | inl e ↦ absurd (ground (arith, e))
    | inr (turn, e) ↦ elim (Option-cases (apply_move p t.move)) [
      | inl f ↦ absurd (ground (arith, e, f))
      | inr (new, f) ↦ elim (Option-cases (parse_state channel_id meta new)) [
        | inl g ↦ absurd (ground (arith, e, f, g))
        | inr (r, g) ↦ (
          ground (
            arith,
            e,
            f,
            g,
            h,
            verify_participant_signatures_lem rules sv channel_id meta t.new_state,
          ),
          record {
            turn = turn;
            new = new;
            is_turn = e;
            applies = f;
            parses = ground (
              arith,
              e,
              f,
              g,
              h,
              verify_participant_signatures_lem rules sv channel_id meta t.new_state,
            );
            claimed = ground (
              arith,
              e,
              f,
              g,
              h,
              verify_participant_signatures_lem rules sv channel_id meta t.new_state,
            );
            signs = ground (
              arith,
              e,
              f,
              g,
              h,
              verify_participant_signatures_lem rules sv channel_id meta t.new_state,
              contains-signatures_on rules sv channel_id meta turn t.new_state,
            );
          },
        )
      ]
    ]
  ]

  extra_verify_complete :
      (p q : Parsed) (t : StateTransition)
      → IsTransition rules sv channel_id meta p t q
      → extra_verify_state_transition rules sv channel_id meta p t
        ≡ accept (signatures_on rules sv channel_id meta t.new_state, q)
  unfolding extra_verify_state_transition
  extra_verify_complete p q t h = ground (
    arith,
    h.is_turn,
    h.applies,
    h.parses,
    h.claimed,
    h.signs,
    contains-signatures_on rules sv channel_id meta h.turn t.new_state,
    verify_participant_signatures_lem rules sv channel_id meta t.new_state,
  )

  pub verify_transitions_sound :
      (p : Parsed) (s : List ℕ) (x : Bytes) (ts : List StateTransition) (all : List ℕ) (e : Bytes)
      → verify_transitions rules sv channel_id meta p s x ts ≡ accept (all, e)
      → Chain rules sv channel_id meta p ts
        × (e ≡ last_state x ts)
        × ((i : ℕ) → contains i all ≡ (contains i s || signed_any rules sv channel_id meta i ts))
  unfolding verify_transitions last_state
  verify_transitions_sound p s x [] all e h = (tt, ground (arith, h), λ i. ground (arith, h))
  verify_transitions_sound p s x (t ∷ ts) all e h =
      let ((new, q), g, r) =
        >>=-eq-accept (extra_verify_state_transition rules sv channel_id meta p t) _ h in
      let (signers_eq, tr) = extra_verify_sound p q t new g in
      let (c, e', all') =
        verify_transitions_sound q (set_union new s) t.new_state.payload ts all e r in
      (
        (q, tr, c),
        e',
        λ i. ground (
          arith,
          signers_eq,
          all' i,
          contains-set_union i new s,
          contains-signatures_on rules sv channel_id meta i t.new_state,
        ),
      )

  pub verify_transitions_complete :
      (p : Parsed) (s : List ℕ) (x : Bytes) (ts : List StateTransition)
      → Chain rules sv channel_id meta p ts
      → (all : List ℕ) × (verify_transitions rules sv channel_id meta p s x ts
          ≡ accept (all, last_state x ts))
  unfolding verify_transitions last_state
  verify_transitions_complete p s x [] c = (s, refl)
  verify_transitions_complete p s x (t ∷ ts) (q, tr, c) =
      let (all, e) =
        verify_transitions_complete q
          (set_union (signatures_on rules sv channel_id meta t.new_state) s) t.new_state.payload ts
          c in
      (all, ground (arith, extra_verify_complete p q t tr, e))

  module _ (reinit_state : Bytes) (proof : StateProof) (e : Bytes) where
    sound :
        verify_state_proof rules sv channel_id meta reinit_state proof ≡ accept e
        → IsValidProof rules sv channel_id meta reinit_state proof
          × (e ≡ unverified_proof_end_state proof)
    unfolding verify_state_proof unverified_proof_end_state
    sound h =
        let (first, f, h1) =
          >>=-eq-accept
            (verify_participant_signatures sv channel_id meta state_topic proof.initial_state) _
            h in
        let (p, g, h2) =
          >>=-eq-accept (or_reject (parse_state channel_id meta proof.initial_state.payload)) _
            h1 in
        let ((all, x), k, h3) =
          >>=-eq-accept
            (verify_transitions rules sv channel_id meta p first proof.initial_state.payload
              proof.transitions)
            _ h2 in
        let (c, e', all') =
          verify_transitions_sound p first proof.initial_state.payload proof.transitions all x k in
        let parsed : parse_state channel_id meta proof.initial_state.payload ≡ some p =
          ground (arith, g) in
        let same : first ≡ signatures_on rules sv channel_id meta proof.initial_state = ground (
          arith,
          f,
          verify_participant_signatures_lem rules sv channel_id meta proof.initial_state,
        ) in
        elim (Bool-cases (equals p reinit_state)) [
          | inl yes_reinit ↦ (
            record { start = p; parses = parsed; chain = c; agreed = inl yes_reinit },
            ground (arith, yes_reinit, h3, e'),
          )
          | inr no_reinit ↦ (
            record {
              start = p;
              parses = parsed;
              chain = c;
              agreed = inr (λ i l. ground (
                arith,
                all' i,
                same,
                no_reinit,
                h3,
                contains-signatures_on rules sv channel_id meta i proof.initial_state,
                all_signed_sound 0 i meta.participants all,
              ));
            },
            ground (arith, no_reinit, h3, e'),
          )
        ]

    complete :
        IsValidProof rules sv channel_id meta reinit_state proof
        → e ≡ unverified_proof_end_state proof
        → verify_state_proof rules sv channel_id meta reinit_state proof ≡ accept e
    unfolding verify_state_proof unverified_proof_end_state
    complete v h =
        let first = signatures_on rules sv channel_id meta proof.initial_state in
        let (all, k) =
          verify_transitions_complete v.start first proof.initial_state.payload proof.transitions
            v.chain in
        let (_, _, all') =
          verify_transitions_sound v.start first proof.initial_state.payload proof.transitions all
            (last_state proof.initial_state.payload proof.transitions) k in
        elim v.agreed [
          | inl yes_reinit ↦ ground (
            arith,
            verify_participant_signatures_lem rules sv channel_id meta proof.initial_state,
            v.parses,
            k,
            yes_reinit,
            h,
          )
          | inr agree ↦ ground (
            arith,
            verify_participant_signatures_lem rules sv channel_id meta proof.initial_state,
            v.parses,
            k,
            h,
            all_signed_complete 0 meta.participants all (λ j l u.
                all' j
                ∙ (rw (contains-signatures_on rules sv channel_id meta j proof.initial_state)
                    (agree j (omega arith)))),
          )
        ]

    -- The checker accepts a proof, with an end state, exactly when the proof is valid and that is
    -- the state that the proof ends with.
    pub verify_state_proof_iff :
        (verify_state_proof rules sv channel_id meta reinit_state proof ≡ accept e) ↔ (
          IsValidProof rules sv channel_id meta reinit_state proof
          × (e ≡ unverified_proof_end_state proof))
    verify_state_proof_iff = (sound, λ v. complete v.0 v.1)
