-- ===== src/Channel/StateProof/Checks.antt =====
-- The CHECKs in `ExtendStateProof` (gamechannel/stateproof.cpp) hold on valid proofs.
use libxayagame.Base.{
  ℕ, zero, suc, ◌<◌, ◌≡◌, ◌≢◌, refl, inl, inr, false, none, some, List, [], ◌∷◌, length, arith,
  Bool-cases, Option-cases,
}
use libxayagame.Base.Eq.{◌==◌, number_equality}
use libxayagame.Channel.Types.{
  Bytes, Participant, Metadata, SignedData, StateTransition, StateProof, accept, abort,
  Verdict-cases,
}
use libxayagame.Channel.Rules.{BoardRules, Services, IsParsed, IsBoardRules, SignsValidly}
use libxayagame.Channel.Signatures.{set_union, participant, sign_data_for_participant}
use libxayagame.Channel.Signatures.Sets.{length-Ascending}
use libxayagame.Channel.StateProof.{
  last_state, unverified_proof_end_state, all_states, reversed, trailing_states, extend_state_proof,
  extra_verify_state_transition, verify_transitions, verify_state_proof,
}
use libxayagame.Channel.StateProof.Trailing.{Signatures, Signatures-more}
use libxayagame.Channel.StateProof.Proofs.{
  message_of, signatures_on, verify_participant_signatures_lem, Chain, IsValidProof,
}
use libxayagame.Channel.StateProof.Valid.{extra_verify_sound}

pub participant-total :
    (i : ℕ) (ps : List Participant)
    → i < length ps
    → (p : Participant) × (participant i ps ≡ some p)
participant-total i [] h = absurd (omega arith)
participant-total zero (p ∷ ps) h = (p, refl)
participant-total (suc i) (p ∷ ps) h = participant-total i ps (omega arith)

module _ (rules : BoardRules) (sv : Services) (channel_id : ℕ) (meta : Metadata) where
  open rules use {Parsed, parse_state, equals, whose_turn, apply_move}

  pub trailing_states-accepts :
      (before later : List StateTransition) (s : List ℕ)
      → Signatures rules sv channel_id meta s later
      → (r : List StateTransition) × (trailing_states rules sv channel_id meta before later s
          ≡ accept r)
  unfolding trailing_states
  trailing_states-accepts [] later s sig = (later, refl)
  trailing_states-accepts (t ∷ before) later s sig =
      let new = signatures_on rules sv channel_id meta t.new_state in
      let s' = set_union new s in
      let sig' = Signatures-more rules sv channel_id meta t later s sig in
      let small = length-Ascending 0 (length meta.participants) s' sig'.0 in
      let signs = verify_participant_signatures_lem rules sv channel_id meta t.new_state in
      elim (Bool-cases (length s' == length meta.participants)) [
        | inl full ↦ (t ∷ later, ground (arith, full, small, signs))
        | inr more ↦
            let (r, e) = trailing_states-accepts before (t ∷ later) s' sig' in
            (r, ground (arith, more, small, signs, e))
      ]

  module _ (laws : IsBoardRules rules channel_id meta) where
    last_state-parses :
        (p p' : Parsed) (x : Bytes) (ts : List StateTransition)
        → parse_state channel_id meta x ≡ some p'
        → Chain rules sv channel_id meta p ts
        → (r : Parsed) × (parse_state channel_id meta (last_state x ts) ≡ some r)
    unfolding last_state
    last_state-parses p p' x [] e c = (p', e)
    last_state-parses p p' x (t ∷ ts) e (q, tr, c) =
        let (q', parses, _) =
          laws.equals_parses q t.new_state.payload (tr.new, tr.parses) tr.claimed in
        last_state-parses q q' t.new_state.payload ts parses c

    -- If the rules are as documented and the wallet's signatures are valid, the extension of a
    -- valid proof fails no CHECK: it is refused or it succeeds.
    pub extend_state_proof-ne-abort :
        (reinit_state : Bytes) (old : StateProof) (mv : Bytes)
        → SignsValidly sv
        → IsValidProof rules sv channel_id meta reinit_state old
        → extend_state_proof rules sv channel_id meta old mv ≢ abort
    unfolding extend_state_proof unverified_proof_end_state sign_data_for_participant
    extend_state_proof-ne-abort reinit_state old mv valid v h =
        let (p, parses) =
          last_state-parses v.start v.start old.initial_state.payload old.transitions v.parses
            v.chain in
        elim (Option-cases (whose_turn p)) [
          | inl e ↦ ground (arith, parses, e, h)
          | inr (turn, e) ↦ elim (Option-cases (apply_move p mv)) [
            | inl f ↦ ground (arith, parses, e, f, h)
            | inr (next, f) ↦
                let (who, g) = participant-total turn meta.participants (
                  laws.turn_in_range p turn
                    (last_state old.initial_state.payload old.transitions, parses) e) in
                let unsigned : SignedData = record {
                  payload = next;
                  signatures = [];
                  for_testing_version = none;
                  unknown = false;
                } in
                let msg = message_of rules sv channel_id meta unsigned in
                elim (Option-cases (sv.signmessage who.address msg)) [
                  | inl k ↦ ground (arith, parses, e, f, g, k, h)
                  | inr (sgn, k) ↦
                      let (raw, l, _) = valid who.address msg sgn k in
                      let (r, m) =
                        trailing_states-accepts
                          (reversed
                            (all_states old (record {
                              move = mv;
                              new_state = record unsigned { signatures = raw ∷ [] };
                              unknown = false;
                            }))
                            [])
                          [] [] (omega arith, λ i. refl) in
                      ground (arith, parses, e, f, g, k, l, m, h)
                ]
          ]
        ]

    extra_verify-ne-abort :
        (p : Parsed) (t : StateTransition)
        → IsParsed rules channel_id meta p
        → extra_verify_state_transition rules sv channel_id meta p t ≢ abort
    unfolding extra_verify_state_transition
    extra_verify-ne-abort p t pp h = elim (Option-cases (whose_turn p)) [
      | inl e ↦ ground (arith, e, h)
      | inr (turn, e) ↦ elim (Option-cases (apply_move p t.move)) [
        | inl f ↦ ground (arith, e, f, h)
        | inr (next, f) ↦
            let (q, g) = laws.applied_parses p t.move next pp f in
            ground (
              arith,
              e,
              f,
              g,
              h,
              verify_participant_signatures_lem rules sv channel_id meta t.new_state,
            )
      ]
    ]

    verify_transitions-ne-abort :
        (p : Parsed) (s : List ℕ) (x : Bytes) (ts : List StateTransition)
        → IsParsed rules channel_id meta p
        → verify_transitions rules sv channel_id meta p s x ts ≢ abort
    unfolding verify_transitions
    verify_transitions-ne-abort p s x [] pp h = cc
    verify_transitions-ne-abort p s x (t ∷ ts) pp h =
        elim (Verdict-cases (extra_verify_state_transition rules sv channel_id meta p t)) [
          | inl ((new, q), e) ↦
              let tr = (extra_verify_sound rules sv channel_id meta p q t new e).1 in
              verify_transitions-ne-abort q (set_union new s) t.new_state.payload ts
                (tr.new, tr.parses) (ground (arith, e, h))
          | inr (inl e) ↦ ground (arith, e, h)
          | inr (inr e) ↦ extra_verify-ne-abort p t pp e
        ]

    -- If the rules are as documented, no state proof, however wrong, makes the checker fail a
    -- CHECK.
    pub verify_state_proof-ne-abort :
        (reinit_state : Bytes) (proof : StateProof)
        → verify_state_proof rules sv channel_id meta reinit_state proof ≢ abort
    unfolding verify_state_proof
    verify_state_proof-ne-abort reinit_state proof h =
        let first = signatures_on rules sv channel_id meta proof.initial_state in
        let signs =
          verify_participant_signatures_lem rules sv channel_id meta proof.initial_state in
        elim (Option-cases (parse_state channel_id meta proof.initial_state.payload)) [
          | inl e ↦ ground (arith, signs, e, h)
          | inr (p, e) ↦
              elim (Verdict-cases (
                verify_transitions rules sv channel_id meta p first proof.initial_state.payload
                  proof.transitions)) [
                    | inl (r, f) ↦ ground (arith, signs, e, f, h)
                    | inr (inl f) ↦ ground (arith, signs, e, f, h)
                    | inr (inr f) ↦
                        verify_transitions-ne-abort p first proof.initial_state.payload
                          proof.transitions (proof.initial_state.payload, e) f
                  ]
        ]

    -- What a valid proof ends with parses.
    pub IsValidProof-parses :
        (reinit_state : Bytes) (proof : StateProof)
        → IsValidProof rules sv channel_id meta reinit_state proof
        → (p : Parsed) × (parse_state channel_id meta (unverified_proof_end_state proof) ≡ some p)
    unfolding unverified_proof_end_state
    IsValidProof-parses reinit_state proof v =
        last_state-parses v.start v.start proof.initial_state.payload proof.transitions v.parses
          v.chain
