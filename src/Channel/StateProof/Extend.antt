-- ===== src/Channel/StateProof/Extend.antt =====
-- Extending a state proof by a move (gamechannel/stateproof.cpp).
use libxayagame.Base.{
  ℕ, ◌≡◌, refl, sym, ◌∙◌, ap, subst, inl, inr, true, ◌||◌, some, List, [], ◌∷◌, ◌++◌, arith,
  Bool-cases, list_eq,
}
use libxayagame.Base.Eq.{number_equality, same_refl}
use libxayagame.Channel.Types.{
  Bytes, Metadata, SignedData, StateTransition, StateProof, accept, or_reject, or_abort,
  >>=-eq-accept,
}
use libxayagame.Channel.Rules.{BoardRules, Services, IsBoardRules, SignsValidly}
use libxayagame.Channel.Signatures.{
  state_topic, participant, sign_data_for_participant, verify_message,
}
use libxayagame.Channel.StateProof.{
  last_state, unverified_proof_end_state, all_states, proof_of, extend_state_proof,
}
use libxayagame.Channel.StateProof.Chains.{Provable, Provable-suffix, Chain-append}
use libxayagame.Channel.StateProof.Extension.{
  unsigned, new_transition, Extension, Extension-of, Extension-IsTrailing,
}
use libxayagame.Channel.StateProof.Trailing.{AllSigned}
use libxayagame.Channel.StateProof.Proofs.{message_of, signed, signed_any, IsValidProof}

last_state-suffix :
    (x : Bytes) (before : List StateTransition) (t : StateTransition) (ts : List StateTransition)
    → last_state x (before ++ t ∷ ts) ≡ last_state t.new_state.payload ts
unfolding last_state
last_state-suffix x [] t ts = refl
last_state-suffix x (u ∷ us) t ts = last_state-suffix u.new_state.payload us t ts

last_state-append :
    (x : Bytes) (ts : List StateTransition) (t : StateTransition)
    → last_state x (ts ++ t ∷ []) ≡ t.new_state.payload
unfolding last_state
last_state-append x ts t = last_state-suffix x ts t []

signed_any-append :
    (rules : BoardRules) (sv : Services) (channel_id : ℕ) (meta : Metadata) (i : ℕ)
    (ts us : List StateTransition)
    → signed_any rules sv channel_id meta i ts ≡ true
    → signed_any rules sv channel_id meta i (ts ++ us) ≡ true
signed_any-append rules sv channel_id meta i [] us h = cc
signed_any-append rules sv channel_id meta i (t ∷ ts) us h =
    elim (Bool-cases (signed rules sv channel_id meta i t.new_state)) [
      | inl e ↦ rw e refl
      | inr e ↦ rw e (signed_any-append rules sv channel_id meta i ts us (rw e at h))
    ]

module _ (rules : BoardRules) (sv : Services) (channel_id : ℕ) (meta : Metadata)
    (laws : IsBoardRules rules channel_id meta) where
  open rules use {Parsed, parse_state, equals, whose_turn, apply_move}

  -- What the wallet signs counts as signed by the participant.
  signed-sign :
      (i : ℕ) (s : Bytes) (d : SignedData)
      → SignsValidly sv
      → sign_data_for_participant sv channel_id meta state_topic i
          (unsigned rules sv channel_id meta s)
        ≡ accept d
      → (d.payload ≡ s) × (signed rules sv channel_id meta i d ≡ true)
  unfolding sign_data_for_participant verify_message
  signed-sign i s d valid h =
      let (p, e, h1) = >>=-eq-accept (or_abort (participant i meta.participants)) _ h in
      let (sgn, f, h2) =
        >>=-eq-accept
          (or_reject (
            sv.signmessage p.address
              (message_of rules sv channel_id meta (unsigned rules sv channel_id meta s))))
          _ h1 in
      let made : sv.signmessage p.address
            (message_of rules sv channel_id meta (unsigned rules sv channel_id meta s))
          ≡ some sgn =
        ground (arith, f) in
      let (raw, dec, ver) =
        valid p.address (message_of rules sv channel_id meta (unsigned rules sv channel_id meta s))
          sgn made in
      let is_p : participant i meta.participants ≡ some p = ground (arith, e) in
      let is_d : record (unsigned rules sv channel_id meta s) { signatures = raw ∷ [] } ≡ d =
        ground (arith, h2, dec) in
      rw (← is_d) (refl, ground (arith, is_p, ver, same_refl p.address))

  module _ (reinit_state : Bytes) (old new : StateProof) (mv : Bytes) (valid : SignsValidly sv)
      (old_valid : IsValidProof rules sv channel_id meta reinit_state old) where
    all_Provable :
        (x : Extension rules sv channel_id meta old mv new)
        → Provable rules sv channel_id meta laws
            (all_states old (new_transition rules sv channel_id meta mv x.signed_next))
    unfolding unverified_proof_end_state
    all_Provable x =
        let (q, after) =
          laws.applied_parses x.end mv x.next (unverified_proof_end_state old, x.parses)
            x.applies in
        let (payload_eq, signs) = signed-sign x.turn x.next x.signed_next valid x.signs in
        let claims : equals q x.signed_next.payload ≡ true =
          rw payload_eq (laws.parsed_equals x.next q after) in
        (
          old_valid.start,
          old_valid.parses,
          Chain-append rules sv channel_id meta laws old_valid.start old_valid.start x.end q
              old.initial_state.payload old.transitions
              (new_transition rules sv channel_id meta mv x.signed_next)
              (old.initial_state.payload, old_valid.parses) old_valid.parses (λ s. refl)
              old_valid.chain x.parses
              (record {
                turn = x.turn;
                new = x.next;
                is_turn = x.is_turn;
                applies = x.applies;
                parses = after;
                claimed = claims;
                signs = signs;
              }),
        )

    -- Where all states are kept, the agreement on the old proof carries over.
    all_IsValidProof :
        (x : Extension rules sv channel_id meta old mv new)
        → IsValidProof rules sv channel_id meta reinit_state
            (proof_of (all_states old (new_transition rules sv channel_id meta mv x.signed_next)))
    unfolding proof_of
    all_IsValidProof x =
        let (p, parses, chain) = all_Provable x in
        record {
          start = p;
          parses = parses;
          chain = chain;
          agreed = elim old_valid.agreed [
            | inl reinit ↦
                let same : p ≡ old_valid.start = ground (arith, parses, old_valid.parses) in
                inl (rw same reinit)
            | inr agree ↦ inr (λ i l. more i (agree i l))
          ];
        }
      where
        more :
            (i : ℕ)
            → (signed rules sv channel_id meta i old.initial_state
                || signed_any rules sv channel_id meta i old.transitions)
              ≡ true
            → (signed rules sv channel_id meta i old.initial_state
                || signed_any rules sv channel_id meta i (
                    old.transitions
                    ++ new_transition rules sv channel_id meta mv x.signed_next ∷ []))
              ≡ true
        more i h = elim (Bool-cases (signed rules sv channel_id meta i old.initial_state)) [
          | inl e ↦ rw e refl
          | inr e ↦ rw e (
              signed_any-append rules sv channel_id meta i old.transitions
                (new_transition rules sv channel_id meta mv x.signed_next ∷ []) (rw e at h))
        ]

    -- Where fewer states are kept, all participants signed one of them.
    some_IsValidProof :
        (x : Extension rules sv channel_id meta old mv new) (t : StateTransition)
        (ts : List StateTransition)
        → Provable rules sv channel_id meta laws (t ∷ ts)
        → AllSigned rules sv channel_id meta (t ∷ ts)
        → IsValidProof rules sv channel_id meta reinit_state (proof_of (t ∷ ts))
    unfolding proof_of
    some_IsValidProof x t ts (p, parses, chain) agree = record {
      start = p;
      parses = parses;
      chain = chain;
      agreed = inr agree;
    }

    new_IsValidProof :
        (x : Extension rules sv channel_id meta old mv new)
        → IsValidProof rules sv channel_id meta reinit_state new
    new_IsValidProof x =
        let t = Extension-IsTrailing rules sv channel_id meta old new mv x in
        let tr = new_transition rules sv channel_id meta mv x.signed_next in
        elim t.enough [
          | inl e ↦
              let every : all_states old tr ≡ x.states = t.suffix ∙ ap (λ b. b ++ x.states) e in
              subst (IsValidProof rules sv channel_id meta reinit_state)
                (ap proof_of every ∙ x.result) (all_IsValidProof x)
          | inr agree ↦
              subst (IsValidProof rules sv channel_id meta reinit_state)
                (ap proof_of (sym t.states) ∙ x.result)
                (some_IsValidProof x t.first t.rest
                  (Provable-suffix rules sv channel_id meta laws t.before (t.first ∷ t.rest) (
                    subst (Provable rules sv channel_id meta laws)
                      (t.suffix ∙ ap (λ r. t.before ++ r) t.states) (all_Provable x)))
                  (subst (AllSigned rules sv channel_id meta) t.states agree))
        ]

    new_end :
        (x : Extension rules sv channel_id meta old mv new)
        → unverified_proof_end_state new ≡ x.next
    unfolding unverified_proof_end_state proof_of
    new_end x =
        let t = Extension-IsTrailing rules sv channel_id meta old new mv x in
        let tr = new_transition rules sv channel_id meta mv x.signed_next in
        let (payload_eq, _) = signed-sign x.turn x.next x.signed_next valid x.signs in
        let kept : all_states old tr ≡ t.before ++ t.first ∷ t.rest =
          t.suffix ∙ ap (λ r. t.before ++ r) t.states in
        let same : unverified_proof_end_state (proof_of (t.first ∷ t.rest)) ≡ x.next =
          sym (last_state-suffix [] t.before t.first t.rest)
          ∙ ap (last_state []) (sym kept)
          ∙ last_state-append old.initial_state.payload old.transitions tr
          ∙ payload_eq in
        ap unverified_proof_end_state (sym x.result ∙ ap proof_of t.states) ∙ same

    -- If the rules are as documented and the wallet's signatures are valid, the extension of a
    -- valid proof is valid, and ends with what the move makes of the state that the old proof ends
    -- with.
    pub extend_state_proof-IsValidProof :
        extend_state_proof rules sv channel_id meta old mv ≡ accept new
        → IsValidProof rules sv channel_id meta reinit_state new
          × (p : Parsed) × (parse_state channel_id meta (unverified_proof_end_state old) ≡ some p)
          × (apply_move p mv ≡ some (unverified_proof_end_state new))
    extend_state_proof-IsValidProof h =
        let x = Extension-of rules sv channel_id meta old new mv h in
        (new_IsValidProof x, x.end, x.parses, rw (new_end x) x.applies)
