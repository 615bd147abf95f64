-- ===== src/Channel/StateProof/Versions.antt =====
-- The version of the proofs that `ExtendStateProof` makes (gamechannel/stateproof.cpp and
-- gamechannel/protoversion.cpp).
use libxayagame.Base.{
  ℕ, ◌≡◌, refl, sym, ◌∙◌, ap, subst, true, false, none, List, [], ◌∷◌, ◌++◌, arith, All,
}
use libxayagame.Channel.Types.{
  Bytes, Metadata, SignedData, StateTransition, StateProof, original, check_signed_version,
  check_transitions_version, check_proof_version, has_any_unknown_fields, check_versioned_proto,
  any_unknown, accept, >>=-eq-accept, or_abort, or_reject,
}
use libxayagame.Channel.Rules.{BoardRules, Services}
use libxayagame.Channel.Signatures.{participant, sign_data_for_participant, state_topic}
use libxayagame.Channel.StateProof.{all_states, proof_of, extend_state_proof}
use libxayagame.Channel.StateProof.Proofs.{message_of}
use libxayagame.Channel.StateProof.Extension.{
  unsigned, new_transition, Extension-of, Extension-IsTrailing,
}

-- Data of the original version, without unknown fields.
abbrev pub IsPlain : SignedData → Type 0
IsPlain d = (d.unknown ≡ false) × (d.for_testing_version ≡ none)

abbrev pub IsPlainStep : StateTransition → Type 0
IsPlainStep t = (t.unknown ≡ false) × IsPlain t.new_state

IsPlainStep-of :
    (ts : List StateTransition)
    → any_unknown ts ≡ false
    → check_transitions_version original ts ≡ true
    → All IsPlainStep ts
unfolding check_transitions_version check_signed_version
IsPlainStep-of [] u v = tt
IsPlainStep-of (t ∷ ts) u v =
    (ground (arith, u, v), IsPlainStep-of ts (ground (arith, u)) (ground (arith, v)))

plain_steps :
    (ts : List StateTransition)
    → All IsPlainStep ts
    → (any_unknown ts ≡ false) × (check_transitions_version original ts ≡ true)
unfolding check_transitions_version check_signed_version
plain_steps [] a = (refl, refl)
plain_steps (t ∷ ts) a =
    let (u, v) = plain_steps ts a.1 in (ground (arith, a.0, u), ground (arith, a.0, v))

All-append :
    (xs ys : List StateTransition)
    → All IsPlainStep xs
    → All IsPlainStep ys
    → All IsPlainStep (xs ++ ys)
All-append [] ys a b = b
All-append (x ∷ xs) ys a b = (a.0, All-append xs ys a.1 b)

All-behind : (xs ys : List StateTransition) → All IsPlainStep (xs ++ ys) → All IsPlainStep ys
All-behind [] ys a = a
All-behind (x ∷ xs) ys a = All-behind xs ys a.1

check_versioned-IsPlain :
    (proof : StateProof)
    → check_versioned_proto original proof ≡ true
    → IsPlain proof.initial_state × All IsPlainStep proof.transitions
unfolding check_versioned_proto has_any_unknown_fields check_proof_version check_signed_version
check_versioned-IsPlain proof h =
    (ground (arith, h), IsPlainStep-of proof.transitions (ground (arith, h)) (ground (arith, h)))

plain-check_versioned :
    (t : StateTransition) (ts : List StateTransition)
    → IsPlain t.new_state
    → All IsPlainStep ts
    → check_versioned_proto original (proof_of (t ∷ ts)) ≡ true
unfolding check_versioned_proto has_any_unknown_fields check_proof_version check_signed_version
    proof_of
plain-check_versioned t ts p a = let (u, v) = plain_steps ts a in ground (arith, p, u, v)

module _ (rules : BoardRules) (sv : Services) (channel_id : ℕ) (meta : Metadata) where
  signed-IsPlain :
      (i : ℕ) (s : Bytes) (d : SignedData)
      → sign_data_for_participant sv channel_id meta state_topic i
          (unsigned rules sv channel_id meta s)
        ≡ accept d
      → IsPlain d
  unfolding sign_data_for_participant
  signed-IsPlain i s d h =
      let (p, e, h1) = >>=-eq-accept (or_abort (participant i meta.participants)) _ h in
      let message = message_of rules sv channel_id meta (unsigned rules sv channel_id meta s) in
      let (sgn, f, h2) = >>=-eq-accept (or_reject (sv.signmessage p.address message)) _ h1 in
      let (raw, g, h3) = >>=-eq-accept (or_abort (sv.decode_base64 sgn)) _ h2 in ground (arith, h3)

  -- The extension of a proof of the right version, without unknown fields, is such a proof.
  pub extend_state_proof-versioned :
      (old new : StateProof) (mv : Bytes)
      → check_versioned_proto original old ≡ true
      → extend_state_proof rules sv channel_id meta old mv ≡ accept new
      → check_versioned_proto original new ≡ true
  extend_state_proof-versioned old new mv v h =
      let x = Extension-of rules sv channel_id meta old new mv h in
      let t = Extension-IsTrailing rules sv channel_id meta old new mv x in
      let (first, steps) = check_versioned-IsPlain old v in
      let all : All IsPlainStep
          (all_states old (new_transition rules sv channel_id meta mv x.signed_next)) =
        (
          (refl, first),
          All-append old.transitions (new_transition rules sv channel_id meta mv x.signed_next ∷ [])
              steps ((refl, signed-IsPlain x.turn x.next x.signed_next x.signs), tt),
        ) in
      let rest : All IsPlainStep (t.first ∷ t.rest) =
        subst (All IsPlainStep) t.states
          (All-behind t.before x.states (subst (All IsPlainStep) t.suffix all)) in
      subst (λ p. check_versioned_proto original p ≡ true) (ap proof_of (sym t.states) ∙ x.result)
        (plain-check_versioned t.first t.rest rest.0.1 rest.1)
