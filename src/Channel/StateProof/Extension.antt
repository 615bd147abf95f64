-- ===== src/Channel/StateProof/Extension.antt =====
-- The steps of extending a state proof by a move (gamechannel/stateproof.cpp), and that the result
-- is as short as it can be.
use libxayagame.Base.{
  ℕ, ◌≡◌, ◌≢◌, refl, sym, ◌∙◌, ap, subst, ◌⊎◌, inl, inr, false, none, some, List, [], ◌∷◌, ◌++◌,
  arith, list_eq,
}
use mathlib.Core.List.{append-nil}
use libxayagame.Base.Eq.{number_equality}
use libxayagame.Channel.Types.{
  Bytes, Metadata, SignedData, StateTransition, StateProof, accept, or_reject, or_abort,
  >>=-eq-accept, or_abort-eq, or_reject-eq,
}
use libxayagame.Channel.Rules.{BoardRules, Services}
use libxayagame.Channel.Signatures.{state_topic, sign_data_for_participant}
use libxayagame.Channel.StateProof.{
  unverified_proof_end_state, all_states, proof_of, reversed, trailing_states, extend_state_proof,
}
use libxayagame.Channel.StateProof.Trailing.{AllSigned, IsTrailing, trailing_states-IsTrailing}

reversed-reversed :
    (xs ys zs : List StateTransition) → reversed (reversed xs ys) zs ≡ reversed ys (xs ++ zs)
reversed-reversed [] ys zs = refl
reversed-reversed (x ∷ xs) ys zs = reversed-reversed xs (x ∷ ys) zs

reversed-ne : (x : StateTransition) (xs : List StateTransition) → reversed (x ∷ xs) [] ≢ []
reversed-ne x xs e =
    let back = sym (reversed-reversed (x ∷ xs) [] []) ∙ ap (λ l. reversed l []) e in cc back

module _ (rules : BoardRules) (sv : Services) (channel_id : ℕ) (meta : Metadata) where
  open rules use {Parsed, parse_state, equals, whose_turn, apply_move}

  abbrev pub unsigned : Bytes → SignedData
  unsigned s = record { payload = s; signatures = []; for_testing_version = none; unknown = false }

  abbrev pub new_transition : Bytes → SignedData → StateTransition
  new_transition mv d = record { move = mv; new_state = d; unknown = false }

  -- What the steps of a successful extension computed.
  pub record Extension (old : StateProof) (mv : Bytes) (new : StateProof) : Type 0 where
    pub end : Parsed
    pub turn : ℕ
    pub next : Bytes
    pub signed_next : SignedData
    pub states : List StateTransition
    pub parses : parse_state channel_id meta (unverified_proof_end_state old) ≡ some end
    pub is_turn : whose_turn end ≡ some turn
    pub applies : apply_move end mv ≡ some next
    pub signs :
        sign_data_for_participant sv channel_id meta state_topic turn (unsigned next)
        ≡ accept signed_next
    pub trailing :
        trailing_states rules sv channel_id meta
          (reversed (all_states old (new_transition mv signed_next)) [])
          []
          []
        ≡ accept states
    pub result : proof_of states ≡ new

  pub Extension-of :
      (old new : StateProof) (mv : Bytes)
      → extend_state_proof rules sv channel_id meta old mv ≡ accept new
      → Extension old mv new
  unfolding extend_state_proof
  Extension-of old new mv h =
      let (p, e, h1) =
        >>=-eq-accept (or_abort (parse_state channel_id meta (unverified_proof_end_state old))) _
          h in
      let (turn, f, h2) = >>=-eq-accept (or_reject (whose_turn p)) _ h1 in
      let (s, g, h3) = >>=-eq-accept (or_reject (apply_move p mv)) _ h2 in
      let (d, k, h4) =
        >>=-eq-accept (sign_data_for_participant sv channel_id meta state_topic turn (unsigned s)) _
          h3 in
      let (r, l, h5) =
        >>=-eq-accept
          (trailing_states rules sv channel_id meta
            (reversed (all_states old (new_transition mv d)) []) [] [])
          _ h4 in
      record {
        end = p;
        turn = turn;
        next = s;
        signed_next = d;
        states = r;
        parses = or_abort-eq _ e;
        is_turn = or_reject-eq _ f;
        applies = or_reject-eq _ g;
        signs = k;
        trailing = l;
        result = ground (arith, h5);
      }

  pub Extension-IsTrailing :
      (old new : StateProof) (mv : Bytes) (x : Extension old mv new)
      → IsTrailing rules sv channel_id meta
          (all_states old (new_transition mv x.signed_next))
          x.states
  Extension-IsTrailing old new mv x =
      let all = all_states old (new_transition mv x.signed_next) in
      rw (reversed-reversed all [] [], append-nil) at
        (trailing_states-IsTrailing rules sv channel_id meta (reversed all []) [] [] x.states
          (omega arith, λ i. refl) (inl refl)
          (λ e. absurd (reversed-ne _ (old.transitions ++ new_transition mv x.signed_next ∷ []) e))
          x.trailing)

  -- The proof that an extension makes is as short as it can be: it has no transitions, or the
  -- states behind its first one do not have the signatures of all participants.
  pub extend_state_proof-minimal :
      (old new : StateProof) (mv : Bytes)
      → extend_state_proof rules sv channel_id meta old mv ≡ accept new
      → (new.transitions ≡ []) ⊎ (¬ AllSigned rules sv channel_id meta new.transitions)
  unfolding proof_of
  extend_state_proof-minimal old new mv h =
      let x = Extension-of old new mv h in
      let t = Extension-IsTrailing old new mv x in
      let rest_eq : t.rest ≡ new.transitions =
        ap (λ (q : StateProof). q.transitions) (ap proof_of (sym t.states) ∙ x.result) in
      elim t.minimal [
        | inl e ↦ inl (sym rest_eq ∙ e)
        | inr few ↦
            inr (λ every. few (subst (AllSigned rules sv channel_id meta) (sym rest_eq) every))
      ]
