-- ===== src/Channel/StateProof/Trailing.antt =====
-- The trailing states that `ExtendStateProof` keeps (gamechannel/stateproof.cpp).
use libxayagame.Base.{
  ℕ, ◌<◌, ◌≡◌, ◌≢◌, refl, sym, ◌∙◌, ◌⊎◌, inl, inr, true, false, List, [], ◌∷◌, ◌++◌, contains,
  length, arith, Bool-cases,
}
use mathlib.Core.List.{append_assoc}
use libxayagame.Base.Eq.{◌==◌, number_equality}
use libxayagame.Channel.Types.{Metadata, StateTransition, accept, >>=-eq-accept}
use libxayagame.Channel.Rules.{BoardRules, Services}
use libxayagame.Channel.Signatures.{state_topic, set_union, verify_participant_signatures}
use libxayagame.Channel.Signatures.Sets.{
  contains-set_union, Ascending, indices_of-Ascending, set_union-Ascending, contains_of_full,
  length-Ascending, length_of_all,
}
use libxayagame.Channel.StateProof.{reversed, trailing_states}
use libxayagame.Channel.StateProof.Proofs.{
  signed, signatures_on, contains-signatures_on, verify_participant_signatures_lem, signed_any,
}

module _ (rules : BoardRules) (sv : Services) (channel_id : ℕ) (meta : Metadata) where
  -- Every participant has signed one of the states.
  abbrev pub AllSigned : List StateTransition → Type 0
  AllSigned ts =
      (i : ℕ) → i < length meta.participants → signed_any rules sv channel_id meta i ts ≡ true

  abbrev pub Signatures : List ℕ → List StateTransition → Type 0
  Signatures s ts =
      Ascending 0 (length meta.participants) s
      × ((i : ℕ) → contains i s ≡ signed_any rules sv channel_id meta i ts)

  pub Signatures-more :
      (t : StateTransition) (ts : List StateTransition) (s : List ℕ)
      → Signatures s ts
      → Signatures (set_union (signatures_on rules sv channel_id meta t.new_state) s) (t ∷ ts)
  Signatures-more t ts s (a, c) = (
    set_union-Ascending 0 (length meta.participants)
        (signatures_on rules sv channel_id meta t.new_state) s
        (indices_of-Ascending 0 (length meta.participants) meta.participants _ (omega arith)) a,
    λ i. ground (
      arith,
      c i,
      contains-set_union i (signatures_on rules sv channel_id meta t.new_state) s,
      contains-signatures_on rules sv channel_id meta i t.new_state,
    ),
  )

  -- What the loop ends with: all states, or fewer, on which all participants have signed, and not
  -- so without the first of them.
  pub record IsTrailing (all r : List StateTransition) : Type 0 where
    pub first : StateTransition
    pub rest : List StateTransition
    pub before : List StateTransition
    pub states : r ≡ first ∷ rest
    pub suffix : all ≡ before ++ r
    pub enough : (before ≡ []) ⊎ AllSigned r
    pub minimal : (rest ≡ []) ⊎ (¬ AllSigned rest)

  AllSigned-more :
      (t : StateTransition) (ts : List StateTransition) → AllSigned ts → AllSigned (t ∷ ts)
  AllSigned-more t ts h i l =
      let signs = h i l in
      elim (Bool-cases (signed rules sv channel_id meta i t.new_state)) [
        | inl e ↦ ground (arith, e)
        | inr e ↦ ground (arith, e, signs)
      ]

  AllSigned-full :
      (ts : List StateTransition) (s : List ℕ)
      → Signatures s ts
      → (length s == length meta.participants) ≡ true
      → AllSigned ts
  AllSigned-full ts s (a, c) e i l =
      sym (c i)
      ∙ contains_of_full 0 (length meta.participants) i s a (ground (arith, e)) (omega arith) l

  AllSigned-not_full :
      (ts : List StateTransition) (s : List ℕ)
      → Signatures s ts
      → (length s == length meta.participants) ≡ false
      → ¬ AllSigned ts
  AllSigned-not_full ts s (a, c) e h =
      let full = length_of_all 0 (length meta.participants) s a (λ j _ u. c j ∙ h j u) in
      ground (arith, full, e)

  reversed-append : (xs ys : List StateTransition) → reversed xs ys ≡ reversed xs [] ++ ys
  reversed-append [] ys = refl
  reversed-append (x ∷ xs) ys =
      reversed-append xs (x ∷ ys)
      ∙ rw (reversed-append xs (x ∷ [])) (sym (append_assoc (reversed xs []) (x ∷ []) ys))

  pub trailing_states-IsTrailing :
      (before later : List StateTransition) (s : List ℕ) (r : List StateTransition)
      → Signatures s later
      → (later ≡ []) ⊎ (¬ AllSigned later)
      → ((before ≡ []) → later ≢ [])
      → trailing_states rules sv channel_id meta before later s ≡ accept r
      → IsTrailing (reversed before later) r
  unfolding trailing_states
  trailing_states-IsTrailing [] [] s r sig few ne h = absurd (ne refl refl)
  trailing_states-IsTrailing [] (t ∷ later) s r sig few ne h = record {
    first = t;
    rest = later;
    before = [];
    states = ground (arith, h);
    suffix = ground (arith, h);
    enough = inl refl;
    minimal = inr (λ f. elim few [ inl e ↦ cc | inr no_all ↦ no_all (AllSigned-more t later f) ]);
  }
  trailing_states-IsTrailing (t ∷ before) later s r sig few ne h =
      let (new, e, h1) =
        >>=-eq-accept (verify_participant_signatures sv channel_id meta state_topic t.new_state) _
          h in
      let same : new ≡ signatures_on rules sv channel_id meta t.new_state =
        ground (arith, e, verify_participant_signatures_lem rules sv channel_id meta t.new_state) in
      let s' = set_union new s in
      let sig' : Signatures s' (t ∷ later) = rw same (Signatures-more t later s sig) in
      let small = length-Ascending 0 (length meta.participants) s' sig'.0 in
      elim (Bool-cases (length s' == length meta.participants)) [
        | inl full ↦
            let now : t ∷ later ≡ r = ground (arith, h1, full, small) in
            record {
              first = t;
              rest = later;
              before = reversed before [];
              states = sym now;
              suffix = rw (← now) (reversed-append before (t ∷ later));
              enough = inr (rw (← now) (AllSigned-full (t ∷ later) s' sig' full));
              minimal = few;
            }
        | inr more ↦
            trailing_states-IsTrailing before (t ∷ later) s' r sig'
              (inr (AllSigned-not_full (t ∷ later) s' sig' more)) (λ _ x. cc)
              (ground (arith, h1, more, small))
      ]
