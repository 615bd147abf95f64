-- ===== src/Channel/StateProof/Chains.antt =====
-- Chains of state transitions, and the later states from which they can be proved as well
-- (gamechannel/stateproof.cpp).
use libxayagame.Base.{ℕ, ◌≡◌, sym, ◌∙◌, some, List, [], ◌∷◌, ◌++◌, arith, list_eq}
use libxayagame.Base.Eq.{number_equality}
use libxayagame.Channel.Types.{Bytes, Metadata, StateTransition}
use libxayagame.Channel.Rules.{BoardRules, Services, Same, IsParsed, IsBoardRules}
use libxayagame.Channel.StateProof.{last_state}
use libxayagame.Channel.StateProof.Proofs.{IsTransition, Chain}

module _ (rules : BoardRules) (sv : Services) (channel_id : ℕ) (meta : Metadata)
    (laws : IsBoardRules rules channel_id meta) where
  open rules use {Parsed, parse_state, equals, whose_turn, apply_move}

  pub IsTransition-Same :
      (p p' q : Parsed) (t : StateTransition)
      → IsParsed rules channel_id meta p
      → IsParsed rules channel_id meta p'
      → Same rules p p'
      → IsTransition rules sv channel_id meta p t q
      → (q' : Parsed) × IsTransition rules sv channel_id meta p' t q' × Same rules q q'
  IsTransition-Same p p' q t pp pp' same tr =
      let (new, q', applies, parses, same') =
        laws.same_apply p p' q t.move tr.new pp pp' same tr.applies tr.parses in
      (
        q',
        record {
          turn = tr.turn;
          new = new;
          is_turn = sym (laws.same_turn p p' pp pp' same) ∙ tr.is_turn;
          applies = applies;
          parses = parses;
          claimed = sym (same' t.new_state.payload) ∙ tr.claimed;
          signs = tr.signs;
        },
        same',
      )

  pub Chain-Same :
      (p p' : Parsed) (ts : List StateTransition)
      → IsParsed rules channel_id meta p
      → IsParsed rules channel_id meta p'
      → Same rules p p'
      → Chain rules sv channel_id meta p ts
      → Chain rules sv channel_id meta p' ts
  Chain-Same p p' [] pp pp' same c = tt
  Chain-Same p p' (t ∷ ts) pp pp' same (q, tr, c) =
      let (q', tr', same') = IsTransition-Same p p' q t pp pp' same tr in
      (q', tr', Chain-Same q q' ts (tr.new, tr.parses) (tr'.new, tr'.parses) same' c)

  -- The states can be proved from the first one on.
  abbrev pub Provable : List StateTransition → Type 0
  Provable [] = Unit {0}
  Provable (t ∷ ts) =
      (q : Parsed) × (parse_state channel_id meta t.new_state.payload ≡ some q)
      × Chain rules sv channel_id meta q ts

  pub Provable-tail :
      (t : StateTransition) (ts : List StateTransition) → Provable (t ∷ ts) → Provable ts
  Provable-tail t [] h = tt
  Provable-tail t (u ∷ us) (p, _, (q, tr, c)) =
      let (q', parses, same) =
        laws.equals_parses q u.new_state.payload (tr.new, tr.parses) tr.claimed in
      (q', parses, Chain-Same q q' us (tr.new, tr.parses) (u.new_state.payload, parses) same c)

  pub Provable-suffix :
      (before later : List StateTransition) → Provable (before ++ later) → Provable later
  Provable-suffix [] later h = h
  Provable-suffix (t ∷ before) later h =
      Provable-suffix before later (Provable-tail t (before ++ later) h)

  -- A move that is valid at the claimed end state continues the chain.
  pub Chain-append :
      (p p' r q : Parsed) (x : Bytes) (ts : List StateTransition) (t : StateTransition)
      → IsParsed rules channel_id meta p
      → parse_state channel_id meta x ≡ some p'
      → Same rules p' p
      → Chain rules sv channel_id meta p ts
      → parse_state channel_id meta (last_state x ts) ≡ some r
      → IsTransition rules sv channel_id meta r t q
      → Chain rules sv channel_id meta p (ts ++ t ∷ [])
  unfolding last_state
  Chain-append p p' r q x [] t pp parses same c end tr =
      let here : r ≡ p' = ground (arith, parses, end) in
      let (q', tr', _) = IsTransition-Same r p q t (last_state x [], end) pp (rw here same) tr in
      (q', tr', tt)
  Chain-append p p' r q x (u ∷ us) t pp parses same (o, tu, c) end tr =
      let (o', parses', same') =
        laws.equals_parses o u.new_state.payload (tu.new, tu.parses) tu.claimed in
      (
        o,
        tu,
        Chain-append o o' r q u.new_state.payload us t (tu.new, tu.parses) parses'
            (λ s. sym (same' s)) c end tr,
      )
