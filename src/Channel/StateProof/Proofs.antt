-- ===== src/Channel/StateProof/Proofs.antt =====
-- What a valid state proof is, without the algorithm of gamechannel/stateproof.cpp.
use libxayagame.Base.{
  ℕ, ◌+◌, ◌<◌, ◌≤◌, ◌≡◌, refl, ◌⊎◌, Bool, true, false, ◌||◌, some, List, [], ◌∷◌, contains, length,
  arith,
}
use libxayagame.Base.Eq.{number_equality}
use libxayagame.Channel.Types.{
  Bytes, Participant, Metadata, SignedData, StateTransition, StateProof, accept,
}
use libxayagame.Channel.Rules.{BoardRules, Services}
use libxayagame.Channel.Signatures.{
  state_topic, indices_of, signers, signed_text, verify_participant_signatures,
}
use libxayagame.Channel.Signatures.Sets.{is_signer, contains-indices_of}
use libxayagame.Channel.StateProof.{all_signed}

pub all_signed_sound :
    (k j : ℕ) (ps : List Participant) (s : List ℕ)
    → all_signed k ps s ≡ true
    → k ≤ j
    → j < k + length ps
    → contains j s ≡ true
unfolding all_signed
all_signed_sound k j [] s h l u = absurd (omega arith)
all_signed_sound k j (p ∷ ps) s h l u = ground (arith, all_signed_sound (k + 1) j ps s)

pub all_signed_complete :
    (k : ℕ) (ps : List Participant) (s : List ℕ)
    → ((j : ℕ) → k ≤ j → j < k + length ps → contains j s ≡ true)
    → all_signed k ps s ≡ true
unfolding all_signed
all_signed_complete k [] s h = refl
all_signed_complete k (p ∷ ps) s h =
    rw (h k (omega arith) (omega arith))
      (all_signed_complete (k + 1) ps s (λ j l u. h j (omega arith) (omega arith)))

module _ (rules : BoardRules) (sv : Services) (channel_id : ℕ) (meta : Metadata) where
  open rules use {Parsed, parse_state, equals, whose_turn, apply_move}

  abbrev pub message_of : SignedData → Bytes
  message_of d = sv.sha256_hex (signed_text sv channel_id meta state_topic d.payload)

  -- Whether a participant has a valid signature on a state of this channel and reinitialisation.
  abbrev pub signed : ℕ → SignedData → Bool
  signed i d = is_signer i meta.participants (signers sv (message_of d) d.signatures)

  abbrev pub signatures_on : SignedData → List ℕ
  signatures_on d = indices_of 0 meta.participants (signers sv (message_of d) d.signatures)

  pub verify_participant_signatures_lem :
      (d : SignedData)
      → verify_participant_signatures sv channel_id meta state_topic d ≡ accept (signatures_on d)
  unfolding verify_participant_signatures
  verify_participant_signatures_lem d = refl

  pub contains-signatures_on : (i : ℕ) (d : SignedData) → contains i (signatures_on d) ≡ signed i d
  contains-signatures_on i d =
      contains-indices_of 0 i i meta.participants (signers sv (message_of d) d.signatures)
        (omega arith)

  -- The player whose turn it is made the move, and signed a claimed state equivalent to its result.
  pub record IsTransition (p : Parsed) (t : StateTransition) (q : Parsed) : Type 0 where
    pub turn : ℕ
    pub new : Bytes
    pub is_turn : whose_turn p ≡ some turn
    pub applies : apply_move p t.move ≡ some new
    pub parses : parse_state channel_id meta new ≡ some q
    pub claimed : equals q t.new_state.payload ≡ true
    pub signs : signed turn t.new_state ≡ true

  -- The transitions follow one another from a state.
  abbrev pub Chain : Parsed → List StateTransition → Type 0
  Chain p [] = Unit {0}
  Chain p (t ∷ ts) = (q : Parsed) × IsTransition p t q × Chain q ts

  abbrev pub signed_any : ℕ → List StateTransition → Bool
  signed_any i [] = false
  signed_any i (t ∷ ts) = signed i t.new_state || signed_any i ts

  -- All transitions are valid, and the proof starts at the reinitialisation state or every
  -- participant signed one of its states.
  pub record IsValidProof (reinit_state : Bytes) (proof : StateProof) : Type 0 where
    pub start : Parsed
    pub parses : parse_state channel_id meta proof.initial_state.payload ≡ some start
    pub chain : Chain start proof.transitions
    pub agreed :
        (equals start reinit_state ≡ true)
        ⊎ ((i : ℕ)
            → i < length meta.participants
            → (signed i proof.initial_state || signed_any i proof.transitions) ≡ true)
