-- ===== src/Channel/StateProof.antt =====
-- gamechannel/stateproof.cpp: checking and extending proofs of a channel's state.
pub mod Chains
pub mod Checks
pub mod Extend
pub mod Extension
pub mod Signing
pub mod Trailing
pub mod Proofs
pub mod Valid
pub mod Versions
use libxayagame.Base.{
  ℕ, zero, suc, ◌+◌, ◌<◌, Bool, true, false, not, Option, none, some, List, [], ◌∷◌, ◌++◌, contains,
  length, ltb, leb, if◌then◌else◌,
}
use libxayagame.Base.Eq.{◌==◌, number_equality}
use libxayagame.Channel.Types.{
  Bytes, Participant, Metadata, SignedData, StateTransition, StateProof, Verdict, accept, reject,
  abort, ◌>>=◌, ◌>>◌, or_reject, or_abort, require,
}
use libxayagame.Channel.Rules.{BoardRules, Services}
use libxayagame.Channel.Signatures.{
  state_topic, set_union, verify_participant_signatures, sign_data_for_participant,
}

unfoldable pub last_state : Bytes → List StateTransition → Bytes
last_state s [] = s
last_state s (t ∷ ts) = last_state t.new_state.payload ts

unfoldable pub unverified_proof_end_state : StateProof → Bytes
unfolding last_state
unverified_proof_end_state proof = last_state proof.initial_state.payload proof.transitions

-- The final loop over the participants, from the index `i` on.
unfoldable pub all_signed : ℕ → List Participant → List ℕ → Bool
all_signed i [] signatures = true
all_signed i (p ∷ ps) signatures =
    let rest = all_signed (i + 1) ps signatures in
    if not (contains i signatures) then false else rest

-- The array of all states: the initial one, those of the old transitions, and the new one.
abbrev pub all_states : StateProof → StateTransition → List StateTransition
all_states old trans =
    record { move = []; new_state = old.initial_state; unknown = false }
    ∷ (old.transitions ++ trans ∷ [])

-- The proof that starts at the first of these states.
unfoldable pub proof_of : List StateTransition → StateProof
proof_of [] = record {
  initial_state = record {
    payload = [];
    signatures = [];
    for_testing_version = none;
    unknown = false;
  };
  transitions = [];
  unknown = false;
}
proof_of (t ∷ ts) = record { initial_state = t.new_state; transitions = ts; unknown = false }

abbrev pub reversed : List StateTransition → List StateTransition → List StateTransition
reversed [] acc = acc
reversed (t ∷ ts) acc = reversed ts (t ∷ acc)

module _ (rules : BoardRules) (sv : Services) (channel_id : ℕ) (meta : Metadata) where
  open rules use {Parsed, parse_state, equals, whose_turn, apply_move}

  -- The signatures on the new state, and the new state.
  unfoldable pub extra_verify_state_transition :
      Parsed → StateTransition → Verdict (List ℕ × Parsed)
  extra_verify_state_transition old transition = do
    turn ← or_reject (whose_turn old)
    new_state ← or_reject (apply_move old transition.move)
    parsed_new ← or_abort (parse_state channel_id meta new_state)
    require (equals parsed_new transition.new_state.payload)
    signatures ← verify_participant_signatures sv channel_id meta state_topic transition.new_state
    require (contains turn signatures)
    accept (signatures, parsed_new)

  unfoldable pub verify_state_transition : Bytes → StateTransition → Verdict (Unit {0})
  verify_state_transition old_state transition = do
    parsed_old ← or_reject (parse_state channel_id meta old_state)
    r ← extra_verify_state_transition parsed_old transition
    accept tt

  -- The loop over the transitions: the signatures seen so far and the end state.
  unfoldable pub verify_transitions :
      Parsed → List ℕ → Bytes → List StateTransition → Verdict (List ℕ × Bytes)
  verify_transitions parsed signatures end_state [] = accept (signatures, end_state)
  verify_transitions parsed signatures end_state (t ∷ ts) = do
    (new_signatures, parsed_new) ← extra_verify_state_transition parsed t
    verify_transitions parsed_new (set_union new_signatures signatures) t.new_state.payload ts

  -- The end state of a valid proof.
  unfoldable pub verify_state_proof : Bytes → StateProof → Verdict Bytes
  verify_state_proof reinit_state proof = do
    signatures ← verify_participant_signatures sv channel_id meta state_topic proof.initial_state
    parsed ← or_reject (parse_state channel_id meta proof.initial_state.payload)
    (all_signatures, end_state) ←
        verify_transitions parsed signatures proof.initial_state.payload proof.transitions
    if equals parsed reinit_state
        then accept end_state
        else if all_signed 0 meta.participants all_signatures
        then accept end_state
        else reject

  -- The loop that goes back from the last state until all participants have signed. The states
  -- before `begin` stand last first, those behind it in order.
  unfoldable pub trailing_states :
      List StateTransition → List StateTransition → List ℕ → Verdict (List StateTransition)
  trailing_states [] later signatures = accept later
  trailing_states (t ∷ before) later signatures = do
    new_signatures ← verify_participant_signatures sv channel_id meta state_topic t.new_state
    let all_signatures = set_union new_signatures signatures
    if ltb (length meta.participants) (length all_signatures)
        then abort
        else elim (length all_signatures == length meta.participants) [
          | true ↦ accept (t ∷ later)
          | false ↦ trailing_states before (t ∷ later) all_signatures
        ]

  unfoldable pub extend_state_proof : StateProof → Bytes → Verdict StateProof
  extend_state_proof old_proof mv = do
    parsed_old ← or_abort (parse_state channel_id meta (unverified_proof_end_state old_proof))
    turn ← or_reject (whose_turn parsed_old)
    new_state ← or_reject (apply_move parsed_old mv)
    let unsigned : SignedData = record {
      payload = new_state;
      signatures = [];
      for_testing_version = none;
      unknown = false;
    }
    signed ← sign_data_for_participant sv channel_id meta state_topic turn unsigned
    let trans : StateTransition = record { move = mv; new_state = signed; unknown = false }
    states ← trailing_states (reversed (all_states old_proof trans) []) [] []
    accept (proof_of states)
