-- ===== src/Channel/Tests.antt =====
-- Tests of the channel models, and instances of their theorems.
use libxayagame.Base.{
  ℕ, ◌≡◌, ◌≢◌, refl, Bool, true, false, none, some, List, [], ◌∷◌, ◌++◌, ◌⊎◌, ◌↔◌, subst, arith,
  inl,
}
use libxayagame.Base.Eq.{number_equality}
use libxayagame.Base.Map.{lookup, insert}
use libxayagame.Channel.Types.{
  Bytes, Metadata, SignedData, StateTransition, StateProof, accept, reject, abort,
}
use libxayagame.Channel.SampleGame.{
  counting, counting-IsBoardRules, services, services-SignsValidly,
}
use libxayagame.Channel.Signatures.{
  set_union, verify_participant_signatures, sign_data_for_participant,
}
use libxayagame.Channel.StateProof.{
  unverified_proof_end_state, verify_state_proof, extend_state_proof, verify_transitions,
  extra_verify_state_transition, all_signed, trailing_states, proof_of,
}
use libxayagame.Channel.Types.{check_versioned_proto}
use libxayagame.Channel.RollingState.{
  ReinitData, RollingState, update_on_chain, update_with_move, update_fresher,
}
use libxayagame.Channel.RollingState.Consistent.{IsConsistent, Outcome, update_with_move-Outcome}
use libxayagame.Channel.RollingState.Moves.{
  IsNoOlder, HasAdvanced, update_with_move-IsConsistent, update_with_move-reports,
}
use libxayagame.Channel.RollingState.Updated.{IsFromChain}
use libxayagame.Channel.RollingState.OnChain.{IsSynced, update_on_chain-IsSynced}
use libxayagame.Channel.StateProof.Proofs.{IsValidProof}
use libxayagame.Channel.StateProof.Valid.{verify_state_proof_iff}
use libxayagame.Channel.StateProof.Trailing.{AllSigned}
use libxayagame.Channel.StateProof.Extend.{extend_state_proof-IsValidProof}
use libxayagame.Channel.StateProof.Extension.{extend_state_proof-minimal}
use libxayagame.Channel.StateProof.Checks.{extend_state_proof-ne-abort, verify_state_proof-ne-abort}

-- Alice and Bob.
abbrev pub meta : Metadata
meta = record {
  participants =
      record { name = 97 ∷ []; address = 1 ∷ [] }
      ∷ record { name = 98 ∷ []; address = 2 ∷ [] }
      ∷ [];
  reinit = 7 ∷ [];
  custom = [];
}

abbrev signed_state : ℕ → List Bytes → SignedData
signed_state n sgns = record {
  payload = n ∷ [];
  signatures = sgns;
  for_testing_version = none;
  unknown = false;
}

abbrev transition : ℕ → ℕ → ℕ → StateTransition
transition step n address = record {
  move = step ∷ [];
  new_state = signed_state n ((address ∷ []) ∷ []);
  unknown = false;
}

-- From 4, Alice counts to 5.
abbrev pub old_proof : StateProof
old_proof = record {
  initial_state = signed_state 4 [];
  transitions = transition 1 5 1 ∷ [];
  unknown = false;
}

-- Bob counts on to 7, and both have signed.
abbrev pub new_proof : StateProof
new_proof = record {
  initial_state = signed_state 5 ((1 ∷ []) ∷ []);
  transitions = transition 2 7 2 ∷ [];
  unknown = false;
}

old_proof_verifies :
    verify_state_proof counting services 0 meta (4 ∷ []) old_proof ≡ accept (5 ∷ [])
unfolding verify_state_proof verify_participant_signatures verify_transitions
    extra_verify_state_transition all_signed set_union
old_proof_verifies = refl

old_proof_unknown_reinit : verify_state_proof counting services 0 meta (3 ∷ []) old_proof ≡ reject
unfolding verify_state_proof verify_participant_signatures verify_transitions
    extra_verify_state_transition all_signed set_union
old_proof_unknown_reinit = refl

pub extend_runs : extend_state_proof counting services 0 meta old_proof (2 ∷ []) ≡ accept new_proof
unfolding extend_state_proof unverified_proof_end_state sign_data_for_participant trailing_states
    verify_participant_signatures set_union proof_of
extend_runs = refl

verify_state_proof_iff_example :
    (verify_state_proof counting services 0 meta (4 ∷ []) old_proof ≡ accept (5 ∷ [])) ↔ (
      IsValidProof counting services 0 meta (4 ∷ []) old_proof
      × (5 ∷ [] ≡ unverified_proof_end_state old_proof))
verify_state_proof_iff_example =
    verify_state_proof_iff counting services 0 meta (4 ∷ []) old_proof (5 ∷ [])

old_proof-IsValidProof : IsValidProof counting services 0 meta (4 ∷ []) old_proof
old_proof-IsValidProof = (verify_state_proof_iff_example.0 old_proof_verifies).0

extend_state_proof-IsValidProof_example :
    IsValidProof counting services 0 meta (4 ∷ []) new_proof
    × (p : counting.Parsed) × (counting.parse_state 0 meta (unverified_proof_end_state old_proof)
        ≡ some p)
    × (counting.apply_move p (2 ∷ []) ≡ some (unverified_proof_end_state new_proof))
extend_state_proof-IsValidProof_example =
    extend_state_proof-IsValidProof counting services 0 meta (counting-IsBoardRules 0 meta) (4 ∷ [])
      old_proof new_proof (2 ∷ []) services-SignsValidly old_proof-IsValidProof extend_runs

extend_state_proof-minimal_example :
    (new_proof.transitions ≡ []) ⊎ (¬ AllSigned counting services 0 meta new_proof.transitions)
extend_state_proof-minimal_example =
    extend_state_proof-minimal counting services 0 meta old_proof new_proof (2 ∷ []) extend_runs

extend_state_proof-ne-abort_example :
    extend_state_proof counting services 0 meta old_proof (0 ∷ []) ≢ abort
extend_state_proof-ne-abort_example =
    extend_state_proof-ne-abort counting services 0 meta (counting-IsBoardRules 0 meta) (4 ∷ [])
      old_proof (0 ∷ []) services-SignsValidly old_proof-IsValidProof

verify_state_proof-ne-abort_example :
    verify_state_proof counting services 0 meta (9 ∷ []) old_proof ≢ abort
verify_state_proof-ne-abort_example =
    verify_state_proof-ne-abort counting services 0 meta (counting-IsBoardRules 0 meta) (9 ∷ [])
      old_proof

-- Nothing is known of the channel yet.
abbrev fresh_state : RollingState counting
fresh_state = record { reinits = []; reinit_id = [] }

abbrev pub known_entry : ReinitData counting
known_entry = record {
  meta = meta;
  reinit_state = 4 ∷ [];
  on_chain_turn = 5;
  proof = old_proof;
  latest_state = (5, 2);
}

-- The state after the first update from the chain.
abbrev pub known_state : RollingState counting
known_state = record { reinits = (7 ∷ [], known_entry) ∷ []; reinit_id = 7 ∷ [] }

abbrev moved_state : RollingState counting
moved_state = record {
  reinits = (7 ∷ [], record known_entry { proof = new_proof; latest_state = (7, 2) }) ∷ [];
  reinit_id = 7 ∷ [];
}

on_chain_runs :
    update_on_chain counting services 0 fresh_state meta (4 ∷ []) old_proof
    ≡ accept (true, known_state)
unfolding update_on_chain verify_state_proof verify_participant_signatures verify_transitions
    extra_verify_state_transition all_signed set_union lookup insert check_versioned_proto
on_chain_runs = refl

with_move_runs :
    update_with_move counting services 0 known_state (7 ∷ []) new_proof ≡ accept (true, moved_state)
unfolding update_with_move update_fresher verify_state_proof verify_participant_signatures
    verify_transitions extra_verify_state_transition all_signed set_union lookup insert
    check_versioned_proto
with_move_runs = refl

fresh_state-IsConsistent : IsConsistent counting services 0 fresh_state
unfolding lookup
fresh_state-IsConsistent = record { entries = λ id e h. absurd (cc); known = inl refl }

first_update-IsFromChain :
    IsFromChain counting services 0 (counting-IsBoardRules 0) fresh_state meta (4 ∷ []) old_proof
unfolding lookup check_versioned_proto
first_update-IsFromChain = record {
  versioned = refl;
  valid = old_proof-IsValidProof;
  unique = λ e h. absurd (cc);
}

update_on_chain-IsSynced_example :
    (changed : Bool) × (st' : RollingState counting) × (update_on_chain counting services 0
        fresh_state meta
        (4 ∷ [])
        old_proof
      ≡ accept (changed, st'))
    × IsSynced counting services 0 (counting-IsBoardRules 0) fresh_state st' meta (5, 2)
unfolding unverified_proof_end_state
update_on_chain-IsSynced_example =
    update_on_chain-IsSynced counting services 0 (counting-IsBoardRules 0) fresh_state meta (4 ∷ [])
      old_proof (5, 2) fresh_state-IsConsistent first_update-IsFromChain refl

pub known_state-IsConsistent : IsConsistent counting services 0 known_state
known_state-IsConsistent =
    let (c, st', e, s) = update_on_chain-IsSynced_example in
    subst (IsConsistent counting services 0) (ground (arith, e, on_chain_runs)) s.consistent

update_with_move-Outcome_example :
    (r : Bool × RollingState counting) × (update_with_move counting services 0 known_state
        (7 ∷ [])
        new_proof
      ≡ accept r)
    × Outcome counting services 0 known_state (7 ∷ []) new_proof r
update_with_move-Outcome_example =
    update_with_move-Outcome counting services 0 (counting-IsBoardRules 0) known_state (7 ∷ [])
      new_proof

update_with_move-IsConsistent_example :
    IsConsistent counting services 0 moved_state
    × IsNoOlder counting services 0 (counting-IsBoardRules 0) known_state moved_state
update_with_move-IsConsistent_example =
    update_with_move-IsConsistent counting services 0 (counting-IsBoardRules 0) known_state
      moved_state (7 ∷ []) new_proof true with_move_runs known_state-IsConsistent

-- The same proof where another reinitialisation is current: the state advances, and no change is
-- reported.
abbrev other_current : RollingState counting → RollingState counting
other_current st = record { reinits = st.reinits ++ (8 ∷ [], known_entry) ∷ []; reinit_id = 8 ∷ [] }

other_move_runs :
    update_with_move counting services 0 (other_current known_state) (7 ∷ []) new_proof
    ≡ accept (false, other_current moved_state)
unfolding update_with_move update_fresher verify_state_proof verify_participant_signatures
    verify_transitions extra_verify_state_transition all_signed set_union lookup insert
    check_versioned_proto
other_move_runs = refl

update_with_move-reports_example :
    ((false ≡ true) ↔ (
      ◌≡◌ {A = Bytes} (7 ∷ []) (8 ∷ [])
      × HasAdvanced counting services 0
          (counting-IsBoardRules 0)
          (other_current known_state)
          (other_current moved_state)
          (7 ∷ [])))
    × ((false ≡ true)
        ↔ HasAdvanced counting services 0
            (counting-IsBoardRules 0)
            (other_current known_state)
            (other_current moved_state)
            (8 ∷ []))
update_with_move-reports_example =
    update_with_move-reports counting services 0 (counting-IsBoardRules 0)
      (other_current known_state) (other_current moved_state) (7 ∷ []) new_proof false
      other_move_runs
