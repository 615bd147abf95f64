-- ===== src/Channel/SessionTests.antt =====
-- Tests of the channel manager, and instances of its theorems.
use libxayagame.Base.{◌≡◌, ◌≢◌, refl, true, false, none, some, [], ◌∷◌, arith}
use libxayagame.Base.Eq.{number_equality}
use libxayagame.Base.Map.{lookup, insert}
use libxayagame.Channel.Types.{StateProof, accept, check_versioned_proto}
use libxayagame.Channel.Signatures.{
  set_union, verify_participant_signatures, sign_data_for_participant,
}
use libxayagame.Channel.StateProof.{
  unverified_proof_end_state, verify_state_proof, extend_state_proof, verify_transitions,
  extra_verify_state_transition, all_signed, trailing_states, proof_of,
}
use libxayagame.Channel.RollingState.{
  RollingState, update_with_move, update_fresher, get_metadata, get_latest_state, get_state_proof,
  get_reinit_id,
}
use libxayagame.Channel.Manager.{ChannelManager, apply_local_move}
use libxayagame.Channel.Manager.Environment.{Session, returns, aborts}
use libxayagame.Channel.Manager.AutoMoves.{next_auto_move, process_auto_moves}
use libxayagame.Channel.Manager.AutoMoves.Ends.{Ends, process_auto_moves-HasSettled}
use libxayagame.Channel.Manager.Updates.{process_off_chain, try_resolve_dispute}
use libxayagame.Channel.Manager.Updates.Resolves.{IsManaged, Resolves, try_resolve_dispute-Resolves}
use libxayagame.Channel.Manager.Events.{local_move, handle}
use libxayagame.Channel.Manager.Events.Moves.{IsKept}
use libxayagame.Channel.Manager.Events.Kept.{handle-IsKept}
use libxayagame.Channel.Manager.Events.Gone.{process_off_chain-aborts}
use libxayagame.Channel.Manager.Requests.{file_dispute}
use libxayagame.Channel.Manager.Requests.Disputes.{IsDisputable, disputed, file_dispute-once}
use libxayagame.Channel.SampleGame.{
  counting, counting-IsBoardRules, counting-TurnsIncrease, services, services-SignsValidly,
  services-Signs, turn_count-lt, counting_environment, counting_environment-ProposesMoves,
}
use libxayagame.Channel.Tests.{old_proof, known_state, known_entry, known_state-IsConsistent}

-- Bob's manager. It is his turn, he has a better state than the one in dispute, and his game
-- proposes three steps.
abbrev bob : ChannelManager counting services 0
bob = record {
  player_name = 98 ∷ [];
  board_states = known_state;
  has_off_chain_sender = true;
  has_on_chain_sender = true;
  state_version = 1;
  stopped = false;
  exists = true;
  block_hash = 3;
  on_chain_height = 20;
  dispute = some (record { height = 15; turn = some 1; count = 3; pending_resolution = 0 });
  pending_put_state_on_chain = 0;
  pending_dispute = 0;
}

abbrev session : Session counting services 0 counting_environment
session = record { manager = bob; world = (3, 0) }

bob-IsManaged : IsManaged counting services 0 bob
unfolding lookup
bob-IsManaged = record {
  consistent = known_state-IsConsistent;
  known = λ h. (known_entry, refl);
  disputed = λ d h. record {
    entry = known_entry;
    there = refl;
    turn = 1;
    is_turn = ground (arith, h);
    in_range = omega arith;
  };
  off_chain = refl;
  on_chain = refl;
  version = omega arith;
}

-- Bob has counted to 6.
abbrev bobs_proof : StateProof
bobs_proof = record {
  initial_state = record {
    payload = 5 ∷ [];
    signatures = (1 ∷ []) ∷ [];
    for_testing_version = none;
    unknown = false;
  };
  transitions =
      record {
        move = 1 ∷ [];
        new_state = record {
          payload = 6 ∷ [];
          signatures = (2 ∷ []) ∷ [];
          for_testing_version = none;
          unknown = false;
        };
        unknown = false;
      }
      ∷ [];
  unknown = false;
}

abbrev six : RollingState counting
six = record {
  reinits = (7 ∷ [], record known_entry { proof = bobs_proof; latest_state = (6, 2) }) ∷ [];
  reinit_id = 7 ∷ [];
}

-- Bob steps to 6; then it is Alice's turn.
one_automove :
    process_auto_moves counting services 0 counting_environment 3 false session
    ≡ returns (true, record { manager = record bob { board_states = six }; world = (2, 0) })
unfolding process_auto_moves next_auto_move apply_local_move get_metadata get_latest_state
    get_state_proof get_reinit_id extend_state_proof unverified_proof_end_state
    sign_data_for_participant trailing_states verify_participant_signatures set_union proof_of
    update_with_move update_fresher verify_state_proof verify_transitions
    extra_verify_state_transition all_signed lookup insert check_versioned_proto
one_automove = refl

process_auto_moves-HasSettled_example :
    Ends counting services 0 counting_environment
      (counting-IsBoardRules 0)
      (counting-TurnsIncrease 0)
      services-SignsValidly
      256
      false
      session
      known_entry
unfolding lookup
process_auto_moves-HasSettled_example =
    process_auto_moves-HasSettled counting services 0 counting_environment (counting-IsBoardRules 0)
      (counting-TurnsIncrease 0) services-SignsValidly 256 (turn_count-lt 0) 256 false session
      known_entry (refl, refl) known_state-IsConsistent refl (omega arith)

handle-IsKept_example :
    IsKept counting services 0 counting_environment session
      (handle counting services 0 counting_environment 256 (local_move (2 ∷ [])) session)
handle-IsKept_example =
    handle-IsKept counting services 0 counting_environment (counting-IsBoardRules 0)
      (counting-TurnsIncrease 0) services-SignsValidly services-Signs
      (counting_environment-ProposesMoves 0) 256 (turn_count-lt 0) 256 (omega arith)
      (local_move (2 ∷ [])) session bob-IsManaged (omega arith) tt

try_resolve_dispute-Resolves_example :
    (t : Session counting services 0 counting_environment) × (try_resolve_dispute counting services
        0 counting_environment session
      ≡ returns t)
    × Resolves counting services 0 counting_environment session known_entry t
unfolding lookup
try_resolve_dispute-Resolves_example =
    try_resolve_dispute-Resolves counting services 0 counting_environment session known_entry refl
      bob-IsManaged refl

-- There is no dispute.
abbrev calm : Session counting services 0 counting_environment
calm = record { manager = record bob { dispute = none }; world = (3, 0) }

calm-IsManaged : IsManaged counting services 0 calm.manager
unfolding lookup
calm-IsManaged = record {
  consistent = known_state-IsConsistent;
  known = λ h. (known_entry, refl);
  disputed = λ d h. absurd (cc);
  off_chain = refl;
  on_chain = refl;
  version = omega arith;
}

file_dispute-once_example :
    (IsDisputable counting services 0 counting_environment calm
      → (file_dispute counting services 0 counting_environment calm
          ≡ returns (1, disputed counting services 0 counting_environment calm known_entry))
        × ((counting_environment.send_dispute (3, 0) old_proof).0 ≢ 0
            → file_dispute counting services 0 counting_environment
                (disputed counting services 0 counting_environment calm known_entry)
              ≡ returns (0, disputed counting services 0 counting_environment calm known_entry)))
    × (¬ IsDisputable counting services 0 counting_environment calm
        → file_dispute counting services 0 counting_environment calm ≡ returns (0, calm))
unfolding lookup
file_dispute-once_example =
    file_dispute-once counting services 0 counting_environment calm known_entry calm-IsManaged refl

-- Alice's manager, when the channel is gone and Bob counts to 6.
abbrev alice : Session counting services 0 counting_environment
alice = record { manager = record bob { player_name = 97 ∷ []; exists = false }; world = (3, 0) }

six_runs : update_with_move counting services 0 known_state (7 ∷ []) bobs_proof ≡ accept (true, six)
unfolding update_with_move update_fresher verify_state_proof verify_participant_signatures
    verify_transitions extra_verify_state_transition all_signed set_union lookup insert
    check_versioned_proto
six_runs = refl

process_off_chain-aborts_example :
    process_off_chain counting services 0 counting_environment 5 (7 ∷ []) bobs_proof alice ≡ aborts
unfolding lookup
process_off_chain-aborts_example =
    process_off_chain-aborts counting services 0 counting_environment 4 alice (7 ∷ []) bobs_proof
      six (record known_entry { proof = bobs_proof; latest_state = (6, 2) }) 0
      (record { name = 97 ∷ []; address = 1 ∷ [] }) (1 ∷ []) (2, 0) (refl, refl) six_runs refl refl
      refl refl refl
