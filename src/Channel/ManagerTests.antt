-- ===== src/Channel/ManagerTests.antt =====
-- Tests of local moves, and instances of their theorems.
use libxayagame.Base.{◌≡◌, refl, ◌⊎◌, true, false, none, [], ◌∷◌}
use libxayagame.Base.Eq.{number_equality}
use libxayagame.Base.Map.{lookup}
use libxayagame.Channel.Types.{accept, reject, check_versioned_proto, original}
use libxayagame.Channel.SampleGame.{
  counting, counting-IsBoardRules, counting-TurnsIncrease, services, services-SignsValidly,
}
use libxayagame.Channel.StateProof.Versions.{extend_state_proof-versioned}
use libxayagame.Channel.Manager.{ChannelManager, apply_local_move}
use libxayagame.Channel.Manager.LocalMove.{IsApplied, apply_local_move-IsApplied}
use libxayagame.Channel.Tests.{
  meta, old_proof, new_proof, extend_runs, known_state, known_entry, known_state-IsConsistent,
}

abbrev channel : ChannelManager counting services 0
channel = record {
  player_name = 98 ∷ [];
  board_states = known_state;
  has_off_chain_sender = true;
  has_on_chain_sender = true;
  state_version = 1;
  stopped = false;
  exists = true;
  block_hash = 3;
  on_chain_height = 20;
  dispute = none;
  pending_put_state_on_chain = 0;
  pending_dispute = 0;
}

apply_local_move-IsApplied_example :
    (apply_local_move counting services 0 (2 ∷ []) channel ≡ reject)
    ⊎ ((n : ChannelManager counting services 0) × (apply_local_move counting services 0
            (2 ∷ [])
            channel
          ≡ accept n)
        × IsApplied counting services 0
            (counting-IsBoardRules 0)
            (counting-TurnsIncrease 0)
            services-SignsValidly
            (2 ∷ [])
            channel
            n
            known_entry)
unfolding lookup
apply_local_move-IsApplied_example =
    apply_local_move-IsApplied counting services 0 (counting-IsBoardRules 0)
      (counting-TurnsIncrease 0) services-SignsValidly (2 ∷ []) channel known_entry (refl, refl)
      known_state-IsConsistent refl

extend_state_proof-versioned_example : check_versioned_proto original new_proof ≡ true
unfolding check_versioned_proto
extend_state_proof-versioned_example =
    extend_state_proof-versioned counting services 0 meta old_proof new_proof (2 ∷ []) refl
      extend_runs
