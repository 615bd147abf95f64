-- ===== src/Channel/StateProof/Signing.antt =====
-- When `ExtendStateProof` (gamechannel/stateproof.cpp) succeeds.
use libxayagame.Base.{ℕ, ◌≡◌, refl, false, none, some, [], ◌∷◌, arith}
use libxayagame.Channel.Types.{Bytes, Metadata, SignedData, StateProof, accept}
use libxayagame.Channel.Rules.{BoardRules, Services, IsBoardRules, SignsValidly}
use libxayagame.Channel.Signatures.{sign_data_for_participant}
use libxayagame.Channel.StateProof.{
  unverified_proof_end_state, all_states, reversed, proof_of, extend_state_proof,
}
use libxayagame.Channel.StateProof.Proofs.{message_of}
use libxayagame.Channel.StateProof.Checks.{participant-total, trailing_states-accepts}

-- The wallet holds the keys: signing does not fail.
abbrev pub Signs : Services → Type 0
Signs sv = (addr msg : Bytes) → (sgn : Bytes) × (sv.signmessage addr msg ≡ some sgn)

module _ (rules : BoardRules) (sv : Services) (channel_id : ℕ) (meta : Metadata)
    (laws : IsBoardRules rules channel_id meta) where
  open rules use {Parsed, parse_state, whose_turn, apply_move}

  -- A valid move in a state that is somebody's turn extends the proof.
  pub extend_state_proof-accepts :
      (old : StateProof) (mv s : Bytes) (p : Parsed) (turn : ℕ)
      → SignsValidly sv
      → Signs sv
      → parse_state channel_id meta (unverified_proof_end_state old) ≡ some p
      → whose_turn p ≡ some turn
      → apply_move p mv ≡ some s
      → (new : StateProof) × (extend_state_proof rules sv channel_id meta old mv ≡ accept new)
  unfolding extend_state_proof sign_data_for_participant
  extend_state_proof-accepts old mv s p turn valid signs parses is_turn applies =
      let (who, g) =
        participant-total turn meta.participants
          (laws.turn_in_range p turn (unverified_proof_end_state old, parses) is_turn) in
      let unsigned : SignedData = record {
        payload = s;
        signatures = [];
        for_testing_version = none;
        unknown = false;
      } in
      let msg = message_of rules sv channel_id meta unsigned in
      let (sgn, k) = signs who.address msg in
      let (raw, l, _) = valid who.address msg sgn k in
      let (r, m) =
        trailing_states-accepts rules sv channel_id meta
          (reversed
            (all_states old (record {
              move = mv;
              new_state = record unsigned { signatures = raw ∷ [] };
              unknown = false;
            }))
            [])
          [] [] (omega arith, λ i. refl) in
      (proof_of r, ground (arith, parses, is_turn, applies, g, k, l, m))
