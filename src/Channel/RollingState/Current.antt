-- ===== src/Channel/RollingState/Current.antt =====
-- The getters of gamechannel/rollingstate.cpp where the current reinitialisation is known.
use libxayagame.Base.{◌≡◌, ◌≢◌, refl, some, List, [], ◌∷◌, list_eq, arith}
use libxayagame.Base.Eq.{number_equality}
use libxayagame.Base.Map.{lookup}
use libxayagame.Channel.Types.{Bytes, accept}
use libxayagame.Channel.Rules.{BoardRules}
use libxayagame.Channel.RollingState.{
  ReinitData, RollingState, current, get_latest_state, get_state_proof, get_on_chain_turn_count,
  get_reinit_id, get_metadata,
}

module _ (rules : BoardRules) (st : RollingState rules) (e : ReinitData rules)
    (there : lookup st.reinit_id st.reinits ≡ some e) where
  nonempty : st.reinits ≢ []
  unfolding lookup
  nonempty n = ground (arith, n, there)

  pub current-known : current rules st ≡ accept e
  unfolding current
  current-known = go st.reinits refl
    where
      go : (l : List (Bytes × ReinitData rules)) → st.reinits ≡ l → current rules st ≡ accept e
      go [] h = absurd (nonempty h)
      go (x ∷ l) h = ground (arith, h, there)

  pub get_reinit_id-known : get_reinit_id rules st ≡ accept st.reinit_id
  unfolding get_reinit_id
  get_reinit_id-known = go st.reinits refl
    where
      go :
          (l : List (Bytes × ReinitData rules))
          → st.reinits ≡ l
          → get_reinit_id rules st ≡ accept st.reinit_id
      go [] h = absurd (nonempty h)
      go (x ∷ l) h = ground (arith, h)

  pub get_latest_state-known : get_latest_state rules st ≡ accept e.latest_state
  unfolding get_latest_state
  get_latest_state-known = ground (arith, current-known)

  pub get_state_proof-known : get_state_proof rules st ≡ accept e.proof
  unfolding get_state_proof
  get_state_proof-known = ground (arith, current-known)

  pub get_on_chain_turn_count-known : get_on_chain_turn_count rules st ≡ accept e.on_chain_turn
  unfolding get_on_chain_turn_count
  get_on_chain_turn_count-known = ground (arith, current-known)

  pub get_metadata-known : get_metadata rules st ≡ accept e.meta
  unfolding get_metadata
  get_metadata-known = ground (arith, current-known)
