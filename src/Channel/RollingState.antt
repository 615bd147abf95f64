-- ===== src/Channel/RollingState.antt =====
-- gamechannel/rollingstate.cpp: the best known state for each reinitialisation of a channel. That
-- a parsed state refers to the metadata object of its own entry is not modelled.
pub mod Consistent
pub mod Current
pub mod Moves
pub mod Updated
pub mod OnChain
use libxayagame.Base.{
  ℕ, ◌≤◌, Bool, true, false, not, Option, none, some, List, [], ◌∷◌, ltb, leb, if◌then◌else◌,
  list_eq,
}
use libxayagame.Base.Eq.{◌==◌, number_equality}
use libxayagame.Base.Map.{lookup, insert}
use libxayagame.Channel.Types.{
  Bytes, Metadata, metadata_eq, StateProof, Verdict, accept, reject, abort, ◌>>=◌, ◌>>◌, or_abort,
  check_versioned_proto,
}
use libxayagame.Channel.Rules.{BoardRules, Services}
use libxayagame.Channel.StateProof.{verify_state_proof}

-- A CHECK.
abbrev pub check : Bool → Verdict (Unit {0})
check b = if b then accept tt else abort

-- A CHECK on a function that returns a `bool`.
abbrev pub check_accepts {ℓ} : {A : Type ℓ} → Verdict A → Verdict A
check_accepts (accept a) = accept a
check_accepts reject = abort
check_accepts abort = abort

module _ (rules : BoardRules) where
  pub record ReinitData : Type 0 where
    pub meta : Metadata
    pub reinit_state : Bytes
    pub on_chain_turn : ℕ
    pub proof : StateProof
    pub latest_state : rules.Parsed

  pub record RollingState : Type 0 where
    pub reinits : List (Bytes × ReinitData)
    pub reinit_id : Bytes

  unfoldable pub current : RollingState → Verdict ReinitData
  current st = elim st.reinits [ [] ↦ abort | _ ∷ _ ↦ or_abort (lookup st.reinit_id st.reinits) ]

  unfoldable pub get_latest_state : RollingState → Verdict rules.Parsed
  unfolding current
  get_latest_state st = do entry ← current st; accept entry.latest_state

  unfoldable pub get_state_proof : RollingState → Verdict StateProof
  unfolding current
  get_state_proof st = do entry ← current st; accept entry.proof

  unfoldable pub get_on_chain_turn_count : RollingState → Verdict ℕ
  unfolding current
  get_on_chain_turn_count st = do entry ← current st; accept entry.on_chain_turn

  unfoldable pub get_reinit_id : RollingState → Verdict Bytes
  get_reinit_id st = elim st.reinits [ [] ↦ abort | _ ∷ _ ↦ accept st.reinit_id ]

  unfoldable pub get_metadata : RollingState → Verdict Metadata
  unfolding current
  get_metadata st = do entry ← current st; accept entry.meta

module _ (rules : BoardRules) (sv : Services) (channel_id : ℕ) where
  open rules use {Parsed, parse_state, turn_count, proto_version}

  abbrev pub set_entry : Bytes → ReinitData rules → RollingState rules → RollingState rules
  set_entry id entry st = record st { reinits = insert id entry st.reinits }

  -- The update of an entry that is there, and whether the state is fresher than the known one.
  unfoldable pub update_entry : ReinitData rules → StateProof → Parsed → ReinitData rules × Bool
  update_entry entry proof parsed =
      let parsed_cnt = turn_count parsed in
      let e : ReinitData rules =
        if ltb entry.on_chain_turn parsed_cnt
        then record entry { on_chain_turn = parsed_cnt }
        else entry in
      if leb parsed_cnt (turn_count entry.latest_state)
      then (e, false)
      else (record e { proof = proof; latest_state = parsed }, true)

  unfoldable pub update_on_chain :
      RollingState rules → Metadata → Bytes → StateProof → Verdict (Bool × RollingState rules)
  unfolding update_entry
  update_on_chain st meta reinit_state proof = do
    check (check_versioned_proto (proto_version meta) proof)
    proven_state ← check_accepts (verify_state_proof rules sv channel_id meta reinit_state proof)
    let reinit_change = not (st.reinit_id == meta.reinit)
    let moved : RollingState rules = record st { reinit_id = meta.reinit }
    elim (lookup meta.reinit st.reinits) [
      | none ↦ do
        parsed ← or_abort (parse_state channel_id meta proven_state)
        accept (
          true,
          set_entry meta.reinit
              (record {
                meta = meta;
                reinit_state = reinit_state;
                on_chain_turn = turn_count parsed;
                proof = proof;
                latest_state = parsed;
              })
              moved,
        )
      | some entry ↦ do
        check (meta == entry.meta)
        check (reinit_state == entry.reinit_state)
        parsed ← or_abort (parse_state channel_id entry.meta proven_state)
        let (entry', fresher) = update_entry entry proof parsed
        accept (if fresher then true else reinit_change, set_entry meta.reinit entry' moved)
    ]

  -- The update of a known reinitialisation by a state that its proof shows.
  unfoldable pub update_fresher :
      RollingState rules
      → Bytes
      → ReinitData rules
      → StateProof
      → Parsed
      → Bool × RollingState rules
  update_fresher st upd_reinit entry proof parsed =
      if leb (turn_count parsed) (turn_count entry.latest_state) then (false, st) else (
        upd_reinit == st.reinit_id,
        set_entry upd_reinit (record entry { proof = proof; latest_state = parsed }) st,
      )

  unfoldable pub update_with_move :
      RollingState rules → Bytes → StateProof → Verdict (Bool × RollingState rules)
  unfolding update_fresher
  update_with_move st upd_reinit proof = elim (lookup upd_reinit st.reinits) [
    | none ↦ accept (false, st)
    | some entry ↦
        if not (check_versioned_proto (proto_version entry.meta) proof)
        then accept (false, st)
        else elim (verify_state_proof rules sv channel_id entry.meta entry.reinit_state proof) [
          | reject ↦ accept (false, st)
          | abort ↦ abort
          | accept proven_state ↦ do
            parsed ← or_abort (parse_state channel_id entry.meta proven_state)
            accept (update_fresher st upd_reinit entry proof parsed)
        ]
  ]
