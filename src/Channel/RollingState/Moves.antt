-- ===== src/Channel/RollingState/Moves.antt =====
-- Off-chain updates (`UpdateWithMove` in gamechannel/rollingstate.cpp).
use libxayagame.Base.{
  ℕ, ◌≤◌, ◌<◌, ◌≡◌, refl, sym, ◌∙◌, ap, subst, ◌↔◌, inl, inr, Bool, true, false, some,
  if◌then◌else◌, list_eq, list_beq_iff, arith, Bool-cases,
}
use libxayagame.Base.Eq.{◌==◌, number_equality}
use libxayagame.Base.Map.{lookup, insert, lookup-insert}
use libxayagame.Channel.Types.{Bytes, Metadata, StateProof, accept}
use libxayagame.Channel.Rules.{BoardRules, Services, IsBoardRules}
use libxayagame.Channel.RollingState.{ReinitData, RollingState, update_with_move}
use libxayagame.Channel.RollingState.Consistent.{
  IsConsistent, HasMoved, Outcome, update_with_move-Outcome, fresher-IsConsistentEntry,
  set_entry-IsConsistent,
}

module _ (rules : BoardRules) (sv : Services) (channel_id : ℕ)
    (laws : (meta : Metadata) → IsBoardRules rules channel_id meta) where
  open rules use {turn_count}

  -- The reinitialisations that are known stay known, with the same metadata and initial state,
  -- and never with an older state.
  abbrev pub IsNoOlder : RollingState rules → RollingState rules → Type 0
  IsNoOlder st st' =
      (j : Bytes) (e : ReinitData rules)
      → lookup j st.reinits ≡ some e
      → (f : ReinitData rules) × (lookup j st'.reinits ≡ some f)
        × (f.meta ≡ e.meta)
        × (f.reinit_state ≡ e.reinit_state)
        × (turn_count e.latest_state ≤ turn_count f.latest_state)
        × (e.on_chain_turn ≤ f.on_chain_turn)

  -- A reinitialisation is known, and its state has advanced.
  abbrev pub HasAdvanced : RollingState rules → RollingState rules → Bytes → Type 0
  HasAdvanced st st' j =
      (e : ReinitData rules) × (f : ReinitData rules) × (lookup j st.reinits ≡ some e)
      × (lookup j st'.reinits ≡ some f)
      × (turn_count e.latest_state < turn_count f.latest_state)

  HasMoved-IsNoOlder :
      (st st' : RollingState rules) (id : Bytes) (proof : StateProof) (changed : Bool)
      → HasMoved rules sv channel_id st id proof (changed, st')
      → IsNoOlder st st'
  HasMoved-IsNoOlder st st' id proof changed m j e h =
      let new : ReinitData rules = record m.entry { proof = proof; latest_state = m.parsed } in
      let now : lookup j st'.reinits ≡ (if id == j then some new else lookup j st.reinits) =
        subst
          (λ (r : RollingState rules).
            lookup j r.reinits ≡ (if id == j then some new else lookup j st.reinits))
          (ap (λ r. r.1) (sym m.result)) (lookup-insert id j new st.reinits) in
      elim (Bool-cases (id == j)) [
        | inl hit ↦
            let same : m.entry ≡ e = ground (arith, m.found, h, (list_beq_iff id j).0 hit) in
            (
              new,
              ground (arith, now, hit),
              ap (λ (x : ReinitData rules). x.meta) same,
              ap (λ (x : ReinitData rules). x.reinit_state) same,
              subst (λ (x : ReinitData rules). turn_count x.latest_state ≤ turn_count m.parsed) same
                  (omega (arith, m.fresh.fresher)),
              subst (λ (x : ReinitData rules). x.on_chain_turn ≤ m.entry.on_chain_turn) same
                  (omega arith),
            )
        | inr miss ↦ (e, ground (arith, now, miss, h), refl, refl, omega arith, omega arith)
      ]

  HasMoved-IsConsistent :
      (st st' : RollingState rules) (id : Bytes) (proof : StateProof) (changed : Bool)
      → IsConsistent rules sv channel_id st
      → HasMoved rules sv channel_id st id proof (changed, st')
      → IsConsistent rules sv channel_id st'
  unfolding lookup
  HasMoved-IsConsistent st st' id proof changed c m =
      subst (IsConsistent rules sv channel_id) (ap (λ r. r.1) (sym m.result)) (
        set_entry-IsConsistent rules sv channel_id id
          (record m.entry { proof = proof; latest_state = m.parsed }) st c.entries
          (fresher-IsConsistentEntry rules sv channel_id laws id m.entry proof m.parsed
            (c.entries id m.entry m.found) m.fresh)
          (elim c.known [
            | inl none_there ↦ absurd (ground (arith, ap (λ r. lookup id r) none_there, m.found))
            | inr there ↦ inr there
          ]))

  module _ (st st' : RollingState rules) (id : Bytes) (proof : StateProof) (changed : Bool)
      (updates : update_with_move rules sv channel_id st id proof ≡ accept (changed, st')) where
    outcome : Outcome rules sv channel_id st id proof (changed, st')
    outcome =
        let (r, e, o) = update_with_move-Outcome rules sv channel_id laws st id proof in
        let same : r ≡ (changed, st') = ground (arith, e, updates) in
        subst (Outcome rules sv channel_id st id proof) same o

    -- If the rules are as documented, an off-chain update of a consistent state leads to a
    -- consistent state in which every known reinitialisation stays, with its metadata and initial
    -- state, and none has an older state or on-chain turn.
    pub update_with_move-IsConsistent :
        IsConsistent rules sv channel_id st
        → IsConsistent rules sv channel_id st' × IsNoOlder st st'
    update_with_move-IsConsistent c = elim outcome [
      | inl e ↦
          let same : st ≡ st' = ap (λ r. r.1) (sym e) in
          (
            subst (IsConsistent rules sv channel_id) same c,
            subst (IsNoOlder st) same (λ j f h. (f, h, refl, refl, omega arith, omega arith)),
          )
      | inr m ↦ (
        HasMoved-IsConsistent st st' id proof changed c m,
        HasMoved-IsNoOlder st st' id proof changed m,
      )
    ]

    module _ (e f : ReinitData rules) (before : lookup st.reinit_id st.reinits ≡ some e)
        (now : lookup st'.reinit_id st'.reinits ≡ some f) where
      flag_moved :
          HasMoved rules sv channel_id st id proof (changed, st')
          → (changed ≡ true) ↔ (turn_count e.latest_state < turn_count f.latest_state)
      flag_moved m =
          let new : ReinitData rules = record m.entry { proof = proof; latest_state = m.parsed } in
          let flag : changed ≡ (id == st.reinit_id) = ap (λ r. r.0) m.result in
          let here : lookup st'.reinit_id st'.reinits
              ≡ (if id == st.reinit_id then some new else lookup st.reinit_id st.reinits) =
            subst
              (λ (r : RollingState rules).
                lookup r.reinit_id r.reinits
                ≡ (if id == st.reinit_id then some new else lookup st.reinit_id st.reinits))
              (ap (λ r. r.1) (sym m.result)) (lookup-insert id st.reinit_id new st.reinits) in
          elim (Bool-cases (id == st.reinit_id)) [
            | inl hit ↦
                let old : m.entry ≡ e =
                  ground (arith, m.found, before, (list_beq_iff id st.reinit_id).0 hit) in
                let is_new : new ≡ f = ground (arith, here, hit, now) in
                (
                  λ _.
                      subst
                        (λ (x : ReinitData rules).
                          turn_count x.latest_state < turn_count f.latest_state)
                        old
                        (subst
                          (λ (x : ReinitData rules).
                            turn_count m.entry.latest_state < turn_count x.latest_state)
                          is_new m.fresh.fresher),
                  λ _. flag ∙ hit,
                )
            | inr miss ↦
                let same : e ≡ f = ground (arith, here, miss, before, now) in
                (
                  λ c. absurd (ground (arith, flag, miss, c)),
                  λ l. absurd (
                      subst
                        (λ (x : ReinitData rules).
                          ¬ (turn_count x.latest_state < turn_count f.latest_state))
                        (sym same) (omega arith) l),
                )
          ]

      reports_current : (changed ≡ true) ↔ (turn_count e.latest_state < turn_count f.latest_state)
      reports_current = elim outcome [
        | inl unchanged ↦
            let none_new : changed ≡ false = ap (λ r. r.0) unchanged in
            let there : lookup st.reinit_id st.reinits ≡ some f =
              subst (λ (r : RollingState rules). lookup r.reinit_id r.reinits ≡ some f)
                (ap (λ r. r.1) unchanged) now in
            let same : e ≡ f = ground (arith, before, there) in
            (
              λ c. absurd (ground (arith, none_new, c)),
              λ l. absurd (
                  subst
                    (λ (x : ReinitData rules).
                      ¬ (turn_count x.latest_state < turn_count f.latest_state))
                    (sym same) (omega arith) l),
            )
        | inr m ↦ flag_moved m
      ]

    moved-HasAdvanced :
        HasMoved rules sv channel_id st id proof (changed, st') → HasAdvanced st st' id
    moved-HasAdvanced m =
        let new : ReinitData rules = record m.entry { proof = proof; latest_state = m.parsed } in
        let same : (id == id) ≡ true = (list_beq_iff id id).1 refl in
        let stored : lookup id (insert id new st.reinits) ≡ some new =
          ground (arith, lookup-insert id id new st.reinits, same) in
        let now : lookup id st'.reinits ≡ some new =
          subst (λ (r : RollingState rules). lookup id r.reinits ≡ some new)
            (ap (λ r. r.1) (sym m.result)) stored in
        (m.entry, new, m.found, now, m.fresh.fresher)

    advanced_of : changed ≡ true → (id ≡ st.reinit_id) × HasAdvanced st st' id
    advanced_of reported = elim outcome [
      | inl unchanged ↦ absurd (ground (arith, ap (λ r. r.0) unchanged, reported))
      | inr m ↦
          let flag : changed ≡ (id == st.reinit_id) = ap (λ r. r.0) m.result in
          ((list_beq_iff id st.reinit_id).0 (sym flag ∙ reported), moved-HasAdvanced m)
    ]

    same_current : st.reinit_id ≡ st'.reinit_id
    same_current = elim outcome [
      | inl unchanged ↦ ap (λ (r : Bool × RollingState rules). r.1.reinit_id) (sym unchanged)
      | inr m ↦ ap (λ (r : Bool × RollingState rules). r.1.reinit_id) (sym m.result)
    ]

    reported_of : HasAdvanced st st' st.reinit_id → changed ≡ true
    reported_of (e, f, before, now, fresher) =
        (reports_current e f before (subst (λ j. lookup j st'.reinits ≡ some f) same_current now)).1
          fresher

    -- If the rules are as documented, an off-chain update that passes its checks reports a change
    -- exactly when the reinitialisation that it is for is the current one, is known and has a
    -- fresher state than before, and exactly when the current reinitialisation is known and has a
    -- fresher state than before. So an advance of another known reinitialisation is not reported,
    -- contrary to what gamechannel/rollingstate.hpp says.
    pub update_with_move-reports :
        ((changed ≡ true) ↔ ((id ≡ st.reinit_id) × HasAdvanced st st' id))
        × ((changed ≡ true) ↔ HasAdvanced st st' st.reinit_id)
    update_with_move-reports = (
      (
        advanced_of,
        λ (current, advanced). reported_of (subst (HasAdvanced st st') current advanced),
      ),
      (
        λ reported.
            let (current, advanced) = advanced_of reported in
            subst (HasAdvanced st st') current advanced,
        reported_of,
      ),
    )
