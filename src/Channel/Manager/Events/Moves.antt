-- ===== src/Channel/Manager/Events/Moves.antt =====
-- Off-chain states, local moves and automoves keep the invariant of the channel manager
-- (gamechannel/channelmanager.cpp).
use libxayagame.Base.{
  ℕ, suc, ◌<◌, ◌≤◌, ◌≡◌, inl, inr, Bool, true, false, some, list_eq, arith, refl, subst, ap, sym,
  Bool-cases,
}
use libxayagame.Base.Eq.{number_equality}
use libxayagame.Base.Map.{lookup}
use libxayagame.Channel.Types.{Bytes, Metadata, StateProof}
use libxayagame.Channel.Rules.{BoardRules, Services, IsBoardRules, IsParsed, SignsValidly}
use libxayagame.Channel.StateProof.Signing.{Signs}
use libxayagame.Channel.RollingState.{ReinitData, RollingState}
use libxayagame.Channel.RollingState.Consistent.{Outcome, update_with_move-Outcome}
use libxayagame.Channel.RollingState.Moves.{update_with_move-IsConsistent}
use libxayagame.Channel.Manager.{ChannelManager}
use libxayagame.Channel.Manager.LocalMove.{TurnsIncrease, apply_local_move-IsApplied}
use libxayagame.Channel.Manager.Applied.{IsApplied-IsAdvanced, moved}
use libxayagame.Channel.Manager.Environment.{Environment, Session, Run, ProposesMoves, returns}
use libxayagame.Channel.Manager.AutoMoves.Ends.{running_after}
use libxayagame.Channel.Manager.AutoMoves.Accepted.{process_auto_moves-returns}
use libxayagame.Channel.Manager.Updates.{
  int_max, process_state_update, process_off_chain, process_local_move, trigger_auto_moves,
}
use libxayagame.Channel.Manager.Updates.Resolves.{IsManaged}
use libxayagame.Channel.Manager.Updates.Managed.{states-IsManaged}
use libxayagame.Channel.Manager.Updates.Handled.{process_state_update-IsHandled}

module _ (rules : BoardRules) (sv : Services) (channel_id : ℕ) (env : Environment rules) where
  -- The function returns, the invariant holds, and there is at most one new version.
  abbrev pub IsKept :
      Session rules sv channel_id env → Run (Session rules sv channel_id env) → Type 0
  IsKept s run =
      (t : Session rules sv channel_id env) × (run ≡ returns t)
      × IsManaged rules sv channel_id t.manager
      × (t.manager.state_version ≤ suc s.manager.state_version)

module _ (rules : BoardRules) (sv : Services) (channel_id : ℕ) (env : Environment rules)
    (laws : (meta : Metadata) → IsBoardRules rules channel_id meta)
    (increase : TurnsIncrease rules channel_id) (signs : SignsValidly sv) (keys : Signs sv)
    (proposes : ProposesMoves rules channel_id env) (limit : ℕ)
    (bounded : (meta : Metadata) (p : rules.Parsed)
      → IsParsed rules channel_id meta p
      → rules.turn_count p < limit)
    (fuel : ℕ) (enough : limit ≤ fuel) where
  -- A state update of a manager `s` with the version of `m`.
  pub update-IsKept :
      (s u : Session rules sv channel_id env) (broadcast : Bool) (e : ReinitData rules)
      → (s.manager.stopped ≡ false) × (s.manager.exists ≡ true)
      → IsManaged rules sv channel_id s.manager
      → lookup s.manager.board_states.reinit_id s.manager.board_states.reinits ≡ some e
      → s.manager.state_version ≡ u.manager.state_version
      → u.manager.state_version < int_max
      → IsKept rules sv channel_id env u
          (process_state_update rules sv channel_id env fuel broadcast s)
  update-IsKept s u broadcast e running i there version room =
      let (t, run, h) =
        process_state_update-IsHandled rules sv channel_id env laws increase signs keys proposes
          limit bounded fuel broadcast s e running i there (omega (arith, version, room)) enough in
      (t, run, h.managed, omega (arith, h.version, version))

  module _ (s : Session rules sv channel_id env) (i : IsManaged rules sv channel_id s.manager)
      (room : s.manager.state_version < int_max) where
    -- An off-chain update leaves the current reinitialisation and its metadata.
    same_reinit :
        (id : Bytes) (proof : StateProof) (r : Bool × RollingState rules)
        → Outcome rules sv channel_id s.manager.board_states id proof r
        → r.1.reinit_id ≡ s.manager.board_states.reinit_id
    same_reinit id proof r (inl unchanged) =
        ap (λ (x : Bool × RollingState rules). x.1.reinit_id) unchanged
    same_reinit id proof r (inr m) = ap (λ (x : Bool × RollingState rules). x.1.reinit_id) m.result

    pub process_off_chain-IsKept :
        (id : Bytes) (proof : StateProof)
        → s.manager.exists ≡ true
        → IsKept rules sv channel_id env s
            (process_off_chain rules sv channel_id env fuel id proof s)
    unfolding process_off_chain
    process_off_chain-IsKept id proof exists = elim (Bool-cases s.manager.stopped) [
      | inl stopped ↦ (s, ground (arith, stopped), i, omega arith)
      | inr running ↦
          let (e, there) = i.known exists in
          let (r, update, what) =
            update_with_move-Outcome rules sv channel_id laws s.manager.board_states id proof in
          let (c, no_older) =
            update_with_move-IsConsistent rules sv channel_id laws s.manager.board_states r.1 id
              proof r.0 update i.consistent in
          let same = same_reinit id proof r what in
          let (f, now, same_meta, _, _, _) = no_older s.manager.board_states.reinit_id e there in
          let there' : lookup r.1.reinit_id r.1.reinits ≡ some f =
            subst (λ k. lookup k r.1.reinits ≡ some f) (sym same) now in
          let n : ChannelManager rules sv channel_id = record s.manager { board_states = r.1 } in
          let t : Session rules sv channel_id env = record s { manager = n } in
          let j =
            states-IsManaged rules sv channel_id s.manager e i there n f c there' same_meta refl in
          elim (Bool-cases r.0) [
            | inr old ↦ (t, ground (arith, running, update, old), j, omega arith)
            | inl new ↦
                let (u, run, k, version) =
                  update-IsKept t s false f (running, exists) j there' refl room in
                (u, ground (arith, running, update, new, run), k, version)
          ]
    ]

    pub process_local_move-IsKept :
        (mv : Bytes)
        → IsKept rules sv channel_id env s (process_local_move rules sv channel_id env fuel mv s)
    unfolding process_local_move
    process_local_move-IsKept mv = elim (Bool-cases s.manager.stopped) [
      | inl stopped ↦ (s, ground (arith, stopped), i, omega arith)
      | inr running ↦ elim (Bool-cases s.manager.exists) [
        | inr gone ↦ (s, ground (arith, running, gone), i, omega arith)
        | inl exists ↦
            let (e, there) = i.known exists in
            elim (apply_local_move-IsApplied rules sv channel_id laws increase signs mv s.manager e
              (running, exists) i.consistent there) [
                | inl refused ↦ (s, ground (arith, running, exists, refused), i, omega arith)
                | inr (n, applies, applied) ↦
                    let a =
                      IsApplied-IsAdvanced rules sv channel_id laws increase signs mv s.manager n e
                        i.consistent there applied in
                    let f =
                      moved rules sv channel_id laws increase signs mv s.manager n e i.consistent
                        there applied in
                    let (u, run, k, version) =
                      update-IsKept (record s { manager = n }) s true f
                        (running_after rules sv channel_id env laws increase signs s.manager n
                          (running, exists) a.frame)
                        (states-IsManaged rules sv channel_id s.manager e i there n f a.consistent
                          a.there a.same_meta a.frame)
                        a.there
                        (ap (λ (k : ChannelManager rules sv channel_id). k.state_version) a.frame)
                        room in
                    (u, ground (arith, running, exists, applies, run), k, version)
              ]
      ]
    ]

    pub trigger_auto_moves-IsKept :
        IsKept rules sv channel_id env s (trigger_auto_moves rules sv channel_id env fuel s)
    unfolding trigger_auto_moves
    trigger_auto_moves-IsKept = elim (Bool-cases s.manager.stopped) [
      | inl stopped ↦ (s, ground (arith, stopped), i, omega arith)
      | inr running ↦ elim (Bool-cases s.manager.exists) [
        | inr gone ↦ (s, ground (arith, running, gone), i, omega arith)
        | inl exists ↦
            let (e, there) = i.known exists in
            let (r, moves, h) =
              process_auto_moves-returns rules sv channel_id env laws increase signs keys proposes
                limit bounded fuel false s e (running, exists) i.consistent there enough in
            let a = h.advanced in
            let count : r.1.manager.state_version ≡ s.manager.state_version =
              ap (λ (k : ChannelManager rules sv channel_id). k.state_version) a.frame in
            let j =
              states-IsManaged rules sv channel_id s.manager e i there r.1.manager h.entry
                a.consistent a.there a.same_meta a.frame in
            elim (Bool-cases r.0) [
              | inr none_found ↦
                  (r.1, ground (arith, running, exists, moves, none_found), j, omega (arith, count))
              | inl found ↦
                  let (u, run, k, version) =
                    update-IsKept r.1 s true h.entry
                      (running_after rules sv channel_id env laws increase signs s.manager
                        r.1.manager (running, exists) a.frame)
                      j a.there count room in
                  (u, ground (arith, running, exists, moves, found, run), k, version)
            ]
      ]
    ]
