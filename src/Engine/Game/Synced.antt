-- ===== src/Engine/Game/Synced.antt =====
-- Reinitialising leads to a state from which the driver follows the chain (`ReinitialiseState` in
-- xayagame/game.cpp).
use libxayagame.Base.{
  ℕ, zero, suc, ◌<◌, ◌≡◌, refl, inl, inr, true, none, some, ltb, arith, sym, ◌∙◌, subst, ap,
  Bool-cases, Option-cases,
}
use libxayagame.Base.Eq.{◌==◌, number_equality}
use libxayagame.Engine.HeightCache.{CachedStorage, set_current_game_state_with_height}
use libxayagame.Engine.Transactions.{TransactionManager}
use libxayagame.Engine.Transactions.Invariant.{IsTransactional}
use libxayagame.Engine.Game.{State, Setup, Cached, Daemon, Game, done, current_hash}
use libxayagame.Engine.Game.Sync.{
  sync_from_current_state, store_genesis, with_genesis, start_from_genesis, known_genesis,
  reinitialise_state,
}
use libxayagame.Engine.Game.Store.{IsStore}
use libxayagame.Engine.Game.Chain.{Chain, genesis-IsStateOf}
use libxayagame.Engine.Game.Updates.{IsSynced, in_transaction-Transacted}
use libxayagame.Engine.Game.Updates.Bodies.{IsStateStored, set-IsStep}
use libxayagame.Engine.Game.Updates.Sound.{IsStateStored-IsSound}
use libxayagame.Engine.Game.Updates.Blocks.{IsThrown-IsSynced, IsDone-IsSynced, drop_state_lem}
use libxayagame.Engine.Game.Ready.{IsAnswering, IsPatient, IsReinitialised}
use libxayagame.Engine.Game.CaughtUp.{sync_from_current_state-IsReinitialised}

module _ (u : Setup) (chain : Chain u) (laws : IsTransactional u.store)
    (store : IsStore u.store laws) where
  module _ (daemon : Daemon u.json) (answers : IsAnswering u chain laws store daemon) where
    module _ (fuel : ℕ) (patient : IsPatient u chain laws store fuel) where
      store_genesis-IsSynced :
          (f : ℕ) (g : Game u) (c : CachedStorage u.store u.hash_to_height)
          → IsSynced u chain laws store g c
          → g.genesis_hash ≡ chain.genesis
          → patient.patience g.manager < f
          → (m : TransactionManager (Cached u)) × (d : CachedStorage u.store u.hash_to_height)
            × (store_genesis u f u.rules.get_initial_state.0 g ≡ done (record g { manager = m }) tt)
            × IsSynced u chain laws store (record g { manager = m }) d
            × (store.current (laws.view d.storage)
                ≡ some (chain.genesis, u.rules.get_initial_state.0))
      unfolding store_genesis
      store_genesis-IsSynced zero g c s is_genesis enough = absurd (omega (arith, enough))
      store_genesis-IsSynced (suc f) g c s is_genesis enough =
          let initial = u.rules.get_initial_state.0 in
          let body =
            set_current_game_state_with_height u.store u.hash_to_height g.genesis_hash
              g.genesis_height initial in
          let P = IsStateStored u chain laws store g.genesis_hash initial in
          let step = set-IsStep u chain laws store g.genesis_hash g.genesis_height initial in
          elim (in_transaction-Transacted u chain laws store P body step g c s.idle) [
            | inl t ↦
                let here = t.seen.is_current ∙ ap (λ k. some (k, initial)) is_genesis in
                let right : IsStateStored u chain laws store chain.genesis initial
                    (laws.view c.storage) (laws.view t.after.storage) =
                  record { is_current = here; same_undo = t.seen.same_undo } in
                (
                  t.manager,
                  t.after,
                  ground (arith, t.ran),
                  IsDone-IsSynced u chain laws store g c s P body step t (
                      IsStateStored-IsSound u chain laws store (laws.view c.storage)
                        (laws.view t.after.storage) chain.genesis initial right
                        (genesis-IsStateOf u chain) s.view_sound),
                  here,
                )
            | inr t ↦
                let next : Game u = record g { manager = t.manager } in
                let (m, d, run, synced, here) =
                  store_genesis-IsSynced f next t.after
                    (IsThrown-IsSynced u chain laws store g c s P body step t) is_genesis
                    (omega (arith, enough, patient.wears g next initial t.ran)) in
                (m, d, ground (arith, t.ran, run), synced, here)
          ]

      -- The genesis block that the game's logic names.
      abbrev at_genesis : State → TransactionManager (Cached u) → Game u → Game u
      at_genesis state m g = record g {
        state = state;
        genesis_height = u.rules.get_initial_state.1;
        genesis_hash = chain.genesis;
        manager = m;
      }

      at_genesis-IsSynced :
          (state : State) (m : TransactionManager (Cached u)) (g : Game u)
          (c : CachedStorage u.store u.hash_to_height)
          → IsSynced u chain laws store (record g { manager = m }) c
          → IsSynced u chain laws store (at_genesis state m g) c
      at_genesis-IsSynced state m g c s = record {
        idle = s.idle;
        view_sound = s.view_sound;
        durable_sound = s.durable_sound;
        genesis = inr (refl, sym chain.genesis_height);
        batch = s.batch;
      }

      start_from_genesis-IsReinitialised :
          (g : Game u) (c : CachedStorage u.store u.hash_to_height)
          → IsSynced u chain laws store g c
          → (g.pruning_queue ≡ none) × (g.pending ≡ none)
          → IsReinitialised u chain laws store daemon (start_from_genesis u fuel daemon g)
      unfolding start_from_genesis with_genesis
      start_from_genesis-IsReinitialised g c s plain =
          let (m, d, dropped, s1, _) = drop_state_lem u chain laws store g c s in
          let h : Game u = at_genesis g.state m g in
          let s2 = at_genesis-IsSynced g.state m g d s1 in
          let (m', d', stored, s3, here) =
            store_genesis-IsSynced fuel h d s2 refl (patient.enough m) in
          let k : Game u = record h { manager = m'; state = State.out_of_sync } in
          let s4 = at_genesis-IsSynced State.out_of_sync m' g d' (record {
            idle = s3.idle;
            view_sound = s3.view_sound;
            durable_sound = s3.durable_sound;
            genesis = s.genesis;
            batch = s.batch;
          }) in
          let r =
            sync_from_current_state-IsReinitialised u chain laws store daemon answers k d' s4 plain
              chain.genesis u.rules.get_initial_state.0 here refl in
          let same : (chain.genesis == chain.genesis) ≡ true = ground arith in
          let run : start_from_genesis u fuel daemon g
              ≡ sync_from_current_state u daemon chain.genesis k =
            ground (arith, dropped, chain.genesis_hash, answers.at_genesis, same, stored) in
          subst (IsReinitialised u chain laws store daemon) (sym run) r

      known_genesis_lem :
          (g : Game u) (c : CachedStorage u.store u.hash_to_height)
          → IsSynced u chain laws store g c
          → known_genesis u (record g { state = State.unknown })
            ≡ done (at_genesis State.unknown g.manager g) tt
      unfolding known_genesis with_genesis
      known_genesis_lem g c s = elim (Bool-cases (g.genesis_hash == 0)) [
        | inl unset ↦ ground (arith, unset, chain.genesis_hash)
        | inr kept ↦ elim s.genesis [
          | inl null ↦ absurd (ground (arith, kept, null))
          | inr (same, level) ↦ ground (arith, kept, same, level ∙ chain.genesis_height)
        ]
      ]

      -- Under the conditions of a ready driver but for its state, with a storage that throws only so
      -- often in a row when the initial state is stored, and a Xaya Core that answers with hashes and
      -- knows the genesis block, reinitialising leaves the driver ready, or the commit of a batch
      -- throws. The driver is up to date only if the current block is the best block of Xaya Core. No
      -- CHECK fails, and the loop of retries ends.
      pub reinitialise_state-IsReinitialised :
          (g : Game u) (c : CachedStorage u.store u.hash_to_height)
          → IsSynced u chain laws store g c
          → (g.pruning_queue ≡ none) × (g.pending ≡ none)
          → IsReinitialised u chain laws store daemon (reinitialise_state u fuel daemon g)
      unfolding reinitialise_state
      reinitialise_state-IsReinitialised g c s plain =
          elim (Option-cases (store.current (laws.view c.storage))) [
            | inr ((hash, value), e) ↦
                let known : current_hash g ≡ some hash =
                  ground (arith, s.idle.stored, store.hash_seen c.storage, e) in
                let k : Game u = record g { state = State.out_of_sync } in
                let synced : IsSynced u chain laws store k c = record {
                  idle = s.idle;
                  view_sound = s.view_sound;
                  durable_sound = s.durable_sound;
                  genesis = s.genesis;
                  batch = s.batch;
                } in
                let run : reinitialise_state u fuel daemon g
                    ≡ sync_from_current_state u daemon hash k =
                  ground (arith, known) in
                subst (IsReinitialised u chain laws store daemon) (sym run) (
                  sync_from_current_state-IsReinitialised u chain laws store daemon answers k c
                    synced plain hash value e refl)
            | inl e ↦
                let unknown_hash : current_hash g ≡ none =
                  ground (arith, s.idle.stored, store.hash_seen c.storage, e) in
                let asked = known_genesis_lem g c s in
                elim (Bool-cases (ltb daemon.blocks u.rules.get_initial_state.1)) [
                  | inl early ↦ record {
                    game = record (at_genesis State.pregenesis g.manager g) {
                      target_block_hash = chain.genesis;
                    };
                    result = inl (
                      c,
                      ground (arith, unknown_hash, asked, early),
                      record {
                        synced = record {
                          idle = s.idle;
                          view_sound = s.view_sound;
                          durable_sound = s.durable_sound;
                          genesis = inr (refl, sym chain.genesis_height);
                          batch = s.batch;
                        };
                        at_state = inl refl;
                        no_pruning = plain.0;
                        no_pending = plain.1;
                      },
                      λ h. absurd (cc),
                    );
                  }
                  | inr late ↦
                      let k = at_genesis State.unknown g.manager g in
                      let run : reinitialise_state u fuel daemon g
                          ≡ start_from_genesis u fuel daemon k =
                        ground (arith, unknown_hash, asked, late) in
                      subst (IsReinitialised u chain laws store daemon) (sym run) (
                        start_from_genesis-IsReinitialised k c
                          (at_genesis-IsSynced State.unknown g.manager g c s) plain)
                ]
          ]
