-- ===== src/Engine/Game/CaughtUp.antt =====
-- Syncing from the state that is stored (`SyncFromCurrentState` in xayagame/game.cpp).
use libxayagame.Base.{
  ℕ, ◌<◌, ◌^◌, ◌≡◌, refl, ◌⊎◌, inl, inr, true, none, some, String, arith, sym, ◌∙◌, subst, ap,
  Bool-cases,
}
use libxayagame.Base.Eq.{◌==◌, number_equality}
use libxayagame.Engine.HeightCache.{CachedStorage}
use libxayagame.Engine.Transactions.{TransactionManager, set_batch_size}
use libxayagame.Engine.Transactions.Invariant.{IsTransactional}
use libxayagame.Engine.Transactions.Resized.{set_batch_size-Resized}
use libxayagame.Engine.Game.{State, Setup, Cached, Daemon, Game}
use libxayagame.Engine.Game.Sync.{sync_from_current_state}
use libxayagame.Engine.Game.Store.{IsStore}
use libxayagame.Engine.Game.Chain.{Chain, IsSound}
use libxayagame.Engine.Game.Updates.{claws, IsSynced}
use libxayagame.Engine.Game.Ready.{IsAnswering, IsReady, IsReinitialised}

module _ (u : Setup) (chain : Chain u) (laws : IsTransactional u.store)
    (store : IsStore u.store laws) where
  module _ (daemon : Daemon u.json) (answers : IsAnswering u chain laws store daemon) where
    module _ (g : Game u) (c : CachedStorage u.store u.hash_to_height)
        (s : IsSynced u chain laws store g c)
        (plain : (g.pruning_queue ≡ none) × (g.pending ≡ none)) where
      -- A batch size is set.
      resized :
          (size : ℕ) (state : State) (target : ℕ) (token : String)
          → 0 < size
          → size < 2 ^ 32
          → (x : ℕ × String) → store.current (laws.view c.storage) ≡ some x
          → (state ≡ State.catching_up) ⊎ (state ≡ State.up_to_date)
          → ((m : TransactionManager (Cached u)) × (d : CachedStorage u.store u.hash_to_height)
              × (set_batch_size (Cached u) size g.manager ≡ libxayagame.Engine.Storage.done m)
              × (m.storage ≡ some d)
              × (store.current (laws.view d.storage) ≡ some x)
              × IsReady u chain laws store
                  (record g {
                    state = state;
                    target_block_hash = target;
                    req_token = token;
                    manager = m;
                  })
                  d)
            ⊎ ((m : TransactionManager (Cached u)) × (set_batch_size (Cached u) size g.manager
                  ≡ libxayagame.Engine.Storage.throw m)
                × (m.commit_failed ≡ true))
      resized size state target token positive fits x e is_state =
          elim (set_batch_size-Resized (Cached u) (claws u chain laws store) g.manager c s.idle size
            positive fits) [
              | inr failed ↦ inr failed
              | inl (m, d, run, r) ↦
                  let view_sound =
                    subst (IsSound u chain laws store) (sym r.same_view) s.view_sound in
                  let here : store.current (laws.view d.storage) ≡ some x =
                    ap store.current r.same_view ∙ e in
                  inl (
                    m,
                    d,
                    run,
                    r.idle.stored,
                    here,
                    record {
                      synced = record {
                        idle = r.idle;
                        view_sound = view_sound;
                        durable_sound = elim r.same_durable [
                          | inl q ↦ subst (IsSound u chain laws store) (sym q) s.durable_sound
                          | inr q ↦ subst (IsSound u chain laws store) (sym q) s.view_sound
                        ];
                        genesis = s.genesis;
                        batch = s.batch;
                      };
                      at_state = inr (is_state, (x, here));
                      no_pruning = plain.0;
                      no_pending = plain.1;
                    },
                  )
            ]

      pub sync_from_current_state-IsReinitialised :
          (hash : ℕ) (value : String)
          → store.current (laws.view c.storage) ≡ some (hash, value)
          → g.state ≡ State.out_of_sync
          → IsReinitialised u chain laws store daemon (sync_from_current_state u daemon hash g)
      unfolding sync_from_current_state
      sync_from_current_state-IsReinitialised hash value e is_state =
          elim (Bool-cases (answers.best == hash)) [
            | inl tip ↦
                elim (resized 1 State.up_to_date g.target_block_hash g.req_token (omega arith)
                  (omega arith) (hash, value) e (inr refl)) [
                    | inr (m, run, failed) ↦ record {
                      game = record g { state = State.up_to_date; manager = m };
                      result = inr (ground (arith, is_state, answers.is_best, tip, run), failed);
                    }
                    | inl (m, d, run, stored, here, ready) ↦ record {
                      game = record g { state = State.up_to_date; manager = m };
                      result = inl (
                        d,
                        ground (arith, is_state, answers.is_best, tip, run),
                        ready,
                        λ _.
                            ground (
                              arith,
                              stored,
                              store.hash_seen d.storage,
                              here,
                              answers.is_best,
                              tip,
                            ),
                      );
                    }
                  ]
            | inr behind ↦
                let (target, is_target) = answers.target hash in
                elim (resized g.transaction_batch_size State.catching_up target
                  (daemon.send_updates hash).1 s.batch.0 s.batch.1 (hash, value) e (inl refl)) [
                    | inr (m, run, failed) ↦ record {
                      game = record g { state = State.catching_up; manager = m };
                      result = inr (ground (arith, is_state, answers.is_best, behind, run), failed);
                    }
                    | inl (m, d, run, stored, here, ready) ↦ record {
                      game = record g {
                        state = State.catching_up;
                        target_block_hash = target;
                        req_token = (daemon.send_updates hash).1;
                        manager = m;
                      };
                      result = inl (
                        d,
                        ground (arith, is_state, answers.is_best, behind, run, is_target),
                        ready,
                        λ h. absurd (cc),
                      );
                    }
                  ]
          ]
