-- ===== src/Engine/Game/Escapes.antt =====
-- An exception that leaves the handlers of the driver (xayagame/game.cpp).
use libxayagame.Base.{ℕ, ◌<◌, ◌≡◌, true, some, String, arith}
use libxayagame.Base.Eq.{◌==◌, number_equality}
use libxayagame.Engine.Storage.{Outcome}
use libxayagame.Engine.HeightCache.{CachedStorage}
use libxayagame.Engine.Transactions.{set_batch_size, flush}
use libxayagame.Engine.Transactions.Invariant.{IsTransactional}
use libxayagame.Engine.Game.{State, Setup, Daemon, Game, throw, current_hash}
use libxayagame.Engine.Game.Sync.{sync_from_current_state, reinitialise_state}
use libxayagame.Engine.Game.Store.{IsStore, through-throw}
use libxayagame.Engine.Game.Chain.{Chain}
use libxayagame.Engine.Game.Updates.{IsSynced}

module _ (u : Setup) (chain : Chain u) (laws : IsTransactional u.store)
    (store : IsStore u.store laws) where
  -- If the current block is the best one, as at the end of catching up, there are batched
  -- transactions, and the storage throws when they are committed, then reinitialising throws, with
  -- the driver up to date and the batch not committed.
  pub reinitialise_state-throws :
      (fuel : ℕ) (daemon : Daemon u.json) (g : Game u) (c : CachedStorage u.store u.hash_to_height)
      (hash : ℕ) (value : String) (t : u.store.State)
      → IsSynced u chain laws store g c
      → store.current (laws.view c.storage) ≡ some (hash, value)
      → u.from_hex daemon.best_block_hash ≡ some hash
      → 0 < g.manager.batched_commits
      → u.store.commit_transaction c.storage ≡ Outcome.throw t
      → reinitialise_state u fuel daemon g
        ≡ throw (record g {
          state = State.up_to_date;
          manager = record g.manager {
            storage = some (record c { storage = t });
            batch_size = 1;
            commit_failed = true;
          };
        })
  unfolding reinitialise_state sync_from_current_state set_batch_size flush
  reinitialise_state-throws fuel daemon g c hash value t s e best batched fails =
      let known : current_hash g ≡ some hash =
        ground (arith, s.idle.stored, store.hash_seen c.storage, e) in
      let threw =
        through-throw u.store u.hash_to_height laws u.store.commit_transaction c t fails in
      let tip : (hash == hash) ≡ true = ground arith in
      ground (arith, known, best, tip, batched, s.idle.stored, s.idle.idle, s.idle.good, threw)
