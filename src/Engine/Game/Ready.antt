-- ===== src/Engine/Game/Ready.antt =====
-- Between the notifications that the driver gets, and after reinitialising (xayagame/game.cpp).
use libxayagame.Base.{ℕ, ◌<◌, ◌≡◌, ◌⊎◌, true, none, some, String}
use libxayagame.Base.Eq.{number_equality}
use libxayagame.Engine.HeightCache.{CachedStorage, set_current_game_state_with_height}
use libxayagame.Engine.Transactions.{TransactionManager}
use libxayagame.Engine.Transactions.Invariant.{IsTransactional}
use libxayagame.Engine.Game.{State, Setup, Cached, Daemon, Game, Run, done, throw, current_hash}
use libxayagame.Engine.Game.Attach.{in_transaction}
use libxayagame.Engine.Game.Store.{IsStore}
use libxayagame.Engine.Game.Chain.{Chain}
use libxayagame.Engine.Game.Updates.{IsSynced}

module _ (u : Setup) (chain : Chain u) (laws : IsTransactional u.store)
    (store : IsStore u.store laws) where
  -- Xaya Core answers with hashes, and knows the genesis block of the game.
  pub record IsAnswering (daemon : Daemon u.json) : Type 0 where
    pub best : ℕ
    pub is_best : u.from_hex daemon.best_block_hash ≡ some best
    pub target : (current : ℕ) → (h : ℕ) × (u.from_hex (daemon.send_updates current).0 ≡ some h)
    pub at_genesis : u.from_hex (daemon.block_hash u.rules.get_initial_state.1) ≡ some chain.genesis

  -- The storage throws only so often in a row, when the initial state is stored.
  pub record IsPatient (fuel : ℕ) : Type 0 where
    pub patience : TransactionManager (Cached u) → ℕ
    pub wears :
        (g h : Game u) (initial : String)
        → in_transaction u
            (set_current_game_state_with_height u.store u.hash_to_height g.genesis_hash
              g.genesis_height initial)
            g
          ≡ throw h
        → patience h.manager < patience g.manager
    pub enough : (m : TransactionManager (Cached u)) → patience m < fuel

  -- Between notifications: the state in the storage is right, and there is one unless the driver
  -- waits for the genesis block. There is no pruning and no tracking of pending moves.
  pub record IsReady (g : Game u) (c : CachedStorage u.store u.hash_to_height) : Type 0 where
    pub synced : IsSynced u chain laws store g c
    pub at_state :
        (g.state ≡ State.pregenesis)
        ⊎ (((g.state ≡ State.catching_up) ⊎ (g.state ≡ State.up_to_date))
            × ((x : ℕ × String) × (store.current (laws.view c.storage) ≡ some x)))
    pub no_pruning : g.pruning_queue ≡ none
    pub no_pending : g.pending ≡ none

  -- Either the driver is ready, and up to date only at the best block, or the commit of a batch has
  -- thrown.
  pub record IsReinitialised (daemon : Daemon u.json) (run : Run u (Unit {0})) : Type 0 where
    pub game : Game u
    pub result :
        ((c : CachedStorage u.store u.hash_to_height) × (run ≡ done game tt)
          × IsReady game c
          × (game.state ≡ State.up_to_date → current_hash game ≡ u.from_hex daemon.best_block_hash))
        ⊎ ((run ≡ throw game) × (game.manager.commit_failed ≡ true))
