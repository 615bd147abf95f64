-- ===== src/Engine/HeightCache.antt =====
-- xayagame/heightcache.cpp and heightcache.hpp: a storage with a cached block height.
pub mod Correct
use libxayagame.Base.{ℕ, Bool, true, false, ◌&&◌, not, Option, none, some, String, if◌then◌else◌}
use libxayagame.Base.Eq.{◌==◌, number_equality}
use libxayagame.Engine.Storage.{Outcome, done, throw, abort, StorageInterface}

-- `hash_to_height` is the callback; Game asks Xaya Core.
module _ (st : StorageInterface) (hash_to_height : ℕ → ℕ) where
  -- `cachedHeight` is only meant where `hasHeight` is set.
  pub record CachedStorage : Type 0 where
    pub storage : st.State
    pub cross_check : Bool
    pub cached_height : ℕ
    pub has_height : Bool

  -- A call of the wrapped storage.
  abbrev pub through : (st.State → Outcome st.State) → CachedStorage → Outcome CachedStorage
  through f c = elim (f c.storage) [
    | done s ↦ done (record c { storage = s })
    | throw s ↦ throw (record c { storage = s })
    | abort ↦ abort
  ]

  unfoldable pub enable_cross_checks : CachedStorage → CachedStorage
  enable_cross_checks c = record c { cross_check = true }

  -- The height is cached behind a step that returns.
  abbrev pub then_cache : ℕ → Outcome CachedStorage → Outcome CachedStorage
  then_cache height (done d) = done (record d { has_height = true; cached_height = height })
  then_cache height (throw d) = throw d
  then_cache height abort = abort

  unfoldable pub set_current_game_state_with_height :
      ℕ → ℕ → String → CachedStorage → Outcome CachedStorage
  set_current_game_state_with_height hash height state c =
      then_cache height (through (st.set_current_game_state hash state) c)

  -- The hash and its height, if there is a state; the cache may be filled.
  unfoldable pub get_current_block_hash_with_height :
      CachedStorage → Outcome (Option (ℕ × ℕ) × CachedStorage)
  get_current_block_hash_with_height c = elim (st.get_current_block_hash c.storage) [
    | none ↦ done (none, c)
    | some hash ↦
        let d : CachedStorage =
          if not c.has_height
          then record c { cached_height = hash_to_height hash; has_height = true }
          else c in
        if c.cross_check && c.has_height && not (d.cached_height == hash_to_height hash)
        then abort
        else done (some (hash, d.cached_height), d)
  ]

  unfoldable pub clear : CachedStorage → Outcome CachedStorage
  clear c = through st.clear (record c { has_height = false })

  unfoldable pub set_current_game_state : ℕ → String → CachedStorage → Outcome CachedStorage
  set_current_game_state hash state c = abort

  unfoldable pub rollback_transaction : CachedStorage → Outcome CachedStorage
  rollback_transaction c = through st.rollback_transaction (record c { has_height = false })

  -- The wrapper is a storage itself.
  abbrev pub cached_storage : StorageInterface
  cached_storage = record {
    State = CachedStorage;
    clear = clear;
    get_current_block_hash = λ c. st.get_current_block_hash c.storage;
    get_current_game_state = λ c. st.get_current_game_state c.storage;
    set_current_game_state = set_current_game_state;
    get_undo_data = λ hash c. st.get_undo_data hash c.storage;
    add_undo_data = λ hash height value. through (st.add_undo_data hash height value);
    release_undo_data = λ hash. through (st.release_undo_data hash);
    prune_undo_data = λ height. through (st.prune_undo_data height);
    begin_transaction = through st.begin_transaction;
    commit_transaction = through st.commit_transaction;
    rollback_transaction = rollback_transaction;
  }
