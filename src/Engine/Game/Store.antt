-- ===== src/Engine/Game/Store.antt =====
-- What the driver (xayagame/game.cpp) relies on of a storage, by xayagame/storage.hpp.
use libxayagame.Base.{
  ℕ, ◌≡◌, ◌⊎◌, inl, inr, true, false, Option, none, some, String, if◌then◌else◌, arith,
}
use libxayagame.Base.Eq.{◌==◌, number_equality}
use libxayagame.Engine.Storage.{Outcome, done, throw, StorageInterface}
use libxayagame.Engine.HeightCache.{cached_storage, through, CachedStorage, rollback_transaction}
use libxayagame.Engine.Transactions.Invariant.{IsTransactional}
use libxayagame.Engine.Transactions.Scopes.{Kept}

abbrev pub first_of : {A B : Type 0} → Option (A × B) → Option A
first_of none = none
first_of (some (a, b)) = some a

abbrev pub second_of : {A B : Type 0} → Option (A × B) → Option B
second_of none = none
second_of (some (a, b)) = some b

-- The content is the current block with its state, and the undo data of blocks. Changes are made in
-- a transaction, and may throw; a storage is cleared outside of one.
pub record IsStore (st : StorageInterface) (laws : IsTransactional st) : Type 0 where
  pub current : laws.Content → Option (ℕ × String)
  pub undo : laws.Content → ℕ → Option String
  pub hash_seen : (s : st.State) → st.get_current_block_hash s ≡ first_of (current (laws.view s))
  pub state_seen : (s : st.State) → st.get_current_game_state s ≡ second_of (current (laws.view s))
  pub undo_seen : (hash : ℕ) (s : st.State) → st.get_undo_data hash s ≡ undo (laws.view s) hash
  pub sets :
      (hash : ℕ) (state : String) (s : st.State)
      → laws.is_open s ≡ true
      → (t : st.State) × Kept st laws s t
        × (((st.set_current_game_state hash state s ≡ done t)
              × (current (laws.view t) ≡ some (hash, state))
              × ((k : ℕ) → undo (laws.view t) k ≡ undo (laws.view s) k))
            ⊎ (st.set_current_game_state hash state s ≡ throw t))
  pub adds :
      (hash height : ℕ) (value : String) (s : st.State)
      → laws.is_open s ≡ true
      → (t : st.State) × Kept st laws s t
        × (((st.add_undo_data hash height value s ≡ done t)
              × (current (laws.view t) ≡ current (laws.view s))
              × ((k : ℕ)
                  → undo (laws.view t) k
                    ≡ (if hash == k then some value else undo (laws.view s) k)))
            ⊎ (st.add_undo_data hash height value s ≡ throw t))
  pub releases :
      (hash : ℕ) (s : st.State)
      → laws.is_open s ≡ true
      → (t : st.State) × Kept st laws s t
        × (((st.release_undo_data hash s ≡ done t)
              × (current (laws.view t) ≡ current (laws.view s))
              × ((k : ℕ)
                  → undo (laws.view t) k ≡ (if hash == k then none else undo (laws.view s) k)))
            ⊎ (st.release_undo_data hash s ≡ throw t))
  pub clears :
      (s : st.State)
      → laws.is_open s ≡ false
      → (t : st.State) × (st.clear s ≡ done t)
        × (laws.is_open t ≡ false)
        × (current (laws.view t) ≡ none)
        × ((k : ℕ) → undo (laws.view t) k ≡ none)
        × (current (laws.durable t) ≡ none)
        × ((k : ℕ) → undo (laws.durable t) k ≡ none)

-- The storage behind the height cache has transactions as the storage has.
module _ (st : StorageInterface) (hash_to_height : ℕ → ℕ) (laws : IsTransactional st) where
  abbrev Step : Type 0
  Step = st.State → Outcome st.State

  pub through-done :
      (f : Step) (c : CachedStorage st hash_to_height) (t : st.State)
      → f c.storage ≡ done t
      → through st hash_to_height f c ≡ done (record c { storage = t })
  through-done f c t e = ground (arith, e)

  pub through-throw :
      (f : Step) (c : CachedStorage st hash_to_height) (t : st.State)
      → f c.storage ≡ throw t
      → through st hash_to_height f c ≡ throw (record c { storage = t })
  through-throw f c t e = ground (arith, e)

  pub rollback_through :
      (c : CachedStorage st hash_to_height) (t : st.State)
      → st.rollback_transaction c.storage ≡ done t
      → rollback_transaction st hash_to_height c
        ≡ done (record c { storage = t; has_height = false })
  unfolding rollback_transaction
  rollback_through c t e = ground (arith, e)

  abbrev pub cached-IsTransactional : IsTransactional (cached_storage st hash_to_height)
  cached-IsTransactional = record {
    Content = laws.Content;
    is_open = λ c. laws.is_open c.storage;
    view = λ c. laws.view c.storage;
    durable = λ c. laws.durable c.storage;
    begins = λ c closed.
        let (t, e, o, v, d) = laws.begins c.storage closed in
        (record c { storage = t }, through-done st.begin_transaction c t e, o, v, d);
    commits = λ c opened. elim (laws.commits c.storage opened) [
      | inl (t, e, o, v, d) ↦
          inl (record c { storage = t }, through-done st.commit_transaction c t e, o, v, d)
      | inr (t, e, o, d) ↦
          inr (record c { storage = t }, through-throw st.commit_transaction c t e, o, d)
    ];
    rolls_back = λ c opened.
        let (t, e, o, v, d) = laws.rolls_back c.storage opened in
        (record c { storage = t; has_height = false }, rollback_through c t e, o, v, d);
  }
