-- ===== src/Engine/Storage.antt =====
-- xayagame/storage.hpp and xayagame/storage.cpp: the storage of states and undo data.
use libxayagame.Base.{ℕ, String, Option, ◌≡◌, refl, ◌⊎◌, inl, inr}
use libxayagame.Base.Eq.{number_equality}

-- A step on a state: it returns, it throws an exception, or it fails a CHECK.
pub data Outcome (S : Type 0) : Type 0 where
  done : S → Outcome S
  throw : S → Outcome S
  abort : Outcome S

pub Outcome-cases :
    {S : Type 0} (o : Outcome S)
    → ((s : S) × (o ≡ done s)) ⊎ (((s : S) × (o ≡ throw s)) ⊎ (o ≡ abort))
Outcome-cases (done s) = inl (s, refl)
Outcome-cases (throw s) = inr (inl (s, refl))
Outcome-cases abort = inr (inr refl)

-- `StorageInterface`. Block hashes are numbers. The queries are `none` where they return false.
pub record StorageInterface : Type 1 where
  pub State : Type 0
  pub clear : State → Outcome State
  pub get_current_block_hash : State → Option ℕ
  pub get_current_game_state : State → Option String
  pub set_current_game_state : ℕ → String → State → Outcome State
  pub get_undo_data : ℕ → State → Option String
  pub add_undo_data : ℕ → ℕ → String → State → Outcome State
  pub release_undo_data : ℕ → State → Outcome State
  pub prune_undo_data : ℕ → State → Outcome State
  pub begin_transaction : State → Outcome State
  pub commit_transaction : State → Outcome State
  pub rollback_transaction : State → Outcome State
