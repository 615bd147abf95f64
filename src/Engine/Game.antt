-- ===== src/Engine/Game.antt =====
-- xayagame/game.cpp: the driver that follows the chain. This file has its state and what it depends
-- on; the children have syncing, the handlers of notifications, and the theorems.
pub mod Attach
pub mod Chain
pub mod Updates
pub mod Ready
pub mod CaughtUp
pub mod Synced
pub mod Escapes
pub mod Follows
pub mod Store
pub mod Sync
pub mod Handlers
use libxayagame.Base.{ℕ, Bool, true, false, Option, none, some, String, List, if◌then◌else◌}
use libxayagame.Base.Json.{Json}
use libxayagame.Engine.Storage.{Outcome, StorageInterface}
use libxayagame.Engine.HeightCache.{CachedStorage, cached_storage}
use libxayagame.Engine.Transactions.{TransactionManager}
use libxayagame.Engine.Pruning.{PruningQueue}
use libxayagame.Engine.PendingMoves.{PendingGame, PendingMoveProcessor}

pub data State : Type 0 where
  unknown pregenesis out_of_sync catching_up up_to_date : State

abbrev pub same_state : State → State → Bool
same_state State.unknown State.unknown = true
same_state State.pregenesis State.pregenesis = true
same_state State.out_of_sync State.out_of_sync = true
same_state State.catching_up State.catching_up = true
same_state State.up_to_date State.up_to_date = true
same_state _ _ = false

-- `GameLogic` (xayagame/gamelogic.hpp). A block's forward processing gives the new state and the
-- undo data; the initial state comes with the height and the hash of its block, in hexadecimal.
pub record GameLogic (json : Json) : Type 1 where
  pub process_forward : String → json.Value → String × String
  pub process_backwards : String → json.Value → String → String
  pub get_initial_state : String × ℕ × String

-- What Xaya Core answers while a handler runs: `getblockchaininfo`, `getblockhash`, the target
-- block and request token of `game_sendupdates`, and `getrawmempool`.
pub record Daemon (json : Json) : Type 0 where
  pub best_block_hash : String
  pub blocks : ℕ
  pub block_hash : ℕ → String
  pub send_updates : ℕ → String × String
  pub mempool : List json.Value

-- What the driver works with, besides its own state: jsoncpp, `uint256::FromHex`, the storage, the
-- heights of blocks as Xaya Core knows them, the game, and its processor of pending moves.
pub record Setup : Type 1 where
  pub json : Json
  pub from_hex : String → Option ℕ
  pub store : StorageInterface
  pub hash_to_height : ℕ → ℕ
  pub rules : GameLogic json
  pub pending_game : PendingGame json

abbrev pub Cached : Setup → StorageInterface
Cached u = cached_storage u.store u.hash_to_height

-- The storage of the game is that of its transaction manager. A null hash is 0.
pub record Game (u : Setup) : Type 0 where
  pub game_id : String
  pub state : State
  pub genesis_height : ℕ
  pub genesis_hash : ℕ
  pub target_block_hash : ℕ
  pub req_token : String
  pub manager : TransactionManager (Cached u)
  pub pending : Option (PendingMoveProcessor u.json u.pending_game u.from_hex)
  pub pending_state_version : ℕ
  pub transaction_batch_size : ℕ
  pub pruning_queue : Option PruningQueue

-- A method: it returns, it throws `RetryWithNewTransaction`, it fails a CHECK (or calls
-- LOG (FATAL)), or its fuel for retries runs out.
pub data Run (u : Setup) (A : Type 0) : Type 0 where
  done : Game u → A → Run u A
  throw : Game u → Run u A
  abort : Run u A
  unfinished : Run u A

abbrev pub required : {u : Setup} {A B : Type 0} → Option A → (A → Run u B) → Run u B
required none f = abort
required (some a) f = f a

abbrev pub then_do : {u : Setup} {A B : Type 0} → Run u A → (Game u → A → Run u B) → Run u B
then_do (done g a) f = f g a
then_do (throw g) f = throw g
then_do abort f = abort
then_do unfinished f = unfinished

-- A call of the transaction manager.
abbrev pub managed :
    {u : Setup} → Game u → Outcome (TransactionManager (Cached u)) → Run u (Unit {0})
managed g (Outcome.done m) = done (record g { manager = m }) tt
managed g (Outcome.throw m) = throw (record g { manager = m })
managed g Outcome.abort = abort

-- `GetCurrentBlockHash` and `GetCurrentGameState` of the storage.
abbrev pub current_hash : {u : Setup} → Game u → Option ℕ
current_hash {u} g = elim g.manager.storage [
  | none ↦ none
  | some c ↦ (Cached u).get_current_block_hash c
]

abbrev pub current_state : {u : Setup} → Game u → Option String
current_state {u} g = elim g.manager.storage [
  | none ↦ none
  | some c ↦ (Cached u).get_current_game_state c
]
