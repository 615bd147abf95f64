-- ===== src/Engine/Tests.antt =====
-- Tests of the models of xayagame/, and instances of their theorems.
use libxayagame.Base.{
  ℕ, ◌-◌, ◌≤◌, ◌≡◌, refl, ◌⊎◌, inl, inr, Bool-cases, true, false, Option, none, some, [], ◌∷◌,
  length, String, arith, if◌then◌else◌,
}
use libxayagame.Base.Eq.{◌==◌, number_equality, text_equality}
use libxayagame.Base.Map.{lookup}
use libxayagame.Engine.Storage.{Outcome, done, throw, abort, StorageInterface}
use libxayagame.Engine.Memory.{
  MemoryStorage, add_undo_data, release_undo_data, prune_undo_data, Leads, added, kept,
  undo_data_lem,
}
use libxayagame.Engine.Transactions.{TransactionManager, active_transaction}
use libxayagame.Engine.Transactions.Invariant.{IsIdle}
use libxayagame.Engine.Transactions.Scopes.{IsBody, active_transaction-Succeeded, Outcomes}
use libxayagame.Engine.Transactions.Recent.{start, succeeded, History, IsRecent}
use libxayagame.Engine.Transactions.History.{History-IsRecent}
use libxayagame.Engine.Pruning.{detach_block, set_desired_size, PruningQueue, attach_block}
use libxayagame.Engine.Pruning.Detach.{detach_block-attach_block, set_desired_size-Pruned}
use libxayagame.Engine.Pruning.Attach.{Pruned, attach_block-Pruned}
use libxayagame.Engine.HeightCache.{CachedStorage, get_current_block_hash_with_height}
use libxayagame.Engine.HeightCache.Correct.{
  IsCached, HoldsHash, Returns, Reached, start as start_uncached, asked, undone, returned,
  set_state, beginning, perform, Reached-IsCached, get_current_block_hash_with_height_lem,
}
use libxayagame.Engine.SampleStorage.{
  Stored, Snapshots, snapshots, snapshots-IsTransactional, snapshots-IsPrunable,
  snapshots-HoldsHash,
}

-- A block 10 has height 1, a block 11 height 2, and so on.
abbrev undo_of : ℕ → Option (ℕ × String)
undo_of k =
    if k == 10
    then some (1, "a")
    else if k == 11
    then some (2, "b")
    else if k == 12
    then some (3, "c")
    else none

abbrev content : Stored
content = record { current = some (12, "s"); undo_data = undo_of }

abbrev closed : Snapshots
closed = record { is_open = false; view = content; durable = content }

-- Batches of two.
abbrev manager : TransactionManager snapshots
manager = record {
  storage = some closed;
  batch_size = 2;
  batched_commits = 0;
  in_transaction = false;
  commit_failed = false;
}

abbrev manager-IsIdle : IsIdle snapshots snapshots-IsTransactional manager closed
manager-IsIdle = record {
  stored = refl;
  idle = refl;
  good = refl;
  sized = record { room = omega arith; fits = omega arith };
  opened = refl;
}

-- A body that sets the current state.
abbrev set_body : ℕ → Snapshots → Outcome (ℕ × Snapshots)
set_body q s =
    if s.is_open
    then done (q, record s { view = record s.view { current = some (q, "t") } })
    else abort

set_body-IsBody : IsBody snapshots snapshots-IsTransactional set_body
set_body-IsBody q s o =
    (q, record s { view = record s.view { current = some (q, "t") } }, inl (rw o refl), (o, refl))

abbrev open_state : Snapshots
open_state = record {
  is_open = true;
  view = record content { current = some (13, "t") };
  durable = content;
}

abbrev batched : TransactionManager snapshots
batched = record {
  storage = some open_state;
  batch_size = 2;
  batched_commits = 1;
  in_transaction = false;
  commit_failed = false;
}

scope_runs : active_transaction snapshots set_body 13 manager ≡ done (13, batched)
unfolding active_transaction
scope_runs = refl

active_transaction-Succeeded_example :
    Outcomes snapshots snapshots-IsTransactional set_body set_body-IsBody 13 manager closed
      manager-IsIdle
active_transaction-Succeeded_example =
    active_transaction-Succeeded snapshots snapshots-IsTransactional set_body set_body-IsBody 13
      manager closed manager-IsIdle

abbrev one_transaction :
    History snapshots snapshots-IsTransactional batched open_state (open_state.view ∷ content ∷ [])
one_transaction =
    succeeded set_body 13 13 manager batched closed open_state (content ∷ []) set_body-IsBody
      (start manager closed manager-IsIdle refl refl) scope_runs refl

History-IsRecent_example :
    IsRecent snapshots snapshots-IsTransactional batched open_state (open_state.view ∷ content ∷ [])
History-IsRecent_example =
    History-IsRecent snapshots snapshots-IsTransactional batched open_state
      (open_state.view ∷ content ∷ []) one_transaction

-- Two blocks are kept; the third one fills the queue.
abbrev queue : PruningQueue
queue = record { n_blocks = 2; hashes = 11 ∷ []; initial_pruning_done = false }

attach_block-Pruned_example :
    Pruned snapshots snapshots-IsTransactional snapshots-IsPrunable
      (11 ∷ 12 ∷ [])
      closed
      (attach_block snapshots 12 3 queue manager)
      (λ r. length r.hashes ≤ 2)
attach_block-Pruned_example =
    attach_block-Pruned snapshots snapshots-IsTransactional snapshots-IsPrunable 12 3 queue manager
      closed manager-IsIdle (omega arith) (omega arith) (refl, (refl, tt)) (refl, (refl, tt))

abbrev in_memory : MemoryStorage
in_memory = record {
  has_state = true;
  current_block = 11;
  current_state = "s";
  undo_data = (10, (1, "a")) ∷ (11, (2, "b")) ∷ [];
  started_txn = true;
}

undo_data_lem_example :
    Leads
      (add_undo_data 10 2 "c" in_memory)
      (λ m. lookup 10 m ≡ added 10 (2, "c") 10 (lookup 10 in_memory.undo_data))
    × Leads (release_undo_data 10 in_memory) (λ m. lookup 10 m ≡ none)
    × Leads
        (prune_undo_data 2 in_memory)
        (λ m. lookup 10 m ≡ kept 2 (lookup 10 in_memory.undo_data))
unfolding lookup
undo_data_lem_example = undo_data_lem in_memory refl (refl, (refl, tt)) 10 2 "c" 10

-- The height of a block.
abbrev height_of : ℕ → ℕ
height_of hash = hash - 9

abbrev cached : CachedStorage snapshots height_of
cached = record { storage = open_state; cross_check = true; cached_height = 4; has_height = true }

-- A storage that writes the hash, and throws where no state can be written.
abbrev torn : StorageInterface
torn = record snapshots {
  set_current_game_state = λ hash state s.
      if s.is_open
      then (let written : Snapshots = record s {
        view = record s.view { current = some (hash, state) };
      } in
          if state == "" then throw written else done written)
      else abort;
}

torn_set :
    (hash : ℕ) (state : String) (s : Snapshots)
    → Returns
        (λ t. torn.get_current_block_hash t ≡ some hash)
        (torn.set_current_game_state hash state s)
torn_set hash state s = elim (Bool-cases s.is_open) [
  | inr c ↦ rw c tt
  | inl o ↦ elim (Bool-cases (state == "")) [
    | inl empty ↦ rw (o, empty) tt
    | inr full ↦ rw (o, full) refl
  ]
]

torn-HoldsHash : HoldsHash torn
torn-HoldsHash = record {
  sets = torn_set;
  adds = snapshots-HoldsHash.adds;
  releases = snapshots-HoldsHash.releases;
  prunes = snapshots-HoldsHash.prunes;
  begins = snapshots-HoldsHash.begins;
  commits = snapshots-HoldsHash.commits;
}

abbrev cached_at : Snapshots → ℕ → CachedStorage torn height_of
cached_at s height = record {
  storage = s;
  cross_check = true;
  cached_height = height;
  has_height = true;
}

abbrev not_cached : Snapshots → ℕ → CachedStorage torn height_of
not_cached s height = record (cached_at s height) { has_height = false }

abbrev half_written : Snapshots
half_written = record open_state { view = record open_state.view { current = some (14, "") } }

abbrev written : Snapshots
written = record open_state { view = record content { current = some (14, "u") } }

-- The height is asked for, a set throws behind the write of its hash, which is rolled back, and the
-- set is done again.
reached : Reached torn height_of (cached_at written 5)
unfolding perform get_current_block_hash_with_height
reached =
    let first : Reached torn height_of (not_cached open_state 0) = start_uncached _ refl in
    let known : Reached torn height_of (cached_at open_state 4) = asked first refl in
    let back : Reached torn height_of (not_cached closed 4) =
      undone {d = cached_at half_written 4} known (set_state 14 5 "") refl (inl refl) in
    let again : Reached torn height_of (not_cached (record closed { is_open = true }) 4) =
      returned back beginning tt refl in
    returned again (set_state 14 5 "u") refl refl

Reached-IsCached_example : IsCached torn height_of (cached_at written 5)
Reached-IsCached_example = Reached-IsCached torn height_of torn-HoldsHash reached

get_current_block_hash_with_height_lem_example :
    (d : CachedStorage snapshots height_of) × (get_current_block_hash_with_height snapshots
        height_of cached
      ≡ done (some (13, 4), d))
    × IsCached snapshots height_of d
    × (d.storage ≡ open_state)
get_current_block_hash_with_height_lem_example =
    get_current_block_hash_with_height_lem snapshots height_of cached (inr (13, refl, refl))

-- In a queue of one block the new one leaves no room for the old one.
abbrev one_block : PruningQueue
one_block = record queue { n_blocks = 1 }

detach_block-attach_block_example :
    (r : PruningQueue) × (n : TransactionManager snapshots) × (((attach_block snapshots 12 3
            one_block manager
          ≡ done (r, n))
        × (detach_block r ≡ record { n_blocks = 1; hashes = []; initial_pruning_done = true }))
      ⊎ (attach_block snapshots 12 3 one_block manager ≡ throw (r, n)))
detach_block-attach_block_example =
    detach_block-attach_block snapshots snapshots-IsTransactional snapshots-IsPrunable 12 3
      one_block manager closed manager-IsIdle (omega arith) (omega arith) (refl, (refl, tt))
      (refl, (refl, tt))

set_desired_size-Pruned_example :
    Pruned snapshots snapshots-IsTransactional snapshots-IsPrunable
      (11 ∷ 12 ∷ [])
      closed
      (set_desired_size snapshots 1 (record queue { hashes = 11 ∷ 12 ∷ [] }) manager)
      (λ r. length r.hashes ≤ 1)
set_desired_size-Pruned_example =
    set_desired_size-Pruned snapshots snapshots-IsTransactional snapshots-IsPrunable 1
      (record queue { hashes = 11 ∷ 12 ∷ [] }) manager closed manager-IsIdle (refl, (refl, tt))
