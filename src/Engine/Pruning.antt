-- ===== src/Engine/Pruning.antt =====
-- xayagame/pruningqueue.cpp: the queue of the last blocks, whose undo data is kept.
pub mod Bodies
pub mod Attach
pub mod Exact
pub mod Detach
pub mod Kept
use libxayagame.Base.{
  ℕ, ◌+◌, ◌-◌, ◌^◌, ◌%◌, Bool, true, false, ◌&&◌, not, List, [], ◌∷◌, ◌++◌, length, without_last,
  ltb, leb, if◌then◌else◌,
}
use libxayagame.Engine.Storage.{Outcome, done, throw, abort, StorageInterface}
use libxayagame.Engine.Transactions.{TransactionManager, active_transaction, ◌>>=◌}

-- The front of `hashes` is the oldest block.
pub record PruningQueue : Type 0 where
  pub n_blocks : ℕ
  pub hashes : List ℕ
  pub initial_pruning_done : Bool

unfoldable pub reset : PruningQueue → PruningQueue
reset q = record q { hashes = []; initial_pruning_done = false }

unfoldable pub detach_block : PruningQueue → PruningQueue
detach_block q = record q { hashes = without_last q.hashes }

module _ (st : StorageInterface) where
  open st use {State, release_undo_data, prune_undo_data}

  -- The loop that pops the oldest blocks, on the hashes that are left.
  unfoldable pub release_from : List ℕ → PruningQueue → State → Outcome (PruningQueue × State)
  release_from [] q s = done (record q { hashes = [] }, s)
  release_from (h ∷ hs) q s = elim (ltb q.n_blocks (length (h ∷ hs))) [
    | false ↦ done (record q { hashes = h ∷ hs }, s)
    | true ↦ elim (release_undo_data h s) [
      | done t ↦ release_from hs q t
      | throw t ↦ throw (record q { hashes = h ∷ hs }, t)
      | abort ↦ abort
    ]
  ]

  unfoldable pub prune_if_too_long :
      PruningQueue → TransactionManager st → Outcome (PruningQueue × TransactionManager st)
  unfolding release_from
  prune_if_too_long q m =
      if leb (length q.hashes) q.n_blocks
      then done (q, m)
      else active_transaction st (λ p s. release_from p.hashes p s) q m

  unfoldable pub set_desired_size :
      ℕ → PruningQueue → TransactionManager st → Outcome (PruningQueue × TransactionManager st)
  unfolding prune_if_too_long
  set_desired_size n q m = prune_if_too_long (record q { n_blocks = n }) m

  -- The body of the transaction that removes the undo data of all old blocks.
  abbrev pub prune_before : ℕ → PruningQueue → State → Outcome (PruningQueue × State)
  prune_before height q s = elim (prune_undo_data height s) [
    | done t ↦ done (q, t)
    | throw t ↦ throw (q, t)
    | abort ↦ abort
  ]

  -- What is done when the queue fills up. The heights are `unsigned`.
  unfoldable pub initial_pruning :
      ℕ → PruningQueue → TransactionManager st → Outcome (PruningQueue × TransactionManager st)
  initial_pruning height q m =
      let next = (height + 1) % 2 ^ 32 in
      if ltb next (length q.hashes)
      then abort
      else (if ltb 0 (next - length q.hashes)
          then active_transaction st (prune_before (next - length q.hashes - 1)) q m
          else done (q, m))
        >>= λ r. done (record r.0 { initial_pruning_done = true }, r.1)

  unfoldable pub attach_block :
      ℕ → ℕ → PruningQueue → TransactionManager st → Outcome (PruningQueue × TransactionManager st)
  unfolding initial_pruning prune_if_too_long
  attach_block hash height q m =
      let pushed : PruningQueue = record q { hashes = q.hashes ++ hash ∷ [] } in
      (if not pushed.initial_pruning_done && leb pushed.n_blocks (length pushed.hashes)
        then initial_pruning height pushed m
        else done (pushed, m))
      >>= λ r. prune_if_too_long r.0 r.1
