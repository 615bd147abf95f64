-- ===== src/Engine/Transactions.antt =====
-- xayagame/transactionmanager.cpp: transactions that are committed in batches.
pub mod Recent
pub mod History
pub mod Invariant
pub mod Resized
pub mod Scopes
use libxayagame.Base.{
  ℕ, ◌+◌, ◌^◌, ◌%◌, Bool, true, false, ◌||◌, not, Option, none, some, ltb, leb, if◌then◌else◌,
}
use libxayagame.Engine.Storage.{Outcome, done, throw, abort, StorageInterface}

-- A step on the state of an object, whose state an exception leaves as it stands.
infixl 5 ◌>>=◌
abbrev pub ◌>>=◌ : {S : Type 0} → Outcome S → (S → Outcome S) → Outcome S
done s >>= f = f s
throw s >>= f = throw s
abort >>= f = abort

abbrev pub check : {S : Type 0} → Bool → S → Outcome S
check b s = if b then done s else abort

module _ (st : StorageInterface) where
  open st use {State, begin_transaction, commit_transaction, rollback_transaction}

  -- `batchSize` and `batchedCommits` are `unsigned`; the storage pointer may be null.
  pub record TransactionManager : Type 0 where
    pub storage : Option State
    pub batch_size : ℕ
    pub batched_commits : ℕ
    pub in_transaction : Bool
    pub commit_failed : Bool

  abbrev pub initial : TransactionManager
  initial = record {
    storage = none;
    batch_size = 1;
    batched_commits = 0;
    in_transaction = false;
    commit_failed = false;
  }

  -- A call of the storage; without one it is a CHECK failure.
  abbrev pub call : (State → Outcome State) → TransactionManager → Outcome TransactionManager
  call f m = elim m.storage [
    | none ↦ abort
    | some s ↦ elim (f s) [
      | done s' ↦ done (record m { storage = some s' })
      | throw s' ↦ throw (record m { storage = some s' })
      | abort ↦ abort
    ]
  ]

  abbrev pub has_storage : TransactionManager → Bool
  has_storage m = elim m.storage [ none ↦ false | some _ ↦ true ]

  -- The commit of a batch, where a null pointer has nothing to commit.
  abbrev commit_batch : TransactionManager → Outcome TransactionManager
  commit_batch m = elim m.storage [
    | none ↦ done m
    | some s ↦ elim (commit_transaction s) [
      | done s' ↦ done (record m { storage = some s' })
      | throw s' ↦ throw (record m { storage = some s'; commit_failed = true })
      | abort ↦ abort
    ]
  ]

  unfoldable pub flush : TransactionManager → Outcome TransactionManager
  flush m =
      if m.in_transaction || m.commit_failed
      then abort
      else if ltb 0 m.batched_commits
      then (commit_batch m >>= λ n. done (record n { batched_commits = 0 }))
      else done m

  unfoldable pub set_storage : State → TransactionManager → Outcome TransactionManager
  set_storage s m = flush m >>= λ n. done (record n { storage = some s })

  unfoldable pub set_batch_size : ℕ → TransactionManager → Outcome TransactionManager
  set_batch_size sz m =
      if not (leb 1 sz)
      then abort
      else let n : TransactionManager = record m { batch_size = sz } in
        if leb sz n.batched_commits then if n.in_transaction then done n else flush n else done n

  unfoldable pub begin : TransactionManager → Outcome TransactionManager
  begin m =
      if not (has_storage m) || m.commit_failed || m.in_transaction
      then abort
      else let n : TransactionManager = record m { in_transaction = true } in
        elim (leb n.batched_commits 0) [ true ↦ call begin_transaction n | false ↦ done n ]

  unfoldable pub commit : TransactionManager → Outcome TransactionManager
  unfolding flush
  commit m =
      if not (has_storage m) || m.commit_failed || not m.in_transaction
      then abort
      else let n : TransactionManager = record m {
        in_transaction = false;
        batched_commits = (m.batched_commits + 1) % 2 ^ 32;
      } in
        if leb n.batch_size n.batched_commits then flush n else done n

  unfoldable pub rollback : TransactionManager → Outcome TransactionManager
  rollback m =
      if not (has_storage m) || not (m.in_transaction || m.commit_failed)
      then abort
      else call rollback_transaction (record m { in_transaction = false; commit_failed = false })
        >>= λ n. done (record n { batched_commits = 0 })

  unfoldable pub try_abort : TransactionManager → Outcome TransactionManager
  try_abort m =
      if not (has_storage m)
      then abort
      else (if m.in_transaction || m.commit_failed || ltb 0 m.batched_commits
          then call rollback_transaction m
          else done m)
        >>= λ n.
            done (record n { in_transaction = false; commit_failed = false; batched_commits = 0 })

  -- The destructor: an exception that leaves it ends the process.
  unfoldable pub destroy : TransactionManager → Outcome TransactionManager
  unfolding flush
  destroy m =
      if m.in_transaction
      then abort
      else elim (flush m) [ done n ↦ done n | throw _ ↦ abort | abort ↦ abort ]

  -- The state of an `ActiveTransaction` block: what it works with besides the storage, and the
  -- manager.
  abbrev with_state :
      {Q : Type 0} → Q → Outcome TransactionManager → Outcome (Q × TransactionManager)
  with_state q (done m) = done (q, m)
  with_state q (throw m) = throw (q, m)
  with_state q abort = abort

  -- The body's effect on the storage of the manager.
  abbrev pub run :
      {Q : Type 0}
      → (Q → State → Outcome (Q × State))
      → Q
      → TransactionManager
      → Outcome (Q × TransactionManager)
  run body q m = elim m.storage [
    | none ↦ abort
    | some s ↦ elim (body q s) [
      | done (q', s') ↦ done (q', record m { storage = some s' })
      | throw (q', s') ↦ throw (q', record m { storage = some s' })
      | abort ↦ abort
    ]
  ]

  -- The destructor of an `ActiveTransaction` that is not committed, while an exception is thrown.
  abbrev pub unwind : {Q : Type 0} → Q → TransactionManager → Outcome (Q × TransactionManager)
  unwind q m = elim (rollback m) [ done n ↦ throw (q, n) | throw _ ↦ abort | abort ↦ abort ]

  -- A block that constructs an `ActiveTransaction`, runs the body and calls `Commit`. A constructor
  -- that throws leaves nothing to destruct.
  unfoldable pub active_transaction :
      {Q : Type 0}
      → (Q → State → Outcome (Q × State))
      → Q
      → TransactionManager
      → Outcome (Q × TransactionManager)
  unfolding begin commit rollback
  active_transaction body q m = elim (begin m) [
    | abort ↦ abort
    | throw n ↦ throw (q, n)
    | done n ↦ elim (run body q n) [
      | abort ↦ abort
      | throw (q', n') ↦ unwind q' n'
      | done (q', n') ↦ elim (commit n') [
        | done r ↦ done (q', r)
        | throw r ↦ unwind q' r
        | abort ↦ abort
      ]
    ]
  ]
