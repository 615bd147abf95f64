-- ===== src/Engine/Memory.antt =====
-- `MemoryStorage` (xayagame/storage.cpp): a storage in memory that cannot roll back.
use libxayagame.Base.{
  Bool-cases, ◌⊎◌, ℕ, ◌≡◌, refl, Option-cases, inl, inr, String, Bool, true, false, not, Option,
  none, some, List, [], ◌∷◌, leb, if◌then◌else◌, arith,
}
use libxayagame.Base.Eq.{◌==◌, number_equality}
use libxayagame.Base.Map.{
  lookup, insert, erase, lookup-insert, lookup-erase, Distinct, insert-Distinct,
}
use libxayagame.Engine.Storage.{Outcome, done, abort, StorageInterface}

-- The undo data of a block, with its height.
abbrev pub UndoMap : Type 0
UndoMap = List (ℕ × (ℕ × String))

pub record MemoryStorage : Type 0 where
  pub has_state : Bool
  pub current_block : ℕ
  pub current_state : String
  pub undo_data : UndoMap
  pub started_txn : Bool

abbrev checked : Bool → MemoryStorage → Outcome MemoryStorage
checked b s = if b then done s else abort

unfoldable pub clear : MemoryStorage → Outcome MemoryStorage
clear s = checked (not s.started_txn) (record s { has_state = false; undo_data = [] })

unfoldable pub get_current_block_hash : MemoryStorage → Option ℕ
get_current_block_hash s = if not s.has_state then none else some s.current_block

-- `none` is a failed CHECK.
unfoldable pub get_current_game_state : MemoryStorage → Option String
get_current_game_state s = if s.has_state then some s.current_state else none

unfoldable pub set_current_game_state : ℕ → String → MemoryStorage → Outcome MemoryStorage
set_current_game_state hash value s =
    checked s.started_txn
      (record s { has_state = true; current_block = hash; current_state = value })

unfoldable pub get_undo_data : ℕ → MemoryStorage → Option String
get_undo_data hash s = elim (lookup hash s.undo_data) [ none ↦ none | some (_, value) ↦ some value ]

-- `emplace` keeps an entry that is there.
unfoldable pub add_undo_data : ℕ → ℕ → String → MemoryStorage → Outcome MemoryStorage
add_undo_data hash height value s = checked s.started_txn (elim (lookup hash s.undo_data) [
  | none ↦ record s { undo_data = insert hash (height, value) s.undo_data }
  | some _ ↦ s
])

unfoldable pub release_undo_data : ℕ → MemoryStorage → Outcome MemoryStorage
release_undo_data hash s = checked s.started_txn (record s { undo_data = erase hash s.undo_data })

-- The loop over the map that erases the entries up to a height.
unfoldable pub prune_entries : ℕ → UndoMap → UndoMap
prune_entries height [] = []
prune_entries height ((hash, (h, value)) ∷ m) =
    let rest = prune_entries height m in if leb h height then rest else (hash, (h, value)) ∷ rest

unfoldable pub prune_undo_data : ℕ → MemoryStorage → Outcome MemoryStorage
unfolding prune_entries
prune_undo_data height s =
    checked s.started_txn (record s { undo_data = prune_entries height s.undo_data })

unfoldable pub begin_transaction : MemoryStorage → Outcome MemoryStorage
begin_transaction s = checked (not s.started_txn) (record s { started_txn = true })

unfoldable pub commit_transaction : MemoryStorage → Outcome MemoryStorage
commit_transaction s = checked s.started_txn (record s { started_txn = false })

unfoldable pub rollback_transaction : MemoryStorage → Outcome MemoryStorage
rollback_transaction s = checked s.started_txn (record s { started_txn = false })

abbrev pub memory_storage : StorageInterface
memory_storage = record {
  State = MemoryStorage;
  clear = clear;
  get_current_block_hash = get_current_block_hash;
  get_current_game_state = get_current_game_state;
  set_current_game_state = set_current_game_state;
  get_undo_data = get_undo_data;
  add_undo_data = add_undo_data;
  release_undo_data = release_undo_data;
  prune_undo_data = prune_undo_data;
  begin_transaction = begin_transaction;
  commit_transaction = commit_transaction;
  rollback_transaction = rollback_transaction;
}

-- What is kept of an entry when the heights up to a limit go.
abbrev pub kept : ℕ → Option (ℕ × String) → Option (ℕ × String)
kept height none = none
kept height (some (h, value)) = if leb h height then none else some (h, value)

lookup-prune_entries :
    (height k : ℕ) (m : UndoMap)
    → Distinct m
    → lookup k (prune_entries height m) ≡ kept height (lookup k m)
unfolding lookup prune_entries
lookup-prune_entries height k [] d = refl
lookup-prune_entries height k ((hash, (h, value)) ∷ m) d =
    ground (arith, number_equality.same_iff hash k, lookup-prune_entries height k m d.1)

-- What a hash has after undo data is added to another or to it.
abbrev pub added : ℕ → ℕ × String → ℕ → Option (ℕ × String) → Option (ℕ × String)
added hash entry k (some x) = some x
added hash entry k none = if hash == k then some entry else none

-- A step that passes its CHECKs and leads to undo data with a property.
abbrev pub Leads : Outcome MemoryStorage → (UndoMap → Type 0) → Type 0
Leads o P = (t : MemoryStorage) × (o ≡ done t) × P t.undo_data

module _ (s : MemoryStorage) (txn : s.started_txn ≡ true) (d : Distinct s.undo_data)
    (hash height : ℕ) (value : String) (k : ℕ) where
  add_lem :
      Leads
        (add_undo_data hash height value s)
        (λ m. lookup k m ≡ added hash (height, value) k (lookup k s.undo_data))
  unfolding add_undo_data
  add_lem = elim (Option-cases (lookup hash s.undo_data)) [
    | inl absent ↦ (
      record s { undo_data = insert hash (height, value) s.undo_data },
      ground (arith, txn, absent),
      ground (
        arith,
        lookup-insert hash k (height, value) s.undo_data,
        absent,
        number_equality.same_iff hash k,
      ),
    )
    | inr (x, there) ↦
        (s, ground (arith, txn, there), ground (arith, there, number_equality.same_iff hash k))
  ]

  -- Within a transaction, where no hash stands twice, adding undo data keeps what a hash has and
  -- is found under a new hash; releasing removes what one hash has; and pruning removes exactly
  -- what has a height up to the limit. What other hashes have stays.
  pub undo_data_lem :
      Leads
        (add_undo_data hash height value s)
        (λ m. lookup k m ≡ added hash (height, value) k (lookup k s.undo_data))
      × Leads
          (release_undo_data hash s)
          (λ m. lookup k m ≡ (if hash == k then none else lookup k s.undo_data))
      × Leads (prune_undo_data height s) (λ m. lookup k m ≡ kept height (lookup k s.undo_data))
  unfolding release_undo_data prune_undo_data
  undo_data_lem = (
    add_lem,
    (
      record s { undo_data = erase hash s.undo_data },
      ground (arith, txn),
      lookup-erase hash k s.undo_data,
    ),
    (
      record s { undo_data = prune_entries height s.undo_data },
      ground (arith, txn),
      lookup-prune_entries height k s.undo_data d,
    ),
  )

erase-Distinct : (k : ℕ) (m : UndoMap) → Distinct m → Distinct (erase k m)
unfolding erase
erase-Distinct k [] d = tt
erase-Distinct k ((hash, x) ∷ m) d =
    ground
      (arith, number_equality.same_iff hash k, lookup-erase k hash m, d.0, erase-Distinct k m d.1)

prune_entries-Distinct : (height : ℕ) (m : UndoMap) → Distinct m → Distinct (prune_entries height m)
unfolding prune_entries
prune_entries-Distinct height [] d = tt
prune_entries-Distinct height ((hash, (h, value)) ∷ m) d =
    ground (arith, lookup-prune_entries height hash m d.1, d.0, prune_entries-Distinct height m d.1)

-- Where no hash stands twice in the undo data, none does after undo data is added, released or
-- pruned within a transaction, or after everything is removed outside of one.
pub undo_data-Distinct :
    (s : MemoryStorage) (hash height : ℕ) (value : String)
    → Distinct s.undo_data
    → ((s.started_txn ≡ true)
        × Leads (add_undo_data hash height value s) Distinct
        × Leads (release_undo_data hash s) Distinct
        × Leads (prune_undo_data height s) Distinct)
      ⊎ ((s.started_txn ≡ false) × Leads (clear s) Distinct)
unfolding add_undo_data release_undo_data prune_undo_data clear
undo_data-Distinct s hash height value d = elim (Bool-cases s.started_txn) [
  | inr closed ↦
      inr (closed, (record s { has_state = false; undo_data = [] }, ground (arith, closed), tt))
  | inl txn ↦ inl (
    txn,
    elim (Option-cases (lookup hash s.undo_data)) [
      | inl absent ↦ (
        record s { undo_data = insert hash (height, value) s.undo_data },
        ground (arith, txn, absent),
        insert-Distinct hash (height, value) s.undo_data d,
      )
      | inr (x, there) ↦ (s, ground (arith, txn, there), d)
    ],
    (
      record s { undo_data = erase hash s.undo_data },
      ground (arith, txn),
      erase-Distinct hash s.undo_data d,
    ),
    (
      record s { undo_data = prune_entries height s.undo_data },
      ground (arith, txn),
      prune_entries-Distinct height s.undo_data d,
    ),
  )
]
