-- ===== src/Engine/PendingMoves.antt =====
-- xayagame/pendingmoves.cpp: the moves in the mempool, and the blocks that they stand on. A failed
-- CHECK is `none`.
pub mod Queue
pub mod Rebuilt
use libxayagame.Base.{
  ℕ, ◌+◌, ◌<◌, String, Bool, true, false, not, Option, none, some, List, [], ◌∷◌, ◌++◌, length,
  without_last, ltb, if◌then◌else◌,
}
use libxayagame.Base.Eq.{◌==◌, number_equality}
use libxayagame.Base.Map.{lookup, insert}
use libxayagame.Base.Json.{Json}

infixl 5 ◌>>=◌
abbrev pub ◌>>=◌ : {A B : Type 0} → Option A → (A → Option B) → Option B
some a >>= f = f a
none >>= f = none

abbrev pub last {ℓ} : {A : Type ℓ} → List A → Option A
last [] = none
last (x ∷ []) = some x
last (x ∷ y ∷ xs) = last (y ∷ xs)

-- What a game adds to the processor. A pending move is seen with the confirmed state and block.
pub record PendingGame (json : Json) : Type 1 where
  pub Pending : Type 0
  pub clear : Pending → Pending
  pub add_pending_move : String → json.Value → json.Value → Pending → Pending

abbrev pub block_queue_size : ℕ
block_queue_size = 100

-- The parts of the environment: `uint256::FromHex`, and the transaction IDs of the mempool are an
-- argument of each operation, as `getrawmempool` gives them.
module _ (json : Json) (game : PendingGame json) (from_hex : String → Option ℕ) where
  open json use {Value, is_object, is_array, is_string, equals, at, elements, as_string}
  open game use {Pending, clear, add_pending_move}

  -- `std::map::emplace` keeps what is there.
  unfoldable pub emplace : ℕ → Value → List (ℕ × Value) → List (ℕ × Value)
  emplace txid mv m = elim (lookup txid m) [ none ↦ insert txid mv m | some _ ↦ m ]

  -- The newest block is the last one of the queue.
  pub record PendingMoveProcessor : Type 0 where
    pub block_queue : List Value
    pub pending : List (ℕ × Value)
    pub context : Option (String × Value)
    pub state : Pending

  -- The constructor and the destructor of `ContextSetter`.
  unfoldable pub set_context : String → Value → PendingMoveProcessor → Option PendingMoveProcessor
  set_context confirmed block p = elim p.context [
    | some _ ↦ none
    | none ↦
        if not (is_object block)
        then none
        else some (record p { context = some (confirmed, block) })
  ]

  unfoldable pub unset_context : PendingMoveProcessor → Option PendingMoveProcessor
  unset_context p = elim p.context [ none ↦ none | some _ ↦ some (record p { context = none }) ]

  -- A call of `AddPendingMove` in a context.
  unfoldable pub add_move : Value → PendingMoveProcessor → Option PendingMoveProcessor
  add_move mv p = elim p.context [
    | none ↦ none
    | some (confirmed, block) ↦
        some (record p { state = add_pending_move confirmed block mv p.state })
  ]

  abbrev pub has_context : PendingMoveProcessor → Bool
  has_context p = elim p.context [ none ↦ false | some _ ↦ true ]

  -- The loop over the mempool.
  unfoldable pub sync_pending :
      List Value
      → List (ℕ × Value)
      → PendingMoveProcessor
      → Option (List (ℕ × Value) × PendingMoveProcessor)
  unfolding emplace add_move
  sync_pending [] new_pending p = some (new_pending, p)
  sync_pending (t ∷ ts) new_pending p =
      elim (if is_string t then from_hex (as_string t) else none) [
        | none ↦ none
        | some txid ↦ elim (lookup txid p.pending) [
          | none ↦ sync_pending ts new_pending p
          | some mv ↦ elim (if has_context p then add_move mv p else some p) [
            | none ↦ none
            | some p' ↦ sync_pending ts (emplace txid mv new_pending) p'
          ]
        ]
      ]

  unfoldable pub reset : String → List Value → PendingMoveProcessor → Option PendingMoveProcessor
  unfolding set_context unset_context sync_pending
  reset confirmed mempool p = do
    let cleared : PendingMoveProcessor = record p { state = clear p.state }
    q ← elim (last p.block_queue) [
      | none ↦ some cleared
      | some block ↦ set_context confirmed block cleared
    ]
    (new_pending, r) ← sync_pending mempool [] q
    let synced : PendingMoveProcessor = record r { pending = new_pending }
    elim (last p.block_queue) [ none ↦ some synced | some _ ↦ unset_context synced ]

  unfoldable pub get_move_txid : Value → Option ℕ
  get_move_txid mv =
      if not (is_string (at mv "txid")) then none else from_hex (as_string (at mv "txid"))

  -- The loop that pops the oldest blocks of a queue that is too long.
  unfoldable pub trim : List Value → List Value
  trim [] = []
  trim (b ∷ bs) =
      let rest = trim bs in if ltb block_queue_size (length (b ∷ bs)) then rest else b ∷ bs

  -- The queue with a new block.
  unfoldable pub push_block : Value → List Value → List Value
  unfolding trim
  push_block block queue = trim (
      elim (last queue) [
        | none ↦ queue
        | some b ↦ if not (equals (at b "hash") (at block "parent")) then [] else queue
      ]
      ++ block ∷ [])

  unfoldable pub process_attached_block :
      String → Value → List Value → PendingMoveProcessor → Option PendingMoveProcessor
  unfolding push_block reset
  process_attached_block confirmed block_data mempool p =
      if not (is_object (at block_data "block"))
      then none
      else reset confirmed mempool
          (record p { block_queue = push_block (at block_data "block") p.block_queue })

  -- The loop over the moves of a detached block.
  unfoldable pub unconfirm : List Value → List (ℕ × Value) → Option (List (ℕ × Value))
  unfolding get_move_txid emplace
  unconfirm [] m = some m
  unconfirm (mv ∷ mvs) m = elim (get_move_txid mv) [
    | none ↦ none
    | some txid ↦ unconfirm mvs (emplace txid mv m)
  ]

  -- The queue without a detached block.
  unfoldable pub pop_block : Value → List Value → List Value
  pop_block block queue = elim (last queue) [
    | none ↦ queue
    | some b ↦ if equals b block then without_last queue else []
  ]

  unfoldable pub process_detached_block :
      String → Value → List Value → PendingMoveProcessor → Option PendingMoveProcessor
  unfolding unconfirm pop_block reset
  process_detached_block confirmed block_data mempool p =
      if not (is_array (at block_data "moves")) then none else do
        pending ← unconfirm (elements (at block_data "moves")) p.pending
        reset confirmed mempool (record p {
          pending = pending;
          block_queue = pop_block (at block_data "block") p.block_queue;
        })

  unfoldable pub process_move : String → Value → PendingMoveProcessor → Option PendingMoveProcessor
  unfolding get_move_txid set_context unset_context add_move
  process_move confirmed mv p = do
    txid ← get_move_txid mv
    elim (lookup txid p.pending) [
      | some _ ↦ some p
      | none ↦
          let known : PendingMoveProcessor = record p { pending = insert txid mv p.pending } in
          elim (last p.block_queue) [
            | none ↦ some known
            | some block ↦ do
              q ← set_context confirmed block known
              r ← add_move mv q
              unset_context r
          ]
    ]
