-- ===== src/Engine/PendingMoves/Queue.antt =====
-- The block queue, and what the callbacks keep (xayagame/pendingmoves.cpp).
use libxayagame.Base.{
  ℕ, ◌≤◌, ◌≡◌, refl, sym, subst, inl, inr, String, true, Option, none, some, List, [], ◌∷◌, ◌++◌,
  length, without_last, ltb, arith, Option-cases, Bool-cases,
}
use libxayagame.Base.Eq.{number_equality}
use libxayagame.Base.Map.{lookup, insert}
use libxayagame.Base.Json.{Json}
use libxayagame.Engine.PendingMoves.{
  PendingGame, PendingMoveProcessor, emplace, reset, set_context, unset_context, add_move, last,
  trim, push_block, pop_block, get_move_txid, unconfirm, process_attached_block,
  process_detached_block, process_move, block_queue_size,
}
use libxayagame.Engine.PendingMoves.Rebuilt.{IsMempool, reset-IsRebuilt, TopIsObject}

module _ (json : Json) (game : PendingGame json) (from_hex : String → Option ℕ) where
  open json use {Value, is_object, is_array, is_string, equals, at, elements, as_string}

  -- Each block is an object and the parent of the next.
  abbrev pub IsChain : List Value → Type 0
  IsChain [] = Unit
  IsChain (b ∷ []) = (is_object b ≡ true) × Unit {0}
  IsChain (b ∷ c ∷ bs) =
      (is_object b ≡ true) × (equals (at b "hash") (at c "parent") ≡ true) × IsChain (c ∷ bs)

  -- A processor between callbacks.
  pub record IsProcessor (p : PendingMoveProcessor json game from_hex) : Type 0 where
    pub free : p.context ≡ none
    pub chain : IsChain p.block_queue
    pub bounded : length p.block_queue ≤ block_queue_size

  IsChain-tail : (b : Value) (bs : List Value) → IsChain (b ∷ bs) → IsChain bs
  IsChain-tail b [] c = tt
  IsChain-tail b (d ∷ bs) c = c.2

  IsChain-trim : (q : List Value) → IsChain q → IsChain (trim json game from_hex q)
  unfolding trim
  IsChain-trim [] c = tt
  IsChain-trim (b ∷ bs) c = elim (Bool-cases (ltb block_queue_size (length (b ∷ bs)))) [
    | inl long ↦ rw long (IsChain-trim bs (IsChain-tail b bs c))
    | inr short ↦ rw short c
  ]

  trim_short : (q : List Value) → length (trim json game from_hex q) ≤ block_queue_size
  unfolding trim
  trim_short [] = omega arith
  trim_short (b ∷ bs) = ground (arith, trim_short bs)

  -- The new block may follow the newest one.
  abbrev Follows : List Value → Value → Type 0
  Follows q block = (b : Value) → last q ≡ some b → equals (at b "hash") (at block "parent") ≡ true

  IsChain-append :
      (q : List Value) (block : Value)
      → IsChain q
      → Follows q block
      → is_object block ≡ true
      → IsChain (q ++ block ∷ [])
  IsChain-append [] block c f o = (o, tt)
  IsChain-append (b ∷ []) block c f o = (c.0, f b refl, (o, tt))
  IsChain-append (b ∷ d ∷ bs) block c f o = (c.0, c.1, IsChain-append (d ∷ bs) block c.2 f o)

  push_block-IsChain :
      (block : Value) (q : List Value)
      → IsChain q
      → is_object block ≡ true
      → IsChain (push_block json game from_hex block q)
        × (length (push_block json game from_hex block q) ≤ block_queue_size)
  unfolding push_block
  push_block-IsChain block q c o = elim (Option-cases (last q)) [
    | inl empty ↦ rw empty (
      IsChain-trim (q ++ block ∷ [])
          (IsChain-append q block c (λ b e. absurd (ground (arith, empty, e))) o),
      trim_short (q ++ block ∷ []),
    )
    | inr (b, top) ↦ elim (Bool-cases (equals (at b "hash") (at block "parent"))) [
      | inl linked ↦
          rw (top, linked)
            (
              IsChain-trim (q ++ block ∷ []) (
                  IsChain-append q block c
                    (λ d e. let same : b ≡ d = ground (arith, top, e) in rw (← same) linked) o),
              trim_short (q ++ block ∷ []),
            )
      | inr broken ↦ rw (top, broken) (IsChain-trim (block ∷ []) (o, tt), trim_short (block ∷ []))
    ]
  ]

  IsChain-without_last :
      (q : List Value) → IsChain q → IsChain (without_last q) × (length (without_last q) ≤ length q)
  IsChain-without_last [] c = (tt, omega arith)
  IsChain-without_last (b ∷ []) c = (tt, omega arith)
  IsChain-without_last (b ∷ d ∷ []) c = ((c.0, tt), omega arith)
  IsChain-without_last (b ∷ d ∷ e ∷ bs) c =
      let (chain, shorter) = IsChain-without_last (d ∷ e ∷ bs) c.2 in
      ((c.0, c.1, chain), omega (arith, shorter))

  pop_block-IsChain :
      (block : Value) (q : List Value)
      → IsChain q
      → IsChain (pop_block json game from_hex block q)
        × (length (pop_block json game from_hex block q) ≤ length q)
  unfolding pop_block
  pop_block-IsChain block q c = elim (Option-cases (last q)) [
    | inl empty ↦ left q (ground (arith, empty)) (c, omega arith)
    | inr (b, top) ↦ elim (Bool-cases (equals b block)) [
      | inl same ↦ left (without_last q) (ground (arith, top, same)) (IsChain-without_last q c)
      | inr other ↦ left [] (ground (arith, top, other)) (tt, omega arith)
    ]
  ]
    where
      left :
          (rest : List Value)
          → pop_block json game from_hex block q ≡ rest
          → IsChain rest × (length rest ≤ length q)
          → IsChain (pop_block json game from_hex block q)
            × (length (pop_block json game from_hex block q) ≤ length q)
      left rest e = subst (λ r. IsChain r × (length r ≤ length q)) (sym e)

  IsChain-top : (q : List Value) → IsChain q → TopIsObject json game from_hex q
  IsChain-top [] c = tt
  IsChain-top (b ∷ []) c = c.0
  IsChain-top (b ∷ d ∷ bs) c = IsChain-top (d ∷ bs) c.2

  -- Each move has a transaction ID.
  abbrev pub HaveTxids : List Value → Type 0
  HaveTxids [] = Unit
  HaveTxids (mv ∷ mvs) =
      ((id : ℕ) × (get_move_txid json game from_hex mv ≡ some id)) × HaveTxids mvs

  unconfirm-total :
      (mvs : List Value) (m : List (ℕ × Value))
      → HaveTxids mvs
      → (n : List (ℕ × Value)) × (unconfirm json game from_hex mvs m ≡ some n)
  unfolding unconfirm
  unconfirm-total [] m h = (m, refl)
  unconfirm-total (mv ∷ mvs) m h =
      let (id, e) = h.0 in
      let (n, f) = unconfirm-total mvs (emplace json game from_hex id mv m) h.1 in
      (n, ground (arith, e, f))

  -- The callbacks of Game.
  pub data Callback : Type 0 where
    attached : String → Value → List Value → Callback
    detached : String → Value → List Value → Callback
    move : String → Value → Callback

  abbrev pub handle :
      Callback
      → PendingMoveProcessor json game from_hex
      → Option (PendingMoveProcessor json game from_hex)
  handle (attached s block mempool) = process_attached_block json game from_hex s block mempool
  handle (detached s block mempool) = process_detached_block json game from_hex s block mempool
  handle (move s mv) = process_move json game from_hex s mv

  -- What Xaya Core's data have.
  abbrev pub IsWellFormed : Callback → Type 0
  IsWellFormed (attached s block mempool) =
      (is_object (at block "block") ≡ true)
      × ((ids : List ℕ) × IsMempool json game from_hex mempool ids)
  IsWellFormed (detached s block mempool) =
      (is_array (at block "moves") ≡ true)
      × HaveTxids (elements (at block "moves"))
      × ((ids : List ℕ) × IsMempool json game from_hex mempool ids)
  IsWellFormed (move s mv) = (id : ℕ) × (get_move_txid json game from_hex mv ≡ some id)

  reset-IsProcessor :
      (s : String) (mempool : List Value) (ids : List ℕ)
      (p : PendingMoveProcessor json game from_hex)
      → IsProcessor p
      → IsMempool json game from_hex mempool ids
      → (r : PendingMoveProcessor json game from_hex) × (reset json game from_hex s mempool p
          ≡ some r)
        × IsProcessor r
  reset-IsProcessor s mempool ids p c i =
      let (r, e, b) =
        reset-IsRebuilt json game from_hex s mempool ids p c.free
          (IsChain-top p.block_queue c.chain) i in
      (
        r,
        e,
        record {
          free = b.no_context;
          chain = rw b.same_queue c.chain;
          bounded = rw b.same_queue c.bounded;
        },
      )

  -- From a processor between callbacks, whose queue is such, no callback on well-formed data fails
  -- a CHECK, and each leaves the processor without a context, with a queue of at most 100 blocks
  -- that are objects and of which each is the parent of the next.
  pub handle-IsProcessor :
      (call : Callback) (p : PendingMoveProcessor json game from_hex)
      → IsProcessor p
      → IsWellFormed call
      → (r : PendingMoveProcessor json game from_hex) × (handle call p ≡ some r) × IsProcessor r
  unfolding process_attached_block process_detached_block process_move set_context unset_context
      add_move
  handle-IsProcessor (attached s block mempool) p c w =
      let (chain, bounded) = push_block-IsChain (at block "block") p.block_queue c.chain w.0 in
      let (ids, i) = w.1 in
      let (r, e, ok) =
        reset-IsProcessor s mempool ids
          (record p {
            block_queue = push_block json game from_hex (at block "block") p.block_queue;
          })
          (record { free = c.free; chain = chain; bounded = bounded }) i in
      (r, ground (arith, w.0, e), ok)
  handle-IsProcessor (detached s block mempool) p c w =
      let (chain, shorter) = pop_block-IsChain (at block "block") p.block_queue c.chain in
      let (n, f) = unconfirm-total (elements (at block "moves")) p.pending w.1 in
      let (ids, i) = w.2 in
      let (r, e, ok) =
        reset-IsProcessor s mempool ids
          (record p {
            pending = n;
            block_queue = pop_block json game from_hex (at block "block") p.block_queue;
          })
          (record { free = c.free; chain = chain; bounded = omega (arith, shorter, c.bounded) })
          i in
      (r, ground (arith, w.0, f, e), ok)
  handle-IsProcessor (move s mv) p c (id, e) = elim (Option-cases (lookup id p.pending)) [
    | inr (old, there) ↦ (p, ground (arith, e, there), c)
    | inl absent ↦ elim (Option-cases (last p.block_queue)) [
      | inl empty ↦ (
        record p { pending = insert id mv p.pending },
        ground (arith, e, absent, empty),
        record { free = c.free; chain = c.chain; bounded = c.bounded },
      )
      | inr (b, top) ↦
          let object : is_object b ≡ true =
            subst (λ o. elim o as (λ x. Type 0) [ none ↦ Unit {0} | some d ↦ is_object d ≡ true ])
              top (IsChain-top p.block_queue c.chain) in
          (
            record p {
              pending = insert id mv p.pending;
              context = none;
              state = game.add_pending_move s b mv p.state;
            },
            ground (arith, e, absent, top, object, c.free),
            record { free = refl; chain = c.chain; bounded = c.bounded },
          )
    ]
  ]
