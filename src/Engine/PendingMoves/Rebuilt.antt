-- ===== src/Engine/PendingMoves/Rebuilt.antt =====
-- What a reset makes of the pending moves (xayagame/pendingmoves.cpp).
use libxayagame.Base.{
  ℕ, ◌≡◌, refl, subst, inl, inr, String, true, Option, none, some, List, [], ◌∷◌, if◌then◌else◌,
  arith, Option-cases, contains,
}
use libxayagame.Base.Eq.{◌==◌, number_equality}
use libxayagame.Base.Map.{lookup, lookup-insert}
use libxayagame.Base.Json.{Json}
use libxayagame.Engine.PendingMoves.{
  PendingGame, PendingMoveProcessor, emplace, sync_pending, reset, set_context, unset_context,
  add_move, last,
}

module _ (json : Json) (game : PendingGame json) (from_hex : String → Option ℕ) where
  open json use {Value, is_object, is_array, is_string, equals, at, elements, as_string}
  open game use {Pending, clear, add_pending_move}

  -- The mempool as Xaya Core gives it: texts that are the hexadecimal form of transaction IDs.
  abbrev pub IsMempool : List Value → List ℕ → Type 0
  IsMempool [] [] = Unit
  IsMempool (t ∷ ts) (id ∷ ids) =
      (is_string t ≡ true) × (from_hex (as_string t) ≡ some id) × IsMempool ts ids
  IsMempool _ _ = ⊥

  -- A known move is added where there is a confirmed state.
  abbrev pub added : Option (String × Value) → Option Value → Pending → Pending
  added none mv g = g
  added (some (confirmed, block)) none g = g
  added (some (confirmed, block)) (some mv) g = add_pending_move confirmed block mv g

  -- The known moves among some transactions, in their order, as they are added in a context.
  abbrev pub replayed : Option (String × Value) → List ℕ → List (ℕ × Value) → Pending → Pending
  replayed c [] m g = g
  replayed c (id ∷ ids) m g = replayed c ids m (added c (lookup id m) g)

  -- What the loop keeps of the known moves.
  abbrev kept : List ℕ → List (ℕ × Value) → List (ℕ × Value) → List (ℕ × Value)
  kept [] m new = new
  kept (id ∷ ids) m new = elim (lookup id m) [
    | none ↦ kept ids m new
    | some mv ↦ kept ids m (emplace json game from_hex id mv new)
  ]

  lookup-emplace :
      (id k : ℕ) (mv : Value) (m : List (ℕ × Value))
      → lookup k (emplace json game from_hex id mv m)
        ≡ (elim (lookup k m) [ some x ↦ some x | none ↦ if id == k then some mv else none ])
  unfolding emplace
  lookup-emplace id k mv m = elim (Option-cases (lookup id m)) [
    | inl absent ↦ ground (arith, absent, lookup-insert id k mv m, number_equality.same_iff id k)
    | inr (x, there) ↦ ground (arith, there, number_equality.same_iff id k)
  ]

  lookup-kept :
      (ids : List ℕ) (m new : List (ℕ × Value)) (k : ℕ)
      → lookup k (kept ids m new) ≡ (elim (lookup k new) [
        | some x ↦ some x
        | none ↦ if contains k ids then lookup k m else none
      ])
  lookup-kept [] m new k = ground arith
  lookup-kept (id ∷ ids) m new k = elim (Option-cases (lookup id m)) [
    | inl absent ↦ ground (arith, absent, lookup-kept ids m new k, number_equality.same_iff id k)
    | inr (mv, there) ↦ ground (
      arith,
      there,
      lookup-kept ids m (emplace json game from_hex id mv new) k,
      lookup-emplace id k mv new,
      number_equality.same_iff id k,
    )
  ]

  sync_pending_lem :
      (ts : List Value) (ids : List ℕ) (new : List (ℕ × Value))
      (p : PendingMoveProcessor json game from_hex)
      → IsMempool ts ids
      → sync_pending json game from_hex ts new p
        ≡ some
            (kept ids p.pending new, record p { state = replayed p.context ids p.pending p.state })
  unfolding sync_pending add_move
  sync_pending_lem [] [] new p i = ground arith
  sync_pending_lem [] (id ∷ ids) new p i = absurd i
  sync_pending_lem (t ∷ ts) [] new p i = absurd i
  sync_pending_lem (t ∷ ts) (id ∷ ids) new p i = elim (Option-cases (lookup id p.pending)) [
    | inl absent ↦
        let nothing : added p.context none p.state ≡ p.state = elim (Option-cases p.context) [
          | inl c ↦ rw c refl
          | inr (x, c) ↦ rw c refl
        ] in
        ground (arith, i.0, i.1, absent, nothing, sync_pending_lem ts ids new p i.2)
    | inr (mv, there) ↦
        let more = emplace json game from_hex id mv new in
        elim (Option-cases p.context) [
          | inl c ↦ ground (arith, i.0, i.1, there, c, sync_pending_lem ts ids more p i.2)
          | inr ((s, b), c) ↦ ground (
            arith,
            i.0,
            i.1,
            there,
            c,
            sync_pending_lem ts ids more (record p { state = add_pending_move s b mv p.state }) i.2,
          )
        ]
  ]

  -- What the confirmed state and the newest block make a context of.
  abbrev pub context_of : String → List Value → Option (String × Value)
  context_of confirmed queue = elim (last queue) [
    | none ↦ none
    | some block ↦ some (confirmed, block)
  ]

  -- The newest block of the queue is an object, if there is one.
  abbrev pub TopIsObject : List Value → Type 0
  TopIsObject queue = elim (last queue) [ none ↦ Unit {0} | some b ↦ is_object b ≡ true ]

  -- What a reset leads to.
  pub record IsRebuilt (confirmed : String) (ids : List ℕ)
      (p r : PendingMoveProcessor json game from_hex) : Type 0 where
    pub no_context : r.context ≡ none
    pub same_queue : r.block_queue ≡ p.block_queue
    pub moves : (k : ℕ) → lookup k r.pending ≡ (if contains k ids then lookup k p.pending else none)
    pub rebuilt :
        r.state ≡ replayed (context_of confirmed p.block_queue) ids p.pending (clear p.state)

  -- Between callbacks, a reset fails no CHECK if the mempool is well-formed and the newest block is
  -- an object. The moves that stay known are those in the mempool, and the game's pending state is
  -- made anew: cleared, and then with the known moves added in the order of the mempool, on the
  -- newest block, or none if there is no block.
  pub reset-IsRebuilt :
      (confirmed : String) (mempool : List Value) (ids : List ℕ)
      (p : PendingMoveProcessor json game from_hex)
      → p.context ≡ none
      → TopIsObject p.block_queue
      → IsMempool mempool ids
      → (r : PendingMoveProcessor json game from_hex) × (reset json game from_hex confirmed mempool
            p
          ≡ some r)
        × IsRebuilt confirmed ids p r
  unfolding reset set_context unset_context lookup
  reset-IsRebuilt confirmed mempool ids p free top i = elim (Option-cases (last p.block_queue)) [
    | inl empty ↦
        let synced = sync_pending_lem mempool ids [] (record p { state = clear p.state }) i in
        (
          record p {
            pending = kept ids p.pending [];
            state = replayed p.context ids p.pending (clear p.state);
          },
          ground (arith, empty, synced),
          record {
            no_context = free;
            same_queue = refl;
            moves = λ k. lookup-kept ids p.pending [] k;
            rebuilt = ground (arith, empty, free);
          },
        )
    | inr (block, there) ↦
        let object : is_object block ≡ true =
          subst (λ o. elim o as (λ x. Type 0) [ none ↦ Unit {0} | some b ↦ is_object b ≡ true ])
            there top in
        let synced =
          sync_pending_lem mempool ids []
            (record p { state = clear p.state; context = some (confirmed, block) }) i in
        (
          record p {
            pending = kept ids p.pending [];
            state = replayed (some (confirmed, block)) ids p.pending (clear p.state);
            context = none;
          },
          ground (arith, there, synced, free, object),
          record {
            no_context = refl;
            same_queue = refl;
            moves = λ k. lookup-kept ids p.pending [] k;
            rebuilt = ground (arith, there);
          },
        )
  ]
