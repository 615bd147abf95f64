-- ===== src/Engine/Game/Follows.antt =====
-- The driver follows the chain: whatever block is attached or detached, the state in the storage
-- stays that of its block (`BlockAttach` and `BlockDetach` in xayagame/game.cpp).
use libxayagame.Base.{
  ℕ, ◌≡◌, refl, ◌⊎◌, inl, inr, Bool, true, false, not, ◌||◌, Option, none, some, String, ltb,
  if◌then◌else◌, arith, sym, subst, Bool-cases,
}
use libxayagame.Base.Eq.{◌==◌, number_equality, text_equality}
use libxayagame.Engine.HeightCache.{CachedStorage}
use libxayagame.Engine.PendingMoves.{
  PendingMoveProcessor, process_attached_block, process_detached_block,
}
use libxayagame.Engine.Transactions.Invariant.{IsTransactional}
use libxayagame.Engine.Game.{State, same_state, Setup, Daemon, Game, Run, done, throw, then_do}
use libxayagame.Engine.Game.Sync.{reinitialise_state}
use libxayagame.Engine.Game.Handlers.{
  is_reqtoken_relevant, block_hash_at, recover, with_pending, caught, attach_in_state,
  attach_to_queue, block_attach, detach_in_state, detach_from_queue, block_detach,
}
use libxayagame.Engine.Game.Attach.{height_of, update_state_for_attach, update_state_for_detach}
use libxayagame.Engine.Game.Store.{IsStore}
use libxayagame.Engine.Game.Chain.{Chain, IsNotified}
use libxayagame.Engine.Game.Updates.{IsSynced}
use libxayagame.Engine.Game.Updates.Blocks.{
  Stepped, update_state_for_attach-Stepped, update_state_for_detach-Stepped,
}
use libxayagame.Engine.Game.Ready.{IsAnswering, IsPatient, IsReady}
use libxayagame.Engine.Game.Synced.{reinitialise_state-IsReinitialised}

module _ (u : Setup) (chain : Chain u) (laws : IsTransactional u.store)
    (store : IsStore u.store laws) where
  -- The driver is ready for the next notification, or the commit of a batch has thrown.
  abbrev pub Follows : Run u (Unit {0}) → Type 0
  Follows run =
      (k : Game u) × (((c : CachedStorage u.store u.hash_to_height) × (run ≡ done k tt)
          × IsReady u chain laws store k c)
        ⊎ ((run ≡ throw k) × (k.manager.commit_failed ≡ true)))

  abbrev Plain : Game u → Type 0
  Plain g = (g.pruning_queue ≡ none) × (g.pending ≡ none)

  -- What a block does in the current state of the driver: a storage that throws, or a flag without
  -- which the driver is ready.
  abbrev Went : Run u Bool → Type 0
  Went run =
      (k : Game u) × (c : CachedStorage u.store u.hash_to_height) × IsSynced u chain laws store k c
      × Plain k
      × ((run ≡ throw k)
          ⊎ ((need : Bool) × (run ≡ done k need) × (need ≡ false → IsReady u chain laws store k c)))

  with_pending_none :
      (f : String
        → PendingMoveProcessor u.json u.pending_game u.from_hex
        → Option (PendingMoveProcessor u.json u.pending_game u.from_hex))
      (g : Game u)
      → g.pending ≡ none
      → with_pending u f g ≡ done g tt
  with_pending_none f g e = elim (Bool-cases (same_state g.state State.up_to_date)) [
    | inl h ↦ ground (arith, h, e)
    | inr h ↦ ground (arith, h)
  ]

  module _ (daemon : Daemon u.json) (answers : IsAnswering u chain laws store daemon) (fuel : ℕ)
      (patient : IsPatient u chain laws store fuel) where
    reinitialised :
        (g : Game u) (c : CachedStorage u.store u.hash_to_height)
        → IsSynced u chain laws store g c
        → Plain g
        → Follows (reinitialise_state u fuel daemon g)
    reinitialised g c s plain =
        let r =
          reinitialise_state-IsReinitialised u chain laws store daemon answers fuel patient g c s
            plain in
        (
          r.game,
          elim r.result [ inl (d, run, ready, _) ↦ inl (d, run, ready) | inr failed ↦ inr failed ],
        )

    recovered :
        (g : Game u) (c : CachedStorage u.store u.hash_to_height)
        → IsSynced u chain laws store g c
        → Plain g
        → Follows (recover u fuel daemon g)
    unfolding recover
    recovered g c s plain =
        let (k, r) = reinitialised g c s plain in
        (
          k,
          elim r [
            | inl (d, run, ready) ↦ inl (d, ground (arith, run, ready.no_pruning), ready)
            | inr (run, failed) ↦ inr (ground (arith, run), failed)
          ],
        )

    module _
        (f : String
          → PendingMoveProcessor u.json u.pending_game u.from_hex
          → Option (PendingMoveProcessor u.json u.pending_game u.from_hex))
        (queue : Game u → Bool → Run u Bool)
        (no_queue : (k : Game u) (need : Bool)
          → k.pruning_queue ≡ none
          → queue k need ≡ done k need) where
      -- What both handlers do with the outcome.
      abbrev rest : Run u Bool → Run u (Unit {0})
      rest run = then_do (caught u (then_do run queue)) λ h need.
          then_do (if need then reinitialise_state u fuel daemon h else done h tt)
            λ k _. with_pending u f k

      rest_reinitialised :
          (run : Run u Bool) (k : Game u) (c : CachedStorage u.store u.hash_to_height)
          → caught u (then_do run queue) ≡ done k true
          → IsSynced u chain laws store k c
          → Plain k
          → Follows (rest run)
      rest_reinitialised run k c e s plain =
          let (n, r) = reinitialised k c s plain in
          (
            n,
            elim r [
              | inl (d, ok, ready) ↦
                  inl (d, ground (arith, e, ok, with_pending_none f n ready.no_pending), ready)
              | inr (failed, why) ↦ inr (ground (arith, e, failed), why)
            ],
          )

      pub rest-Follows : (run : Run u Bool) → Went run → Follows (rest run)
      rest-Follows run (k, c, s, plain, inl e) =
          rest_reinitialised run k c (ground (arith, e)) s plain
      rest-Follows run (k, c, s, plain, inr (true, e, ready)) =
          rest_reinitialised run k c (ground (arith, e, no_queue k true plain.0)) s plain
      rest-Follows run (k, c, s, plain, inr (false, e, ready)) = (
        k,
        inl (
          c,
          ground (arith, e, no_queue k false plain.0, with_pending_none f k plain.1),
          ready refl,
        ),
      )

  module _ (g : Game u) (c : CachedStorage u.store u.hash_to_height)
      (ready : IsReady u chain laws store g c) where
    -- An update of the state. Where the driver need not reinitialise, the block did fit.
    updated-Went :
        (run update : Run u Bool) (need : Game u → Bool → Bool)
        → (run ≡ then_do update λ h fits. done h (need h fits))
        → ((h : Game u) (fits : Bool) → need h fits ≡ false → fits ≡ true)
        → (g.state ≡ State.catching_up) ⊎ (g.state ≡ State.up_to_date)
        → Stepped u chain laws store g c ready.synced update
        → Went run
    updated-Went run update need is_run fitting is_state (m, d, s, went) = (
      record g { manager = m },
      d,
      s,
      (ready.no_pruning, ready.no_pending),
      elim went [
        | inl e ↦ inl (ground (arith, is_run, e))
        | inr (fits, e, has) ↦ inr (
          need (record g { manager = m }) fits,
          ground (arith, is_run, e),
          λ no_need. record {
            synced = s;
            at_state = inr (is_state, has (fitting (record g { manager = m }) fits no_need));
            no_pruning = ready.no_pruning;
            no_pending = ready.no_pending;
          },
        )
      ],
    )

    module _ (parent hash : ℕ) (block_data : u.json.Value)
        (notified : IsNotified u chain parent hash block_data) where
      attach_in_state-Went : Went (attach_in_state u parent hash block_data g)
      unfolding attach_in_state
      attach_in_state-Went = elim ready.at_state [
        | inl waits ↦ (
          g,
          c,
          ready.synced,
          (ready.no_pruning, ready.no_pending),
          inr (hash == g.target_block_hash, ground (arith, waits), λ _. ready),
        )
        | inr (inl catching, has) ↦
            updated-Went (attach_in_state u parent hash block_data g)
              (update_state_for_attach u parent hash block_data g)
              (λ h fits. not fits || hash == h.target_block_hash) (rw catching refl)
              (λ h fits e. ground (arith, e)) (inl catching)
              (update_state_for_attach-Stepped u chain laws store g c ready.synced parent hash
                block_data notified has)
        | inr (inr current, has) ↦
            updated-Went (attach_in_state u parent hash block_data g)
              (update_state_for_attach u parent hash block_data g) (λ h fits. not fits)
              (rw current refl) (λ h fits e. ground (arith, e)) (inr current)
              (update_state_for_attach-Stepped u chain laws store g c ready.synced parent hash
                block_data notified has)
      ]

      detach_in_state-Went : Went (detach_in_state u parent hash block_data g)
      unfolding detach_in_state
      detach_in_state-Went = elim ready.at_state [
        | inl waits ↦ (
          g,
          c,
          ready.synced,
          (ready.no_pruning, ready.no_pending),
          inr (false, ground (arith, waits), λ _. ready),
        )
        | inr (inl catching, has) ↦
            updated-Went (detach_in_state u parent hash block_data g)
              (update_state_for_detach u parent hash block_data g)
              (λ h fits. not fits || parent == h.target_block_hash) (rw catching refl)
              (λ h fits e. ground (arith, e)) (inl catching)
              (update_state_for_detach-Stepped u chain laws store g c ready.synced parent hash
                block_data notified has)
        | inr (inr current, has) ↦
            updated-Went (detach_in_state u parent hash block_data g)
              (update_state_for_detach u parent hash block_data g) (λ h fits. not fits)
              (rw current refl) (λ h fits e. ground (arith, e)) (inr current)
              (update_state_for_detach-Stepped u chain laws store g c ready.synced parent hash
                block_data notified has)
      ]

      module _ (daemon : Daemon u.json) (answers : IsAnswering u chain laws store daemon) (fuel : ℕ)
          (patient : IsPatient u chain laws store fuel) (id : String) (mismatch : Bool)
          (own : (id == g.game_id) ≡ true)
          (is_parent : block_hash_at u "parent" block_data ≡ some parent)
          (is_hash : block_hash_at u "hash" block_data ≡ some hash) where
        -- Let a game have no pruning and no pending moves. Let its undo data undo its blocks, its storage
        -- be as documented and throw only so often in a row when the initial state is stored, and Xaya
        -- Core answer with hashes and know the genesis block. Let the driver be ready: what is seen in
        -- the storage and what is durable is what the game makes of the blocks from the genesis block
        -- to the current one, with undo data that belongs to its blocks, and there is a current state
        -- unless the driver waits for the genesis block. Then a notification of an attached block of the game,
        -- whether or not notifications were missed or it is the one asked for, leaves the driver
        -- ready, or the commit of a batch throws out of the handler. No CHECK fails, and the loop of
        -- retries ends.
        pub block_attach-Follows : Follows (block_attach u fuel daemon id block_data mismatch g)
        unfolding block_attach
        block_attach-Follows = elim (Bool-cases mismatch) [
          | inl missed ↦
              let run : block_attach u fuel daemon id block_data mismatch g
                  ≡ recover u fuel daemon g =
                ground (arith, own, is_parent, is_hash, missed) in
              subst Follows (sym run) (
                recovered daemon answers fuel patient g c ready.synced
                  (ready.no_pruning, ready.no_pending))
          | inr seen ↦ elim (Bool-cases (is_reqtoken_relevant u block_data g)) [
            | inr other ↦ (g, inl (c, ground (arith, own, is_parent, is_hash, seen, other), ready))
            | inl relevant ↦
                let f =
                  λ (confirmed : String)
                      (p : PendingMoveProcessor u.json u.pending_game u.from_hex).
                    process_attached_block u.json u.pending_game u.from_hex confirmed block_data
                      daemon.mempool p in
                let queue = attach_to_queue u hash (height_of u block_data) in
                let run : block_attach u fuel daemon id block_data mismatch g
                    ≡ rest daemon answers fuel patient f queue (λ k need e. ground (arith, e))
                        (attach_in_state u parent hash block_data g) =
                  ground (arith, own, is_parent, is_hash, seen, relevant) in
                subst Follows (sym run) (
                  rest-Follows daemon answers fuel patient f queue (λ k need e. ground (arith, e))
                    (attach_in_state u parent hash block_data g) attach_in_state-Went)
          ]
        ]

        -- Let a game have no pruning and no pending moves. Let its undo data undo its blocks, its storage
        -- be as documented and throw only so often in a row when the initial state is stored, and Xaya
        -- Core answer with hashes and know the genesis block. Let the driver be ready: what is seen in
        -- the storage and what is durable is what the game makes of the blocks from the genesis block
        -- to the current one, with undo data that belongs to its blocks, and there is a current state
        -- unless the driver waits for the genesis block. Then a notification of a detached block of the game,
        -- whether or not notifications were missed or it is the one asked for, leaves the driver
        -- ready, or the commit of a batch throws out of the handler. No CHECK fails, and the loop of
        -- retries ends.
        pub block_detach-Follows : Follows (block_detach u fuel daemon id block_data mismatch g)
        unfolding block_detach
        block_detach-Follows = elim (Bool-cases mismatch) [
          | inl missed ↦
              let run : block_detach u fuel daemon id block_data mismatch g
                  ≡ recover u fuel daemon g =
                ground (arith, own, is_parent, is_hash, missed) in
              subst Follows (sym run) (
                recovered daemon answers fuel patient g c ready.synced
                  (ready.no_pruning, ready.no_pending))
          | inr seen ↦ elim (Bool-cases (is_reqtoken_relevant u block_data g)) [
            | inr other ↦ (g, inl (c, ground (arith, own, is_parent, is_hash, seen, other), ready))
            | inl relevant ↦
                let f =
                  λ (confirmed : String)
                      (p : PendingMoveProcessor u.json u.pending_game u.from_hex).
                    if ltb 0 (height_of u block_data)
                    then process_detached_block u.json u.pending_game u.from_hex confirmed
                        block_data daemon.mempool p
                    else none in
                let queue = detach_from_queue u in
                let run : block_detach u fuel daemon id block_data mismatch g
                    ≡ rest daemon answers fuel patient f queue (λ k need e. ground (arith, e))
                        (detach_in_state u parent hash block_data g) =
                  ground (arith, own, is_parent, is_hash, seen, relevant) in
                subst Follows (sym run) (
                  rest-Follows daemon answers fuel patient f queue (λ k need e. ground (arith, e))
                    (detach_in_state u parent hash block_data g) detach_in_state-Went)
          ]
        ]
