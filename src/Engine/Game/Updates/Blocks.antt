-- ===== src/Engine/Game/Updates/Blocks.antt =====
-- Attaching and detaching a block keeps the state in the storage right (`UpdateStateForAttach` and
-- `UpdateStateForDetach` in xayagame/game.cpp).
use libxayagame.Base.{
  ℕ, ◌≡◌, refl, ◌⊎◌, inl, inr, Bool, true, false, Option, none, some, String, arith, sym, ◌∙◌,
  subst, ap, Bool-cases, Option-cases,
}
use libxayagame.Base.Eq.{◌==◌, number_equality}
use libxayagame.Engine.Storage.{Outcome}
use libxayagame.Engine.HeightCache.{CachedStorage, clear}
use libxayagame.Engine.Transactions.{TransactionManager}
use libxayagame.Engine.Transactions.Invariant.{IsTransactional}
use libxayagame.Engine.Transactions.Resized.{try_abort-Aborted}
use libxayagame.Engine.Game.{Setup, Cached, Game, Run, done, throw, current_hash, current_state}
use libxayagame.Engine.Game.Attach.{
  height_of, store_attached, store_detached, undo_data_of, drop_state, update_state_for_attach,
  update_state_for_detach,
}
use libxayagame.Engine.Game.Store.{IsStore, first_of, second_of}
use libxayagame.Engine.Game.Chain.{Chain, IsNotified, forward-IsStateOf, backwards-IsStateOf}
use libxayagame.Engine.Game.Updates.{
  claws, IsSynced, IsStep, IsDone, IsThrown, in_transaction-Transacted,
}
use libxayagame.Engine.Game.Updates.Bodies.{
  IsAttached, IsDetached, store_attached-IsStep, store_detached-IsStep,
}
use libxayagame.Engine.Game.Updates.Sound.{Sound, IsAttached-IsSound, IsDetached-IsSound}

module _ (u : Setup) (chain : Chain u) (laws : IsTransactional u.store)
    (store : IsStore u.store laws) where
  module _ (g : Game u) (c : CachedStorage u.store u.hash_to_height)
      (synced : IsSynced u chain laws store g c) where
    -- What a method does that changes the manager only: it throws, or returns a flag. If the flag is
    -- true, there is a current state.
    abbrev pub HasCurrent : CachedStorage u.store u.hash_to_height → Type 0
    HasCurrent d = (x : ℕ × String) × (store.current (laws.view d.storage) ≡ some x)

    abbrev pub Stepped : Run u Bool → Type 0
    Stepped run =
        (m : TransactionManager (Cached u)) × (d : CachedStorage u.store u.hash_to_height)
        × IsSynced u chain laws store (record g { manager = m }) d
        × ((run ≡ throw (record g { manager = m }))
            ⊎ ((fits : Bool) × (run ≡ done (record g { manager = m }) fits)
                × (fits ≡ true → HasCurrent d)))

    hash_known :
        (x : Option (ℕ × String))
        → store.current (laws.view c.storage) ≡ x
        → (current_hash g ≡ first_of x) × (current_state g ≡ second_of x)
    hash_known x e = (
      ground (arith, synced.idle.stored, store.hash_seen c.storage, e),
      ground (arith, synced.idle.stored, store.state_seen c.storage, e),
    )

    -- A transaction that throws, and one that succeeds and makes a right content.
    pub IsThrown-IsSynced :
        (P : laws.Content → laws.Content → Type 0)
        (body : CachedStorage u.store u.hash_to_height
          → Outcome (CachedStorage u.store u.hash_to_height))
        (step : IsStep u chain laws store P body) (t : IsThrown u chain laws store P body step g c)
        → IsSynced u chain laws store (record g { manager = t.manager }) t.after
    IsThrown-IsSynced P body step t = record {
      idle = t.idle;
      view_sound = subst (Sound u chain laws store) (sym t.reverted) synced.durable_sound;
      durable_sound = subst (Sound u chain laws store) (sym t.same_durable) synced.durable_sound;
      genesis = synced.genesis;
      batch = synced.batch;
    }

    pub IsDone-IsSynced :
        (P : laws.Content → laws.Content → Type 0)
        (body : CachedStorage u.store u.hash_to_height
          → Outcome (CachedStorage u.store u.hash_to_height))
        (step : IsStep u chain laws store P body) (t : IsDone u chain laws store P body step g c)
        → Sound u chain laws store (laws.view t.after.storage)
        → IsSynced u chain laws store (record g { manager = t.manager }) t.after
    IsDone-IsSynced P body step t sound = record {
      idle = t.idle;
      view_sound = sound;
      durable_sound = elim t.same_durable [
        | inl e ↦ subst (Sound u chain laws store) (sym e) synced.durable_sound
        | inr e ↦ subst (Sound u chain laws store) (sym e) sound
      ];
      genesis = synced.genesis;
      batch = synced.batch;
    }

    pub drop_state_lem :
        (m : TransactionManager (Cached u)) × (d : CachedStorage u.store u.hash_to_height)
        × (drop_state u g ≡ done (record g { manager = m }) tt)
        × IsSynced u chain laws store (record g { manager = m }) d
        × (store.current (laws.view d.storage) ≡ none)
    unfolding drop_state clear
    drop_state_lem =
        let (n, d, e, a) =
          try_abort-Aborted (Cached u) (claws u chain laws store) g.manager c synced.idle in
        let (t, cleared, closed, gone, no_undo, gone', no_undo') =
          store.clears d.storage a.closed in
        let after : CachedStorage u.store u.hash_to_height = record d {
          storage = t;
          has_height = false;
        } in
        (
          record n { storage = some after },
          after,
          ground (arith, e, a.idle.stored, cleared),
          record {
            idle = record {
              stored = refl;
              idle = a.idle.idle;
              good = a.idle.good;
              sized = record { room = a.idle.sized.room; fits = a.idle.sized.fits };
              opened = closed ∙ sym a.closed ∙ a.idle.opened;
            };
            view_sound = record {
              state_sound = λ h x k. cc (gone, k);
              undo_sound = λ h x k. cc (no_undo h, k);
            };
            durable_sound = record {
              state_sound = λ h x k. cc (gone', k);
              undo_sound = λ h x k. cc (no_undo' h, k);
            };
            genesis = synced.genesis;
            batch = synced.batch;
          },
          gone,
        )

    -- Nothing was done, since the block does not fit.
    unchanged : (run : Run u Bool) → run ≡ done g false → Stepped run
    unchanged run e = (g.manager, c, synced, inr (false, e, λ h. absurd (cc)))

    module _ (parent hash : ℕ) (block_data : u.json.Value)
        (notified : IsNotified u chain parent hash block_data) where
      attach_block_to :
          (state : String)
          → store.current (laws.view c.storage) ≡ some (parent, state)
          → Stepped (update_state_for_attach u parent hash block_data g)
      unfolding update_state_for_attach
      attach_block_to state e =
          let (hash_is, state_is) = hash_known (some (parent, state)) e in
          let fits : (parent == parent) ≡ true = ground arith in
          let new = u.rules.process_forward state block_data in
          let (right, right_undo) =
            forward-IsStateOf u chain parent hash block_data notified state
              (synced.view_sound.state_sound parent state e) in
          let body = store_attached u hash (height_of u block_data) new.1 new.0 in
          let P = IsAttached u chain laws store hash new.1 new.0 in
          let step =
            store_attached-IsStep u chain laws store hash (height_of u block_data) new.1 new.0 in
          elim (in_transaction-Transacted u chain laws store P body step g c synced.idle) [
            | inr t ↦ (
              t.manager,
              t.after,
              IsThrown-IsSynced P body step t,
              inl (ground (arith, hash_is, state_is, fits, t.ran)),
            )
            | inl t ↦ (
              t.manager,
              t.after,
              IsDone-IsSynced P body step t (
                  IsAttached-IsSound u chain laws store (laws.view c.storage)
                    (laws.view t.after.storage) hash new.1 new.0 t.seen right right_undo
                    synced.view_sound),
              inr (
                true,
                ground (arith, hash_is, state_is, fits, t.ran),
                λ _. ((hash, new.0), t.seen.is_current),
              ),
            )
          ]

      pub update_state_for_attach-Stepped :
          HasCurrent c → Stepped (update_state_for_attach u parent hash block_data g)
      unfolding update_state_for_attach
      update_state_for_attach-Stepped ((at_hash, state), e) =
          elim (Bool-cases (at_hash == parent)) [
            | inl hit ↦
                let same : at_hash ≡ parent = ground (arith, hit) in
                attach_block_to state (e ∙ ap (λ k. some (k, state)) same)
            | inr miss ↦
                unchanged (update_state_for_attach u parent hash block_data g)
                  (ground (arith, (hash_known (some (at_hash, state)) e).0, miss))
          ]

      detach_block_from :
          (state undo : String)
          → store.current (laws.view c.storage) ≡ some (hash, state)
          → store.undo (laws.view c.storage) hash ≡ some undo
          → Stepped (update_state_for_detach u parent hash block_data g)
      unfolding update_state_for_detach
      detach_block_from state undo e d =
          let (hash_is, state_is) = hash_known (some (hash, state)) e in
          let undo_is : undo_data_of u hash g ≡ some undo =
            ground (arith, synced.idle.stored, store.undo_seen hash c.storage, d) in
          let fits : (hash == hash) ≡ true = ground arith in
          let old = u.rules.process_backwards state block_data undo in
          let right =
            backwards-IsStateOf u chain parent hash block_data notified state undo
              (synced.view_sound.state_sound hash state e)
              (synced.view_sound.undo_sound hash undo d) in
          let body = store_detached u parent hash (height_of u block_data) old in
          let P = IsDetached u chain laws store parent hash old in
          let step =
            store_detached-IsStep u chain laws store parent hash (height_of u block_data) old in
          elim (in_transaction-Transacted u chain laws store P body step g c synced.idle) [
            | inr t ↦ (
              t.manager,
              t.after,
              IsThrown-IsSynced P body step t,
              inl (ground (arith, hash_is, state_is, undo_is, fits, notified.positive, t.ran)),
            )
            | inl t ↦ (
              t.manager,
              t.after,
              IsDone-IsSynced P body step t (
                  IsDetached-IsSound u chain laws store (laws.view c.storage)
                    (laws.view t.after.storage) parent hash old t.seen right synced.view_sound),
              inr (
                true,
                ground (arith, hash_is, state_is, undo_is, fits, notified.positive, t.ran),
                λ _. ((parent, old), t.seen.is_current),
              ),
            )
          ]

      pub update_state_for_detach-Stepped :
          HasCurrent c → Stepped (update_state_for_detach u parent hash block_data g)
      unfolding update_state_for_detach
      update_state_for_detach-Stepped ((at_hash, state), e) = elim (Bool-cases (at_hash == hash)) [
        | inr miss ↦
            unchanged (update_state_for_detach u parent hash block_data g)
              (ground (arith, (hash_known (some (at_hash, state)) e).0, miss))
        | inl hit ↦
            let same : at_hash ≡ hash = ground (arith, hit) in
            let here : store.current (laws.view c.storage) ≡ some (hash, state) =
              e ∙ ap (λ k. some (k, state)) same in
            elim (Option-cases (store.undo (laws.view c.storage) hash)) [
              | inr (undo, d) ↦ detach_block_from state undo here d
              | inl no_undo ↦
                  let (m, d, dropped, s, _) = drop_state_lem in
                  let undo_is : undo_data_of u hash g ≡ none =
                    ground (arith, synced.idle.stored, store.undo_seen hash c.storage, no_undo) in
                  (
                    m,
                    d,
                    s,
                    inr (
                      false,
                      ground
                          (arith, (hash_known (some (at_hash, state)) e).0, hit, undo_is, dropped),
                      λ h. absurd (cc),
                    ),
                  )
            ]
      ]
