-- ===== src/Engine/Game/Updates/Bodies.antt =====
-- What the transactions of the driver (xayagame/game.cpp) do to the content of the storage.
use libxayagame.Base.{
  ℕ, ◌-◌, ◌≡◌, inl, inr, true, Option, ap, none, some, String, if◌then◌else◌, arith, ◌∙◌,
}
use libxayagame.Base.Eq.{◌==◌, number_equality}
use libxayagame.Engine.HeightCache.{CachedStorage, set_current_game_state_with_height}
use libxayagame.Engine.Transactions.Invariant.{IsTransactional}
use libxayagame.Engine.Game.{Setup}
use libxayagame.Engine.Game.Attach.{store_attached, store_detached}
use libxayagame.Engine.Game.Store.{IsStore}
use libxayagame.Engine.Game.Chain.{Chain}
use libxayagame.Engine.Game.Updates.{IsStep}

module _ (u : Setup) (chain : Chain u) (laws : IsTransactional u.store)
    (store : IsStore u.store laws) where
  -- The current state is set, and the undo data is changed for one block.
  pub record IsStateStored (hash : ℕ) (state : String) (a b : laws.Content) : Type 0 where
    pub is_current : store.current b ≡ some (hash, state)
    pub same_undo : (k : ℕ) → store.undo b k ≡ store.undo a k

  pub record IsAttached (hash : ℕ) (undo state : String) (a b : laws.Content) : Type 0 where
    pub is_current : store.current b ≡ some (hash, state)
    pub added : (k : ℕ) → store.undo b k ≡ (if hash == k then some undo else store.undo a k)

  pub record IsDetached (parent hash : ℕ) (state : String) (a b : laws.Content) : Type 0 where
    pub is_current : store.current b ≡ some (parent, state)
    pub removed : (k : ℕ) → store.undo b k ≡ (if hash == k then none else store.undo a k)

  pub set-IsStep :
      (hash height : ℕ) (state : String)
      → IsStep u chain laws store
          (IsStateStored hash state)
          (set_current_game_state_with_height u.store u.hash_to_height hash height state)
  unfolding set_current_game_state_with_height
  set-IsStep hash height state c opened =
      let (t, kept, went) = store.sets hash state c.storage opened in
      elim went [
        | inl (e, current, undo) ↦ (
          record c { storage = t; has_height = true; cached_height = height },
          kept,
          inl (ground (arith, e), record { is_current = current; same_undo = undo }),
        )
        | inr e ↦ (record c { storage = t }, kept, inr (ground (arith, e)))
      ]

  pub store_attached-IsStep :
      (hash height : ℕ) (undo state : String)
      → IsStep u chain laws store
          (IsAttached hash undo state)
          (store_attached u hash height undo state)
  unfolding store_attached
  store_attached-IsStep hash height undo state c opened =
      let (t, (o, d), went) = store.adds hash height undo c.storage opened in
      elim went [
        | inr e ↦ (record c { storage = t }, (o, d), inr (ground (arith, e)))
        | inl (e, current, undos) ↦
            let mid : CachedStorage u.store u.hash_to_height = record c { storage = t } in
            let (v, (o', d'), then_set) = set-IsStep hash height state mid o in
            elim then_set [
              | inr f ↦ (v, (o', d' ∙ d), inr (ground (arith, e, f)))
              | inl (f, is_set) ↦ (
                v,
                (o', d' ∙ d),
                inl (
                  ground (arith, e, f),
                  record {
                    is_current = is_set.is_current;
                    added = λ k. is_set.same_undo k ∙ undos k;
                  },
                ),
              )
            ]
      ]

  -- The rest of a map without an entry.
  ap_if :
      (hash k : ℕ) {a b : Option String}
      → a ≡ b
      → (if hash == k then none else a) ≡ (if hash == k then none else b)
  ap_if hash k e = ap (λ x. if hash == k then none else x) e

  pub store_detached-IsStep :
      (parent hash height : ℕ) (state : String)
      → IsStep u chain laws store
          (IsDetached parent hash state)
          (store_detached u parent hash height state)
  unfolding store_detached
  store_detached-IsStep parent hash height state c opened =
      let (v, (o, d), went) = set-IsStep parent (height - 1) state c opened in
      elim went [
        | inr e ↦ (v, (o, d), inr (ground (arith, e)))
        | inl (e, is_set) ↦
            let (t, (o', d'), then_released) = store.releases hash v.storage o in
            elim then_released [
              | inr f ↦ (record v { storage = t }, (o', d' ∙ d), inr (ground (arith, e, f)))
              | inl (f, current, undos) ↦ (
                record v { storage = t },
                (o', d' ∙ d),
                inl (
                  ground (arith, e, f),
                  record {
                    is_current = current ∙ is_set.is_current;
                    removed = λ k. undos k ∙ ap_if hash k (is_set.same_undo k);
                  },
                ),
              )
            ]
      ]
