-- ===== src/Engine/Game/Updates.antt =====
-- Every update of the state in the storage is right (xayagame/game.cpp): the invariant, and what a
-- transaction does to it.
pub mod Bodies
pub mod Sound
pub mod Blocks
use libxayagame.Base.{
  ℕ, ◌<◌, ◌^◌, ◌≡◌, refl, ◌⊎◌, inl, inr, true, none, some, String, arith, subst, sym, ◌∙◌,
}
use libxayagame.Engine.Storage.{Outcome}
use libxayagame.Engine.HeightCache.{CachedStorage}
use libxayagame.Engine.Transactions.{TransactionManager, active_transaction}
use libxayagame.Engine.Transactions.Invariant.{IsTransactional, IsIdle}
use libxayagame.Engine.Transactions.Scopes.{Kept, IsBody, Succeeded, active_transaction-Succeeded}
use libxayagame.Engine.Game.{Setup, Cached, Game, Run, done, throw}
use libxayagame.Engine.Game.Attach.{with_unit, in_transaction}
use libxayagame.Engine.Game.Store.{IsStore, cached-IsTransactional}
use libxayagame.Engine.Game.Chain.{Chain, IsSound}

module _ (u : Setup) (chain : Chain u) (laws : IsTransactional u.store)
    (store : IsStore u.store laws) where
  abbrev pub claws : IsTransactional (Cached u)
  claws = cached-IsTransactional u.store u.hash_to_height laws

  -- Between transactions: what is seen and what is durable are right. The genesis block is not yet
  -- known, or it is that of the chain.
  pub record IsSynced (g : Game u) (c : CachedStorage u.store u.hash_to_height) : Type 0 where
    pub idle : IsIdle (Cached u) claws g.manager c
    pub view_sound : IsSound u chain laws store (laws.view c.storage)
    pub durable_sound : IsSound u chain laws store (laws.durable c.storage)
    pub genesis :
        (g.genesis_hash ≡ 0)
        ⊎ ((g.genesis_hash ≡ chain.genesis) × (g.genesis_height ≡ chain.height chain.genesis))
    pub batch : (0 < g.transaction_batch_size) × (g.transaction_batch_size < 2 ^ 32)

  -- A step of the storage within a transaction. It returns or throws, and makes nothing durable; if
  -- it returns, what is seen is related by `P`.
  abbrev pub IsStep :
      (laws.Content → laws.Content → Type 0)
      → (CachedStorage u.store u.hash_to_height → Outcome (CachedStorage u.store u.hash_to_height))
      → Type 0
  IsStep P body =
      (c : CachedStorage u.store u.hash_to_height)
      → laws.is_open c.storage ≡ true
      → (d : CachedStorage u.store u.hash_to_height) × Kept (Cached u) claws c d
        × (((body c ≡ Outcome.done d) × P (laws.view c.storage) (laws.view d.storage))
            ⊎ (body c ≡ Outcome.throw d))

  module _ (P : laws.Content → laws.Content → Type 0)
      (body : CachedStorage u.store u.hash_to_height
        → Outcome (CachedStorage u.store u.hash_to_height))
      (step : IsStep P body) where
    step-IsBody : IsBody (Cached u) claws (λ (q : Unit {0}) c. with_unit u (body c))
    step-IsBody q c opened =
        let (d, kept, went) = step c opened in
        elim went [
          | inl (e, _) ↦ (tt, d, inl (ground (arith, e)), kept)
          | inr e ↦ (tt, d, inr (ground (arith, e)), kept)
        ]

    -- The state after a transaction that succeeded.
    pub record IsDone (g : Game u) (c : CachedStorage u.store u.hash_to_height) : Type 0 where
      pub manager : TransactionManager (Cached u)
      pub after : CachedStorage u.store u.hash_to_height
      pub ran : in_transaction u body g ≡ done (record g { manager = manager }) tt
      pub idle : IsIdle (Cached u) claws manager after
      pub seen : P (laws.view c.storage) (laws.view after.storage)
      pub same_durable :
          (laws.durable after.storage ≡ laws.durable c.storage)
          ⊎ (laws.durable after.storage ≡ laws.view after.storage)

    -- The state after one that threw: what is seen is what was durable.
    pub record IsThrown (g : Game u) (c : CachedStorage u.store u.hash_to_height) : Type 0 where
      pub manager : TransactionManager (Cached u)
      pub after : CachedStorage u.store u.hash_to_height
      pub ran : in_transaction u body g ≡ throw (record g { manager = manager })
      pub idle : IsIdle (Cached u) claws manager after
      pub reverted : laws.view after.storage ≡ laws.durable c.storage
      pub same_durable : laws.durable after.storage ≡ laws.durable c.storage

    abbrev pub Transacted : Game u → CachedStorage u.store u.hash_to_height → Type 0
    Transacted g c = IsDone g c ⊎ IsThrown g c

    pub in_transaction-Transacted :
        (g : Game u) (c : CachedStorage u.store u.hash_to_height)
        → IsIdle (Cached u) claws g.manager c
        → Transacted g c
    in_transaction-Transacted g c i =
        let (r, n, t, went) =
          active_transaction-Succeeded (Cached u) claws (λ (q : Unit {0}) c. with_unit u (body c))
            step-IsBody tt g.manager c i in
        elim went [
          | inr (e, back) ↦ inr (record {
            manager = n;
            after = t;
            ran = ground (arith, e);
            idle = back.idle;
            reverted = back.reverted;
            same_durable = back.same_durable;
          })
          | inl (e, h) ↦
              let (d, kept, what) = step h.before h.opened in
              elim what [
                | inr threw ↦ absurd (ground (arith, threw, h.ran))
                | inl (ok, p) ↦
                    let same : d ≡ h.after = ground (arith, ok, h.ran) in
                    let seen : P (laws.view c.storage) (laws.view t.storage) =
                      subst (λ x. P x (laws.view t.storage)) h.same_view
                        (subst (λ x. P (laws.view h.before.storage) x) (sym h.seen)
                          (subst
                            (λ (x : CachedStorage u.store u.hash_to_height).
                              P (laws.view h.before.storage) (laws.view x.storage))
                            same p)) in
                    inl (record {
                      manager = n;
                      after = t;
                      ran = ground (arith, e);
                      idle = h.idle;
                      seen = seen;
                      same_durable = elim h.batched [
                        | inl (_, q) ↦ inl q
                        | inr (_, q, _) ↦ inr (q ∙ sym h.seen)
                      ];
                    })
              ]
        ]
