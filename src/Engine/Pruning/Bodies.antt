-- ===== src/Engine/Pruning/Bodies.antt =====
-- What pruning does within a transaction (xayagame/pruningqueue.cpp).
use libxayagame.Base.{
  ℕ, ◌+◌, ◌<◌, ◌≡◌, subst, inl, inr, true, arith, Bool-cases, Option-cases, List, [], ◌∷◌, contains,
}
use libxayagame.Base.Eq.{◌==◌, number_equality}
use libxayagame.Engine.Storage.{StorageInterface}
use libxayagame.Engine.Transactions.Invariant.{IsTransactional}
use libxayagame.Engine.Transactions.Scopes.{IsBody}
use libxayagame.Engine.Pruning.{PruningQueue, release_from, prune_before}
use libxayagame.Engine.Pruning.Kept.{
  UndoData, above, IsPrunable, AtHeight, HasHeights, IsSuffix, whole, popped, released,
}

pub HasHeights-above :
    (u : UndoData) (k n base : ℕ) (hs : List ℕ)
    → n < base
    → HasHeights u base hs
    → contains k hs ≡ true
    → above n (u k) ≡ u k
HasHeights-above u k n base [] low t c = cc
HasHeights-above u k n base (h ∷ hs) low t c = elim (Bool-cases (h == k)) [
  | inr miss ↦ HasHeights-above u k n (base + 1) hs (omega arith) t.1 (ground (arith, c, miss))
  | inl hit ↦ elim (Option-cases (u h)) [
    | inl e ↦ ground (arith, e, (number_equality.same_iff h k).0 hit)
    | inr ((m, value), e) ↦
        let at : m ≡ base = subst (AtHeight base) e t.0 in
        ground (arith, e, (number_equality.same_iff h k).0 hit, at, low)
  ]
]

suffix_trans : (xs ys zs : List ℕ) → IsSuffix xs ys → IsSuffix ys zs → IsSuffix xs zs
suffix_trans xs _ zs s (whole _) = s
suffix_trans xs ys _ s (popped h _ zs t) = popped h xs zs (suffix_trans xs ys zs s t)

module _ (st : StorageInterface) (laws : IsTransactional st) (prunable : IsPrunable st laws) where
  open laws use {is_open, view, durable}
  open prunable use {undo}

  pub release_body : IsBody st laws (λ (p : PruningQueue) s. release_from st p.hashes p s)
  release_body q s o =
      let (r, t, k, went) = released st laws prunable q.hashes q s o in
      (r, t, elim went [ inl (e, _) ↦ inl e | inr (e, _) ↦ inr e ], k)

  pub prune_body : (height : ℕ) → IsBody st laws (prune_before st height)
  prune_body height q s o =
      let (t, k, went) = prunable.prunes height s o in
      (
        q,
        t,
        elim went [ inl (e, _) ↦ inl (ground (arith, e)) | inr e ↦ inr (ground (arith, e)) ],
        k,
      )
