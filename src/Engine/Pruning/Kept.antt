-- ===== src/Engine/Pruning/Kept.antt =====
-- What the pruning queue keeps (xayagame/pruningqueue.cpp).
use libxayagame.Base.{
  ℕ, ◌+◌, ◌≤◌, ◌≡◌, refl, ◌∙◌, ◌⊎◌, inl, inr, true, false, Option, none, some, ltb, leb,
  if◌then◌else◌, arith, Bool-cases, List, [], ◌∷◌, length, String, contains,
}
use libxayagame.Base.Eq.{◌==◌, number_equality}
use libxayagame.Engine.Storage.{done, throw, StorageInterface}
use libxayagame.Engine.Transactions.Invariant.{IsTransactional}
use libxayagame.Engine.Transactions.Scopes.{Kept}
use libxayagame.Engine.Pruning.{PruningQueue, release_from}

-- The undo data of a hash, with the height of its block.
abbrev pub UndoData : Type 0
UndoData = ℕ → Option (ℕ × String)

abbrev pub above : ℕ → Option (ℕ × String) → Option (ℕ × String)
above height none = none
above height (some (h, value)) = if leb h height then none else some (h, value)

-- What xayagame/storage.hpp says of the two operations on undo data in an open transaction. Each may
-- throw.
pub record IsPrunable (st : StorageInterface) (laws : IsTransactional st) : Type 0 where
  pub undo : laws.Content → UndoData
  pub releases :
      (hash : ℕ) (s : st.State)
      → laws.is_open s ≡ true
      → (t : st.State) × Kept st laws s t
        × (((st.release_undo_data hash s ≡ done t)
              × ((k : ℕ)
                  → undo (laws.view t) k ≡ (if hash == k then none else undo (laws.view s) k)))
            ⊎ (st.release_undo_data hash s ≡ throw t))
  pub prunes :
      (height : ℕ) (s : st.State)
      → laws.is_open s ≡ true
      → (t : st.State) × Kept st laws s t
        × (((st.prune_undo_data height s ≡ done t)
              × ((k : ℕ) → undo (laws.view t) k ≡ above height (undo (laws.view s) k)))
            ⊎ (st.prune_undo_data height s ≡ throw t))

-- No hash stands twice in the queue.
abbrev pub AllDistinct : List ℕ → Type 0
AllDistinct [] = Unit
AllDistinct (h ∷ hs) = (contains h hs ≡ false) × AllDistinct hs

abbrev pub AtHeight : ℕ → Option (ℕ × String) → Type 0
AtHeight height none = Unit
AtHeight height (some (h, value)) = h ≡ height

-- The blocks have consecutive heights, from `height` on, where they have undo data.
abbrev pub HasHeights : UndoData → ℕ → List ℕ → Type 0
HasHeights u height [] = Unit
HasHeights u height (h ∷ hs) = AtHeight height (u h) × HasHeights u (height + 1) hs

-- A newer part of the queue.
pub data IsSuffix : List ℕ → List ℕ → Type 0 where
  whole : (xs : List ℕ) → IsSuffix xs xs
  popped : (h : ℕ) (xs ys : List ℕ) → IsSuffix xs ys → IsSuffix xs (h ∷ ys)

pub suffix_contains :
    (k : ℕ) (xs ys : List ℕ) → IsSuffix xs ys → contains k xs ≡ true → contains k ys ≡ true
suffix_contains k xs _ (whole _) c = c
suffix_contains k xs _ (popped h _ ys s) c = ground (arith, suffix_contains k xs ys s c)

module _ (st : StorageInterface) (laws : IsTransactional st) (prunable : IsPrunable st laws) where
  open laws use {is_open, view, durable}
  open prunable use {undo}

  abbrev pub undo_at : st.State → UndoData
  undo_at s = undo (view s)

  -- The two states have the same undo data for the hashes of a queue.
  abbrev pub Same : List ℕ → st.State → st.State → Type 0
  Same hs s t = (k : ℕ) → contains k hs ≡ true → undo_at t k ≡ undo_at s k

  -- What the loop returns or throws.
  pub record Released (hs : List ℕ) (q r : PruningQueue) (s t : st.State) : Type 0 where
    pub suffix : IsSuffix r.hashes hs
    pub rest : r ≡ record q { hashes = r.hashes }
    pub small : length r.hashes ≤ q.n_blocks
    pub same_undo : AllDistinct hs → Same r.hashes s t

  pub released :
      (hs : List ℕ) (q : PruningQueue) (s : st.State)
      → is_open s ≡ true
      → (r : PruningQueue) × (t : st.State) × Kept st laws s t
        × (((release_from st hs q s ≡ done (r, t)) × Released hs q r s t)
            ⊎ ((release_from st hs q s ≡ throw (r, t)) × IsSuffix r.hashes hs))
  unfolding release_from
  released [] q s o = (
    record q { hashes = [] },
    s,
    (o, refl),
    inl (
      refl,
      record { suffix = whole []; rest = refl; small = omega arith; same_undo = λ d k c. refl },
    ),
  )
  released (h ∷ hs) q s o = elim (Bool-cases (ltb q.n_blocks (length (h ∷ hs)))) [
    | inr fits ↦ (
      record q { hashes = h ∷ hs },
      s,
      (o, refl),
      inl (
        ground (arith, fits),
        record {
          suffix = whole (h ∷ hs);
          rest = refl;
          small = ground (arith, fits);
          same_undo = λ d k c. refl;
        },
      ),
    )
    | inl long ↦
        let (t, (o', kept), went) = prunable.releases h s o in
        elim went [
          | inr threw ↦ (
            record q { hashes = h ∷ hs },
            t,
            (o', kept),
            inr (ground (arith, long, threw), whole (h ∷ hs)),
          )
          | inl (did, lost) ↦
              let (r, u, (o2, kept2), rest) = released hs q t o' in
              (
                r,
                u,
                (o2, kept2 ∙ kept),
                elim rest [
                  | inr (e, suf) ↦ inr (ground (arith, long, did, e), popped h r.hashes hs suf)
                  | inl (e, x) ↦ inl (
                    ground (arith, long, did, e),
                    record {
                      suffix = popped h r.hashes hs x.suffix;
                      rest = x.rest;
                      small = x.small;
                      same_undo = λ d k c. ground (
                        arith,
                        x.same_undo d.1 k c,
                        lost k,
                        d.0,
                        suffix_contains k r.hashes hs x.suffix c,
                        number_equality.same_iff h k,
                      );
                    },
                  )
                ],
              )
        ]
  ]
