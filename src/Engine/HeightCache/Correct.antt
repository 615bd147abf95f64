-- ===== src/Engine/HeightCache/Correct.antt =====
-- The cached height is that of the current block (xayagame/heightcache.cpp).
use libxayagame.Base.{
  ℕ, ◌≡◌, refl, sym, ◌∙◌, ap, subst, ◌⊎◌, inl, inr, true, false, Option, none, some, String, arith,
  Bool-cases, Option-cases,
}
use libxayagame.Base.Eq.{number_equality, same_refl}
use libxayagame.Engine.Storage.{Outcome, done, throw, abort, StorageInterface}
use libxayagame.Engine.HeightCache.{
  CachedStorage, through, then_cache, enable_cross_checks, set_current_game_state_with_height,
  get_current_block_hash_with_height, clear, rollback_transaction,
}

-- What holds of the state that a step returns, and of that which it throws.
abbrev pub Ends : {S : Type 0} → (S → Type 0) → (S → Type 0) → Outcome S → Type 0
Ends P E (done s) = P s
Ends P E (throw s) = E s
Ends P E abort = Unit

-- What holds of the state that a step returns. Of one that it throws nothing is asked.
abbrev pub Returns : {S : Type 0} → (S → Type 0) → Outcome S → Type 0
Returns P = Ends P (λ s. Unit)

-- A step that leaves the current block's hash where it returns.
abbrev pub KeepsHash : (st : StorageInterface) → (st.State → Outcome st.State) → Type 0
KeepsHash st f =
    (s : st.State) → Returns (λ t. st.get_current_block_hash t ≡ st.get_current_block_hash s) (f s)

-- What the storage does to the current block's hash where it returns, by xayagame/storage.hpp:
-- setting the state sets it; undo data, the begin and the commit of a transaction leave it. A step
-- that throws may have changed anything.
pub record HoldsHash (st : StorageInterface) : Type 0 where
  pub sets :
      (hash : ℕ) (state : String) (s : st.State)
      → Returns
          (λ t. st.get_current_block_hash t ≡ some hash)
          (st.set_current_game_state hash state s)
  pub adds : (hash height : ℕ) (value : String) → KeepsHash st (st.add_undo_data hash height value)
  pub releases : (hash : ℕ) → KeepsHash st (st.release_undo_data hash)
  pub prunes : (height : ℕ) → KeepsHash st (st.prune_undo_data height)
  pub begins : KeepsHash st st.begin_transaction
  pub commits : KeepsHash st st.commit_transaction

-- The operations on a cached storage that may change it.
pub data Operation : Type 0 where
  set_state : ℕ → ℕ → String → Operation
  add : ℕ → ℕ → String → Operation
  release prune : ℕ → Operation
  clear_all beginning committing rolling_back : Operation

module _ (st : StorageInterface) (hash_to_height : ℕ → ℕ) where
  unfoldable pub perform :
      Operation → CachedStorage st hash_to_height → Outcome (CachedStorage st hash_to_height)
  unfolding set_current_game_state_with_height clear rollback_transaction
  perform (set_state hash height state) =
      set_current_game_state_with_height st hash_to_height hash height state
  perform (add hash height value) = through st hash_to_height (st.add_undo_data hash height value)
  perform (release hash) = through st hash_to_height (st.release_undo_data hash)
  perform (prune height) = through st hash_to_height (st.prune_undo_data height)
  perform clear_all = clear st hash_to_height
  perform beginning = through st hash_to_height st.begin_transaction
  perform committing = through st hash_to_height st.commit_transaction
  perform rolling_back = rollback_transaction st hash_to_height

  -- A state is set with the height of its block.
  abbrev pub HasHeight : Operation → Type 0
  HasHeight (set_state hash height state) = height ≡ hash_to_height hash
  HasHeight _ = Unit

  -- The states that a use of the cached storage leads to, from one without a cached height. After an
  -- exception in a transaction comes a rollback, which may throw too. `Clear` has no transaction.
  pub data Reached : CachedStorage st hash_to_height → Type 0 where
    start : (c : CachedStorage st hash_to_height) → c.has_height ≡ false → Reached c
    checking :
        {c : CachedStorage st hash_to_height}
        → Reached c
        → Reached (enable_cross_checks st hash_to_height c)
    asked :
        {c d : CachedStorage st hash_to_height} {answer : Option (ℕ × ℕ)}
        → Reached c
        → get_current_block_hash_with_height st hash_to_height c ≡ done (answer, d)
        → Reached d
    returned :
        {c d : CachedStorage st hash_to_height}
        → Reached c
        → (op : Operation) → HasHeight op
        → perform op c ≡ done d
        → Reached d
    undone :
        {c d e : CachedStorage st hash_to_height}
        → Reached c
        → (op : Operation) → perform op c ≡ throw d
        → (perform rolling_back d ≡ done e) ⊎ (perform rolling_back d ≡ throw e)
        → Reached e
    not_cleared :
        {c d : CachedStorage st hash_to_height}
        → Reached c
        → perform clear_all c ≡ throw d
        → Reached d

  -- A cached height belongs to the current block.
  abbrev pub IsCached : CachedStorage st hash_to_height → Type 0
  IsCached c =
      (c.has_height ≡ false)
      ⊎ ((hash : ℕ) × (st.get_current_block_hash c.storage ≡ some hash)
          × (c.cached_height ≡ hash_to_height hash))

  -- With a cache that is right, the query fails no CHECK, with cross-checks or without, gives the
  -- current block's hash with its height, if there is one, and leaves a cache that is right.
  pub get_current_block_hash_with_height_lem :
      (c : CachedStorage st hash_to_height)
      → IsCached c
      → (d : CachedStorage st hash_to_height) × (get_current_block_hash_with_height st
            hash_to_height c
          ≡ done (
            elim (st.get_current_block_hash c.storage) [
              | none ↦ none
              | some hash ↦ some (hash, hash_to_height hash)
            ],
            d,
          ))
        × IsCached d
        × (d.storage ≡ c.storage)
  unfolding get_current_block_hash_with_height
  get_current_block_hash_with_height_lem c h =
      elim (Option-cases (st.get_current_block_hash c.storage)) [
        | inl absent ↦ (c, ground (arith, absent), h, refl)
        | inr (hash, there) ↦ elim (Bool-cases c.has_height) [
          | inr forgotten ↦ (
            record c { cached_height = hash_to_height hash; has_height = true },
            ground (arith, there, forgotten),
            inr (hash, there, refl),
            refl,
          )
          | inl cached ↦
              let right : c.cached_height ≡ hash_to_height hash = elim h [
                | inl none_cached ↦ absurd (ground (arith, cached, none_cached))
                | inr (h1, at, height) ↦ height ∙ ap hash_to_height (ground (arith, at, there))
              ] in
              (c, ground (arith, there, cached, right, same_refl (hash_to_height hash)), h, refl)
        ]
      ]

  IsCached-moved :
      (c : CachedStorage st hash_to_height) (t : st.State)
      → IsCached c
      → st.get_current_block_hash t ≡ st.get_current_block_hash c.storage
      → IsCached (record c { storage = t })
  IsCached-moved c t h e = elim h [
    | inl none_cached ↦ inl none_cached
    | inr (hash, at, height) ↦ inr (hash, e ∙ at, height)
  ]

  through-forgets :
      (f : st.State → Outcome st.State) (c : CachedStorage st hash_to_height)
      → c.has_height ≡ false
      → Ends IsCached IsCached (through st hash_to_height f c)
  through-forgets f c h = go (f c.storage)
    where
      go :
          (o : Outcome st.State)
          → Ends IsCached IsCached (elim o [
            | done s ↦ done (record c { storage = s })
            | throw s ↦ throw (record c { storage = s })
            | abort ↦ abort
          ])
      go (done t) = inl h
      go (throw t) = inl h
      go abort = tt

  module _ (holds : HoldsHash st) where
    through-IsCached :
        (f : st.State → Outcome st.State) (c : CachedStorage st hash_to_height)
        → KeepsHash st f
        → IsCached c
        → Returns IsCached (through st hash_to_height f c)
    through-IsCached f c keeps h = go (f c.storage) (keeps c.storage)
      where
        go :
            (o : Outcome st.State)
            → Returns (λ t. st.get_current_block_hash t ≡ st.get_current_block_hash c.storage) o
            → Returns IsCached (elim o [
              | done s ↦ done (record c { storage = s })
              | throw s ↦ throw (record c { storage = s })
              | abort ↦ abort
            ])
        go (done t) e = IsCached-moved c t h e
        go (throw t) e = tt
        go abort e = tt

    set-IsCached :
        (hash : ℕ) (state : String) (c : CachedStorage st hash_to_height)
        → Returns IsCached (
            set_current_game_state_with_height st hash_to_height hash (hash_to_height hash) state c)
    unfolding set_current_game_state_with_height
    set-IsCached hash state c =
        go (st.set_current_game_state hash state c.storage) (holds.sets hash state c.storage)
      where
        go :
            (o : Outcome st.State)
            → Returns (λ t. st.get_current_block_hash t ≡ some hash) o
            → Returns IsCached (
                then_cache st hash_to_height (hash_to_height hash) (elim o [
                  | done s ↦ done (record c { storage = s })
                  | throw s ↦ throw (record c { storage = s })
                  | abort ↦ abort
                ]))
        go (done t) e = inr (hash, e, refl)
        go (throw t) e = tt
        go abort e = tt

    forgets-Returns :
        (o : Outcome (CachedStorage st hash_to_height))
        → Ends IsCached IsCached o
        → Returns IsCached o
    forgets-Returns (done d) h = h
    forgets-Returns (throw d) h = tt
    forgets-Returns abort h = tt

    rolling_back-IsCached :
        (c : CachedStorage st hash_to_height) → Ends IsCached IsCached (perform rolling_back c)
    unfolding perform
    rolling_back-IsCached c =
        through-forgets st.rollback_transaction (record c { has_height = false }) refl

    clear_all-IsCached :
        (c : CachedStorage st hash_to_height) → Ends IsCached IsCached (perform clear_all c)
    unfolding perform
    clear_all-IsCached c = through-forgets st.clear (record c { has_height = false }) refl

    perform-IsCached :
        (op : Operation) (c : CachedStorage st hash_to_height)
        → HasHeight op
        → IsCached c
        → Returns IsCached (perform op c)
    unfolding perform
    perform-IsCached (set_state hash height state) c right h =
        subst
          (λ k.
            Returns IsCached (set_current_game_state_with_height st hash_to_height hash k state c))
          (sym right) (set-IsCached hash state c)
    perform-IsCached (add hash height value) c right h =
        through-IsCached _ c (holds.adds hash height value) h
    perform-IsCached (release hash) c right h = through-IsCached _ c (holds.releases hash) h
    perform-IsCached (prune height) c right h = through-IsCached _ c (holds.prunes height) h
    perform-IsCached clear_all c right h = forgets-Returns _ (clear_all-IsCached c)
    perform-IsCached beginning c right h = through-IsCached _ c holds.begins h
    perform-IsCached committing c right h = through-IsCached _ c holds.commits h
    perform-IsCached rolling_back c right h = forgets-Returns _ (rolling_back-IsCached c)

    -- On a storage that sets and keeps the current block's hash as documented where it returns, and
    -- whatever it does where it throws, a cached height is that of the current block after every use
    -- in which states are set with the heights of their blocks and every exception but one of
    -- `Clear` is followed by a rollback.
    pub Reached-IsCached : {c : CachedStorage st hash_to_height} → Reached c → IsCached c
    unfolding enable_cross_checks
    Reached-IsCached (start c none_cached) = inl none_cached
    Reached-IsCached (checking r) = Reached-IsCached r
    Reached-IsCached (asked {c = c} {d = d} r e) =
        let (d', answers, cached, same) =
          get_current_block_hash_with_height_lem c (Reached-IsCached r) in
        let is_d : d' ≡ d = ground (arith, e, answers) in subst IsCached is_d cached
    Reached-IsCached (returned {c = c} r op right e) =
        subst (Returns IsCached) e (perform-IsCached op c right (Reached-IsCached r))
    Reached-IsCached (undone {d = d} r op e (inl back)) =
        subst (Ends IsCached IsCached) back (rolling_back-IsCached d)
    Reached-IsCached (undone {d = d} r op e (inr back)) =
        subst (Ends IsCached IsCached) back (rolling_back-IsCached d)
    Reached-IsCached (not_cleared {c = c} r e) =
        subst (Ends IsCached IsCached) e (clear_all-IsCached c)
