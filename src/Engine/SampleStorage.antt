-- ===== src/Engine/SampleStorage.antt =====
-- A storage with transactions to run the models with. It keeps what is seen and what is durable.
use libxayagame.Base.{
  ℕ, ◌≡◌, refl, Bool, true, false, Option, none, some, String, if◌then◌else◌, inl, inr, Bool-cases,
  ap,
}
use libxayagame.Base.Eq.{◌==◌, number_equality}
use libxayagame.Engine.Storage.{Outcome, done, abort, StorageInterface}
use libxayagame.Engine.Transactions.Invariant.{IsTransactional}
use libxayagame.Engine.Pruning.Kept.{IsPrunable, above}
use libxayagame.Engine.HeightCache.Correct.{HoldsHash, Returns}

pub record Stored : Type 0 where
  pub current : Option (ℕ × String)
  pub undo_data : ℕ → Option (ℕ × String)

pub record Snapshots : Type 0 where
  pub is_open : Bool
  pub view : Stored
  pub durable : Stored

abbrev pub changed : (Stored → Stored) → Snapshots → Outcome Snapshots
changed f s = if s.is_open then done (record s { view = f s.view }) else abort

abbrev with_undo : ℕ → ℕ → String → Stored → Stored
with_undo hash height value v = record v {
  undo_data = λ k. if hash == k then some (height, value) else v.undo_data k;
}

abbrev without_undo : ℕ → Stored → Stored
without_undo hash v = record v { undo_data = λ k. if hash == k then none else v.undo_data k }

abbrev pruned : ℕ → Stored → Stored
pruned height v = record v { undo_data = λ k. above height (v.undo_data k) }

abbrev pub snapshots : StorageInterface
snapshots = record {
  State = Snapshots;
  clear = λ s.
      let empty : Stored = record { current = none; undo_data = λ k. none } in
      if s.is_open then abort else done (record { is_open = false; view = empty; durable = empty });
  get_current_block_hash = λ s. elim s.view.current [ none ↦ none | some (hash, _) ↦ some hash ];
  get_current_game_state = λ s. elim s.view.current [ none ↦ none | some (_, state) ↦ some state ];
  set_current_game_state = λ hash state. changed (λ v. record v { current = some (hash, state) });
  get_undo_data =
      λ hash s. elim (s.view.undo_data hash) [ none ↦ none | some (_, value) ↦ some value ];
  add_undo_data = λ hash height value. changed (with_undo hash height value);
  release_undo_data = λ hash. changed (without_undo hash);
  prune_undo_data = λ height. changed (pruned height);
  begin_transaction = λ s. if s.is_open then abort else done (record s { is_open = true });
  commit_transaction =
      λ s. if s.is_open then done (record s { is_open = false; durable = s.view }) else abort;
  rollback_transaction =
      λ s. if s.is_open then done (record s { is_open = false; view = s.durable }) else abort;
}

abbrev pub snapshots-IsTransactional : IsTransactional snapshots
snapshots-IsTransactional = record {
  Content = Stored;
  is_open = λ s. s.is_open;
  view = λ s. s.view;
  durable = λ s. s.durable;
  begins = λ s c. (record s { is_open = true }, rw c refl, refl, refl, refl);
  commits =
      λ s o. inl (record s { is_open = false; durable = s.view }, rw o refl, refl, refl, refl);
  rolls_back = λ s o. (record s { is_open = false; view = s.durable }, rw o refl, refl, refl, refl);
}

abbrev pub snapshots-IsPrunable : IsPrunable snapshots snapshots-IsTransactional
snapshots-IsPrunable = record {
  undo = λ v. v.undo_data;
  releases = λ hash s o. (
    record s {
      view = record s.view { undo_data = λ k. if hash == k then none else s.view.undo_data k };
    },
    (o, refl),
    inl (rw o refl, λ k. refl),
  );
  prunes = λ height s o. (
    record s { view = record s.view { undo_data = λ k. above height (s.view.undo_data k) } },
    (o, refl),
    inl (rw o refl, λ k. refl),
  );
}

keeps_hash :
    (f : Stored → Stored) (s : Snapshots)
    → ((v : Stored) → (f v).current ≡ v.current)
    → Returns
        (λ t. snapshots.get_current_block_hash t ≡ snapshots.get_current_block_hash s)
        (changed f s)
keeps_hash f s same = elim (Bool-cases s.is_open) [
  | inl o ↦ rw o (
      ap (λ x. elim x as (λ y. Option ℕ) [ none ↦ none | some (hash, _) ↦ some hash ])
        (same s.view))
  | inr c ↦ rw c tt
]

pub snapshots-HoldsHash : HoldsHash snapshots
snapshots-HoldsHash = record {
  sets = λ hash state s. elim (Bool-cases s.is_open) [ inl o ↦ rw o refl | inr c ↦ rw c tt ];
  adds = λ hash height value s. keeps_hash (with_undo hash height value) s (λ v. refl);
  releases = λ hash s. keeps_hash (without_undo hash) s (λ v. refl);
  prunes = λ height s. keeps_hash (pruned height) s (λ v. refl);
  begins = λ s. elim (Bool-cases s.is_open) [ inl o ↦ rw o tt | inr c ↦ rw c refl ];
  commits = λ s. elim (Bool-cases s.is_open) [ inl o ↦ rw o refl | inr c ↦ rw c tt ];
}
