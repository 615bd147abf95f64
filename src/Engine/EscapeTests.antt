-- ===== src/Engine/EscapeTests.antt =====
-- An instance of the theorem on exceptions that leave the driver: a storage that cannot commit.
use libxayagame.Base.{ℕ, ◌≡◌, refl, inr, true, false, String, none, some, arith, subst}
use libxayagame.Engine.Storage.{Outcome, StorageInterface}
use libxayagame.Engine.HeightCache.{CachedStorage}
use libxayagame.Engine.Transactions.Invariant.{IsTransactional}
use libxayagame.Engine.SampleStorage.{Stored, snapshots, snapshots-IsTransactional}
use libxayagame.Engine.GameTests.{setup, chain, snapshots-IsStore, daemon, at_block}
use libxayagame.Engine.Game.{State, Setup, Game, throw}
use libxayagame.Engine.Game.Sync.{reinitialise_state}
use libxayagame.Engine.Game.Store.{IsStore}
use libxayagame.Engine.Game.Chain.{Chain, IsStateOf, IsSound, genesis-IsStateOf}
use libxayagame.Engine.Game.Updates.{IsSynced}
use libxayagame.Engine.Game.Escapes.{reinitialise_state-throws}

abbrev full : StorageInterface
full = record snapshots { commit_transaction = λ s. Outcome.throw s }

abbrev full-IsTransactional : IsTransactional full
full-IsTransactional = record {
  Content = Stored;
  is_open = λ s. s.is_open;
  view = λ s. s.view;
  durable = λ s. s.durable;
  begins = snapshots-IsTransactional.begins;
  commits = λ s o. inr (s, refl, o, refl);
  rolls_back = snapshots-IsTransactional.rolls_back;
}

abbrev full-IsStore : IsStore full full-IsTransactional
full-IsStore = record {
  current = snapshots-IsStore.current;
  undo = snapshots-IsStore.undo;
  hash_seen = snapshots-IsStore.hash_seen;
  state_seen = snapshots-IsStore.state_seen;
  undo_seen = snapshots-IsStore.undo_seen;
  sets = snapshots-IsStore.sets;
  adds = snapshots-IsStore.adds;
  releases = snapshots-IsStore.releases;
  clears = snapshots-IsStore.clears;
}

abbrev stuck : Setup
stuck = record setup { store = full }

abbrev stuck_chain : Chain stuck
stuck_chain = record {
  genesis = 170;
  parent_of = chain.parent_of;
  height = chain.height;
  data_of = chain.data_of;
  genesis_hash = refl;
  genesis_height = refl;
  undoes = λ state hash. refl;
}

-- The genesis block is the tip, and its state is in the open batch.
abbrev open_cached : CachedStorage full stuck.hash_to_height
open_cached = record {
  storage = record { is_open = true; view = at_block 170 "aa"; durable = at_block 170 "aa" };
  cross_check = false;
  cached_height = 0;
  has_height = false;
}

abbrev catching : Game stuck
catching = record {
  game_id = "n";
  state = State.catching_up;
  genesis_height = 5;
  genesis_hash = 170;
  target_block_hash = 170;
  req_token = "";
  manager = record {
    storage = some open_cached;
    batch_size = 1000;
    batched_commits = 1;
    in_transaction = false;
    commit_failed = false;
  };
  pending = none;
  pending_state_version = 1;
  transaction_batch_size = 1000;
  pruning_queue = none;
}

at_genesis-IsSound : IsSound stuck stuck_chain full-IsTransactional full-IsStore (at_block 170 "aa")
at_genesis-IsSound = record {
  state_sound = λ hash state e.
      let same : (170, "aa") ≡ (hash, state) = cc (e) in
      subst (λ (p : ℕ × String). IsStateOf stuck stuck_chain p.0 p.1) same
        (genesis-IsStateOf stuck stuck_chain);
  undo_sound = λ hash undo e. absurd (cc (e));
}

catching-IsSynced :
    IsSynced stuck stuck_chain full-IsTransactional full-IsStore catching open_cached
catching-IsSynced = record {
  idle = record {
    stored = refl;
    idle = refl;
    good = refl;
    sized = record { room = omega arith; fits = omega arith };
    opened = refl;
  };
  view_sound = at_genesis-IsSound;
  durable_sound = at_genesis-IsSound;
  genesis = inr (refl, refl);
  batch = (omega arith, omega arith);
}

reinitialise_state-throws_example :
    reinitialise_state stuck 7 (record daemon { best_block_hash = "aa" }) catching
    ≡ throw (record catching {
      state = State.up_to_date;
      manager = record catching.manager {
        storage = some open_cached;
        batch_size = 1;
        commit_failed = true;
      };
    })
reinitialise_state-throws_example =
    reinitialise_state-throws stuck stuck_chain full-IsTransactional full-IsStore 7
      (record daemon { best_block_hash = "aa" }) catching open_cached 170 "aa" open_cached.storage
      catching-IsSynced refl refl (omega arith) refl
