-- ===== src/Engine/GameTests.antt =====
-- Tests of the driver, and instances of its theorems.
use libxayagame.Base.{
  ℕ, ◌≡◌, ◌≢◌, refl, ◌⊎◌, inl, inr, Bool, true, false, String, Option, none, some, arith,
  if◌then◌else◌, Bool-cases, Option-cases, [], subst,
}
use libxayagame.Base.Eq.{◌==◌, text_equality, number_equality}
use libxayagame.Samples.{Value, string, number, object, field, end, sample_json}
use libxayagame.Engine.Storage.{Outcome}
use libxayagame.Engine.HeightCache.{CachedStorage, set_current_game_state_with_height}
use libxayagame.Engine.Transactions.{TransactionManager, begin, commit, flush, active_transaction}
use libxayagame.Engine.SampleStorage.{Stored, Snapshots, snapshots, snapshots-IsTransactional}
use libxayagame.Engine.PendingTests.{hex, listing}
use libxayagame.Engine.Game.{State, GameLogic, Setup, Cached, Daemon, Game, throw}
use libxayagame.Engine.Game.Attach.{in_transaction}
use libxayagame.Engine.Game.Sync.{reinitialise_state}
use libxayagame.Engine.Game.Handlers.{block_attach, block_detach}
use libxayagame.Engine.Game.Store.{IsStore, first_of, second_of}
use libxayagame.Engine.Game.Chain.{Chain, IsNotified, IsStateOf, IsSound, genesis-IsStateOf}
use libxayagame.Engine.Game.Ready.{IsAnswering, IsPatient, IsReady, IsReinitialised}
use libxayagame.Engine.Game.Synced.{reinitialise_state-IsReinitialised}
use libxayagame.Engine.Game.Follows.{Follows, block_attach-Follows, block_detach-Follows}

-- A game whose state is the name of the block, and whose undo data is the state before it.
abbrev pub naming : GameLogic sample_json
naming = record {
  process_forward = λ state block_data.
      (sample_json.as_string (sample_json.at (sample_json.at block_data "block") "hash"), state);
  process_backwards = λ state block_data undo. undo;
  get_initial_state = ("aa", 5, "aa");
}

abbrev pub setup : Setup
setup = record {
  json = sample_json;
  from_hex = hex;
  store = snapshots;
  hash_to_height = λ hash. if hash == 170 then 5 else 6;
  rules = naming;
  pending_game = listing;
}

-- The block after the genesis block.
abbrev pub next_block : Value
next_block = object (
    field "block"
      (object
        (field "hash" (string "bb") (field "parent" (string "aa") (field "height" (number 6) end))))
      end)

abbrev pub chain : Chain setup
chain = record {
  genesis = 170;
  parent_of = λ hash. 170;
  height = λ hash. if hash == 170 then 5 else 6;
  data_of = λ hash. next_block;
  genesis_hash = refl;
  genesis_height = refl;
  undoes = λ state hash. refl;
}

pub hash_seen : (s : Snapshots) → snapshots.get_current_block_hash s ≡ first_of s.view.current
hash_seen s = elim (Option-cases s.view.current) [
  | inl e ↦ ground (arith, e)
  | inr ((h, x), e) ↦ ground (arith, e)
]

pub state_seen : (s : Snapshots) → snapshots.get_current_game_state s ≡ second_of s.view.current
state_seen s = elim (Option-cases s.view.current) [
  | inl e ↦ ground (arith, e)
  | inr ((h, x), e) ↦ ground (arith, e)
]

pub undo_seen :
    (hash : ℕ) (s : Snapshots) → snapshots.get_undo_data hash s ≡ second_of (s.view.undo_data hash)
undo_seen hash s = elim (Option-cases (s.view.undo_data hash)) [
  | inl e ↦ ground (arith, e)
  | inr ((h, x), e) ↦ ground (arith, e)
]

pub second_if :
    (b : Bool) (x y : Option (ℕ × String))
    → second_of (if b then x else y) ≡ (if b then second_of x else second_of y)
second_if true x y = refl
second_if false x y = refl

abbrev pub snapshots-IsStore : IsStore snapshots snapshots-IsTransactional
snapshots-IsStore = record {
  current = λ v. v.current;
  undo = λ v hash. second_of (v.undo_data hash);
  hash_seen = hash_seen;
  state_seen = state_seen;
  undo_seen = undo_seen;
  sets = λ hash state s o. (
    record s { view = record s.view { current = some (hash, state) } },
    (o, refl),
    inl (rw o refl, refl, λ k. refl),
  );
  adds = λ hash height value s o. (
    record s {
      view = record s.view {
        undo_data = λ k. if hash == k then some (height, value) else s.view.undo_data k;
      };
    },
    (o, refl),
    inl (rw o refl, refl, λ k. second_if (hash == k) (some (height, value)) (s.view.undo_data k)),
  );
  releases = λ hash s o. (
    record s {
      view = record s.view { undo_data = λ k. if hash == k then none else s.view.undo_data k };
    },
    (o, refl),
    inl (rw o refl, refl, λ k. second_if (hash == k) none (s.view.undo_data k)),
  );
  clears = λ s closed.
      let empty : Stored = record { current = none; undo_data = λ k. none } in
      (
        record { is_open = false; view = empty; durable = empty },
        rw closed refl,
        refl,
        refl,
        (λ k. refl),
        refl,
        λ k. refl,
      );
}

-- The sample storage never throws.
module _ (m n : TransactionManager (Cached setup)) where
  begin-ne-throw : begin (Cached setup) m ≢ Outcome.throw n
  unfolding begin
  begin-ne-throw h = elim (Option-cases m.storage) [
    | inl e ↦ ground (arith, e, h)
    | inr (c, e) ↦ ground (arith, e, h)
  ]

  commit-ne-throw : commit (Cached setup) m ≢ Outcome.throw n
  unfolding commit flush
  commit-ne-throw h = elim (Option-cases m.storage) [
    | inl e ↦ ground (arith, e, h)
    | inr (c, e) ↦ ground (arith, e, h)
  ]

Outcome-cases :
    {S : Type 0} (o : Outcome S)
    → ((s : S) × (o ≡ Outcome.done s)) ⊎ (((s : S) × (o ≡ Outcome.throw s)) ⊎ (o ≡ Outcome.abort))
Outcome-cases (Outcome.done s) = inl (s, refl)
Outcome-cases (Outcome.throw s) = inr (inl (s, refl))
Outcome-cases Outcome.abort = inr (inr refl)

never_throws :
    (g h : Game setup) (hash height : ℕ) (initial : String)
    → in_transaction setup
        (set_current_game_state_with_height snapshots setup.hash_to_height hash height initial)
        g
      ≢ throw h
unfolding active_transaction set_current_game_state_with_height
never_throws g h hash height initial e = elim (Outcome-cases (begin (Cached setup) g.manager)) [
  | inr (inl (n, b)) ↦ begin-ne-throw g.manager n b
  | inr (inr b) ↦ ground (arith, b, e)
  | inl (n, b) ↦ elim (Option-cases n.storage) [
    | inl s ↦ ground (arith, b, s, e)
    | inr (c, s) ↦ elim (Bool-cases c.storage.is_open) [
      | inr closed ↦ ground (arith, b, s, closed, e)
      | inl opened ↦
          let v : Snapshots = record c.storage {
            view = record c.storage.view { current = some (hash, initial) };
          } in
          let n' : TransactionManager (Cached setup) = record n {
            storage = some (record c { storage = v; has_height = true; cached_height = height });
          } in
          elim (Outcome-cases (commit (Cached setup) n')) [
            | inl (r, k) ↦ ground (arith, b, s, opened, k, e)
            | inr (inl (r, k)) ↦ commit-ne-throw n' r k
            | inr (inr k) ↦ ground (arith, b, s, opened, k, e)
          ]
    ]
  ]
]

calm : IsPatient setup chain snapshots-IsTransactional snapshots-IsStore 1
calm = record {
  patience = λ m. 0;
  wears = λ g h initial e. absurd (never_throws g h g.genesis_hash g.genesis_height initial e);
  enough = λ m. omega arith;
}

-- Xaya Core is at the next block.
abbrev pub daemon : Daemon sample_json
daemon = record {
  best_block_hash = "bb";
  blocks = 6;
  block_hash = λ height. "aa";
  send_updates = λ current. ("bb", "token");
  mempool = [];
}

daemon-IsAnswering : IsAnswering setup chain snapshots-IsTransactional snapshots-IsStore daemon
daemon-IsAnswering = record {
  best = 187;
  is_best = refl;
  target = λ current. (187, refl);
  at_genesis = refl;
}

abbrev pub at_block : ℕ → String → Stored
at_block hash state = record { current = some (hash, state); undo_data = λ k. none }

abbrev pub cached : CachedStorage snapshots setup.hash_to_height
cached = record {
  storage = record { is_open = false; view = at_block 170 "aa"; durable = at_block 170 "aa" };
  cross_check = false;
  cached_height = 0;
  has_height = false;
}

-- The driver is up to date at the genesis block.
abbrev pub game : Game setup
game = record {
  game_id = "n";
  state = State.up_to_date;
  genesis_height = 5;
  genesis_hash = 170;
  target_block_hash = 170;
  req_token = "";
  manager = record {
    storage = some cached;
    batch_size = 1;
    batched_commits = 0;
    in_transaction = false;
    commit_failed = false;
  };
  pending = none;
  pending_state_version = 1;
  transaction_batch_size = 1000;
  pruning_queue = none;
}

genesis-IsSound :
    IsSound setup chain snapshots-IsTransactional snapshots-IsStore (at_block 170 "aa")
genesis-IsSound = record {
  state_sound = λ hash state e.
      let same : (170, "aa") ≡ (hash, state) = cc (e) in
      subst (λ (p : ℕ × String). IsStateOf setup chain p.0 p.1) same
        (genesis-IsStateOf setup chain);
  undo_sound = λ hash undo e. absurd (cc (e));
}

game-IsReady : IsReady setup chain snapshots-IsTransactional snapshots-IsStore game cached
game-IsReady = record {
  synced = record {
    idle = record {
      stored = refl;
      idle = refl;
      good = refl;
      sized = record { room = omega arith; fits = omega arith };
      opened = refl;
    };
    view_sound = genesis-IsSound;
    durable_sound = genesis-IsSound;
    genesis = inr (refl, refl);
    batch = (omega arith, omega arith);
  };
  at_state = inr (inr refl, ((170, "aa"), refl));
  no_pruning = refl;
  no_pending = refl;
}

next-IsNotified : IsNotified setup chain 170 187 next_block
next-IsNotified = record {
  is_parent = refl;
  next_height = refl;
  same_forward = λ state. refl;
  same_backwards = λ state undo. refl;
  positive = omega arith;
}

block_attach-Follows_example :
    Follows setup chain snapshots-IsTransactional snapshots-IsStore
      (block_attach setup 1 daemon "n" next_block false game)
block_attach-Follows_example =
    block_attach-Follows setup chain snapshots-IsTransactional snapshots-IsStore game cached
      game-IsReady 170 187 next_block next-IsNotified daemon daemon-IsAnswering 1 calm "n" false
      refl refl refl

block_detach-Follows_example :
    Follows setup chain snapshots-IsTransactional snapshots-IsStore
      (block_detach setup 1 daemon "n" next_block false game)
block_detach-Follows_example =
    block_detach-Follows setup chain snapshots-IsTransactional snapshots-IsStore game cached
      game-IsReady 170 187 next_block next-IsNotified daemon daemon-IsAnswering 1 calm "n" false
      refl refl refl

reinitialise_state-IsReinitialised_example :
    IsReinitialised setup chain snapshots-IsTransactional snapshots-IsStore daemon
      (reinitialise_state setup 1 daemon game)
reinitialise_state-IsReinitialised_example =
    reinitialise_state-IsReinitialised setup chain snapshots-IsTransactional snapshots-IsStore
      daemon daemon-IsAnswering 1 calm game cached game-IsReady.synced (refl, refl)
