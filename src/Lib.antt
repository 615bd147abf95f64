-- ===== src/Lib.antt =====
-- libxayagame: models of the C++ library for Xaya games and of the games that come with it.
--
-- The program follows a blockchain. A game (mover/, nonfungible/, ships/) is a function from a
-- state and a block's moves to a new state and undo data. xayagame/ drives it along the chain: it
-- attaches and detaches blocks, stores states, prunes undo data and batches the storage's
-- transactions. gamechannel/ lets the players of one match exchange signed states off-chain: a
-- state proof shows the latest agreed state, the rolling state keeps the best known state, and
-- board rules say what a game's states and moves are.
--
-- Files:
-- - Base and its children: names of the library that all modules use, tests on numbers, lists,
--   equality as an instance (Base.Eq), maps as association lists (Base.Map), the digits of machine
--   words (Base.Bits), integers (Base.Int), and as parameters the parts of jsoncpp (Base.Json) and
--   of protocol buffers (Base.Codec) that the code calls.
-- - Samples: a JSON library and codecs to run the models with.
-- - Engine.Storage: the interface of xayagame/storage.hpp. Engine.Memory: `MemoryStorage` of
--   xayagame/storage.cpp.
-- - Engine.Transactions: xayagame/transactionmanager.cpp. `begin`, `commit`, `rollback`,
--   `try_abort` and `flush` are the manager's `BeginTransaction` and so on, and
--   `active_transaction` a block with an `ActiveTransaction`. Invariant has the states of the
--   manager and what storage.hpp says of transactions, Scopes the blocks, Recent and History
--   sequences of uses.
-- - Engine.Pruning: xayagame/pruningqueue.cpp, with Kept, Bodies, Attach and Detach about what is
--   pruned and Exact about which blocks stay. Engine.HeightCache: xayagame/heightcache.cpp, with
--   Correct about the cached height. Engine.SampleStorage: a storage with transactions to run the
--   models with.
-- - Engine.PendingMoves: xayagame/pendingmoves.cpp. A game's processor is the interface
--   `PendingGame`; Rebuilt is about `Reset`, Queue about the block queue and the three callbacks.
-- - Engine.Game: xayagame/game.cpp. Attach has `UpdateStateForAttach` and `UpdateStateForDetach`,
--   Sync `ReinitialiseState` and `SyncFromCurrentState`, Handlers the callbacks for attached
--   blocks, detached blocks and pending moves. Chain says what the state of a block is, Store what
--   the storage does; Updates and its children are about single blocks, Ready what holds between
--   notifications, CaughtUp and Synced are about reinitialising, Follows about the callbacks,
--   Escapes about an exception.
-- - Mover.Moves: mover/moves.cpp and mover/proto/mover.proto. `parse_move` is `ParseMove`;
--   `get_direction_offset`, `direction_to_string` and `parse_direction` carry the names of their
--   functions. Mover.Accepted describes the moves.
-- - Mover.Logic: mover/logic.cpp. `process_forward` and `process_backwards` are
--   `ProcessForwardInternal` and `ProcessBackwardsInternal`; `forward` and `backwards` are what
--   they do between parsing and serialising. Mover.Logic.Moved, Stepped and Restored say what the
--   loops do to each name, Valid what valid states and moves are, Mover.Logic.RoundTrip and
--   Mover.Logic.Blocks that undoing takes back, Mover.Logic.Repeated what happens with two moves of
--   one name.
-- - Channel.Types: the messages of gamechannel/proto and gamechannel/protoversion.cpp. `Verdict` is
--   the outcome of a function that may return false (`reject`) or fail a CHECK (`abort`).
-- - Channel.Rules: gamechannel/boardrules.hpp as the interface `BoardRules` with its laws, and the
--   RPC calls, SHA-256 and base64 as `Services`.
-- - Channel.Signatures: gamechannel/signatures.cpp and xayagame/signatures.cpp. A set of indices is
--   an ascending list.
-- - Channel.StateProof: gamechannel/stateproof.cpp. Channel.StateProof.Proofs describes valid
--   proofs, without the algorithm, and Valid is about checking them; Chains, Trailing, Extension
--   and Extend are about `ExtendStateProof`; Checks is about the CHECKs.
-- - Channel.RollingState: gamechannel/rollingstate.cpp. Consistent has the invariant, Moves and
--   OnChain (with Updated) the two updates, Current the current state.
-- - Channel.Manager: gamechannel/channelmanager.cpp. `apply_local_move` is `ApplyLocalMove`;
--   Environment is the interface to the game (gamechannel/openchannel.hpp) and to the senders,
--   AutoMoves the loop of automoves, Updates the handlers of blocks, off-chain states and local
--   moves, Requests what a user asks for. LocalMove and Applied are about local moves,
--   AutoMoves.Ends about the end of the loop, Updates.Resolves about resolutions, Requests.Disputes
--   about disputes, and Events puts the calls together. Channel.StateProof.Versions: the version of
--   extended proofs, Channel.StateProof.Signing when a proof can be extended.
-- - Ships.Coord: ships/coord.cpp, with Index about the indices of coordinates. Ships.Grid: the bit
--   vectors of ships/grid.cpp; Digits is about single cells, Text about reading and writing, Bounds
--   about reading any text, Counts about `CountOnes`, Answers about `VerifyPositionForAnswers`.
--   Ships.Placement: `VerifyPositionOfShips`, with Returns about its loops, Lines about single
--   ships, Scanned about the loop over the cells, Straight and Separate about accepted positions.
-- - Channel.SampleGame: a game that counts, to run the channel models with.
--
-- Numbers are natural numbers, and a coordinate of the ships board is an integer, next to the board
-- at most. The 32-bit coordinates of the Mover game are bit patterns that wrap at 2 ^ 32. A turn
-- count is a C++ `unsigned`, but the models do not bound it: the code only compares turn counts.
-- Loops are recursions on the list that they go over, but for four. The loop of `CountOnes` has a
-- round for each of the 64 bits, and a walk along a ship one for each cell of a side and one more,
-- at which it has left the board. The loop that stores the initial state has fuel, and a storage
-- that throws only so often in a row needs no more. The loop of the automoves has fuel: turn counts
-- grow with the moves, so that a bound on the turn counts of a game, such as that of their type, is
-- enough. The version counter of the channel manager is an `int`: the model stops where it
-- overflows. A failed CHECK, or a LOG (FATAL), is a value (`Option.none` or `abort`), so that a
-- theorem can say that it does not happen. An exception is an outcome that carries the state in
-- which it leaves the objects.
--
-- Not modelled: the rest of the three games, setting up, starting, stopping and querying the driver
-- in xayagame/game.cpp, the framework for games around it, the locks and waits of the channel
-- manager, logging, the RPC servers and clients, the storage back ends on SQLite and LMDB, ZMQ, and
-- the generated code. That the objects of a parsed state refer to metadata that outlives them is
-- not modelled either, nor is the initial state of the Mover game.
pub mod Base
pub mod Channel
pub mod Engine
pub mod Mover
pub mod Samples
pub mod Ships
