-- ===== src/Channel/Manager/Environment.antt =====
-- What the channel manager (gamechannel/channelmanager.cpp) calls: the game's `OpenChannel`
-- (gamechannel/openchannel.hpp), the `MoveSender` and the `OffChainBroadcast`. Their state and that
-- of the nodes that they talk to is a world.
use libxayagame.Base.{ℕ, Bool, Option, none, some, ◌≡◌, refl, ◌⊎◌, inl, inr, if◌then◌else◌}
use libxayagame.Channel.Types.{Bytes, Metadata, StateProof, Verdict, accept, reject, abort}
use libxayagame.Channel.Rules.{BoardRules, Services, IsParsed}
use libxayagame.Channel.Manager.{ChannelManager}

-- The handlers return, fail a CHECK, or run out of the fuel that the loop of the automoves has.
pub data Run {ℓ} (A : Type ℓ) : Type ℓ where
  returns : A → Run A
  aborts : Run A
  unfinished : Run A

infixl 5 ◌>>=◌ ◌>>◌
abbrev pub ◌>>=◌ {ℓ κ} : {A : Type ℓ} {B : Type κ} → Run A → (A → Run B) → Run B
returns a >>= f = f a
aborts >>= f = aborts
unfinished >>= f = unfinished

abbrev pub ◌>>◌ {ℓ} : {B : Type ℓ} → Run (Unit {0}) → Run B → Run B
m >> k = m >>= λ _. k

-- A CHECK, and one on a function that returns a `bool`.
abbrev pub assert : Bool → Run (Unit {0})
assert b = if b then returns tt else aborts

abbrev pub checked {ℓ} : {A : Type ℓ} → Verdict A → Run A
checked (accept a) = returns a
checked reject = aborts
checked abort = aborts

abbrev pub required {ℓ} : {A : Type ℓ} → Option A → Run A
required none = aborts
required (some a) = returns a

pub Run-cases {ℓ} :
    {A : Type ℓ} (m : Run A) → ((a : A) × (m ≡ returns a)) ⊎ ((m ≡ aborts) ⊎ (m ≡ unfinished))
Run-cases (returns a) = inl (a, refl)
Run-cases aborts = inr (inl refl)
Run-cases unfinished = inr (inr refl)

-- The virtual functions, each as a change of the world. A null transaction id is 0.
pub record Environment (rules : BoardRules) : Type 1 where
  pub World : Type 0
  pub maybe_auto_move : World → rules.Parsed → Option Bytes × World
  pub maybe_on_chain_move : World → rules.Parsed → World
  pub send_resolution : World → StateProof → ℕ × World
  pub send_dispute : World → StateProof → ℕ × World
  pub is_pending : World → ℕ → Bool
  pub send_new_state : World → Bytes → StateProof → World
  pub set_participants : World → Metadata → World

-- The game's automoves are valid moves.
abbrev pub ProposesMoves : (rules : BoardRules) → ℕ → Environment rules → Type 0
ProposesMoves rules channel_id env =
    (meta : Metadata) (w w' : env.World) (p : rules.Parsed) (mv : Bytes)
    → IsParsed rules channel_id meta p
    → env.maybe_auto_move w p ≡ (some mv, w')
    → (s : Bytes) × (rules.apply_move p mv ≡ some s)

module _ (rules : BoardRules) (sv : Services) (channel_id : ℕ) (env : Environment rules) where
  -- The manager and the world around it.
  pub record Session : Type 0 where
    pub manager : ChannelManager rules sv channel_id
    pub world : env.World
