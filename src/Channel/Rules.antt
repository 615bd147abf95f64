-- ===== src/Channel/Rules.antt =====
-- What a channel game implements (gamechannel/boardrules.hpp), and the services outside the
-- repository: the Xaya Core RPC calls, SHA-256 and base64.
use libxayagame.Base.{length, ◌<◌, ℕ, ◌≡◌, Bool, true, Option, some}
use libxayagame.Channel.Types.{Bytes, Metadata, ProtoVersion}

-- `ParsedBoardState` and `BoardRules`. `NO_TURN` is `none`; a failed move is `none`.
pub record BoardRules : Type 1 where
  pub Parsed : Type 0
  pub parse_state : ℕ → Metadata → Bytes → Option Parsed
  pub proto_version : Metadata → ProtoVersion
  pub equals : Parsed → Bytes → Bool
  pub whose_turn : Parsed → Option ℕ
  pub turn_count : Parsed → ℕ
  pub apply_move : Parsed → Bytes → Option Bytes

-- Parsed states that are equivalent to the same encoded states.
abbrev pub Same : (r : BoardRules) → r.Parsed → r.Parsed → Type 0
Same r p q = (s : Bytes) → r.equals p s ≡ r.equals q s

-- A state parsed in the context of the channel and its metadata.
abbrev pub IsParsed : (r : BoardRules) → ℕ → Metadata → r.Parsed → Type 0
IsParsed r id meta p = (s : Bytes) × (r.parse_state id meta s ≡ some p)

-- What boardrules.hpp documents: a state is equivalent to what it was parsed from; what is
-- equivalent to a state parses to a state that behaves alike; a turn is an index of a participant;
-- a move leads to a valid state.
pub record IsBoardRules (r : BoardRules) (id : ℕ) (meta : Metadata) : Type 0 where
  pub parsed_equals :
      (s : Bytes) (p : r.Parsed) → r.parse_state id meta s ≡ some p → r.equals p s ≡ true
  pub equals_parses :
      (p : r.Parsed) (s : Bytes)
      → IsParsed r id meta p
      → r.equals p s ≡ true
      → (q : r.Parsed) × (r.parse_state id meta s ≡ some q) × Same r p q
  pub turn_in_range :
      (p : r.Parsed) (i : ℕ)
      → IsParsed r id meta p
      → r.whose_turn p ≡ some i
      → i < length meta.participants
  pub same_turn :
      (p q : r.Parsed)
      → IsParsed r id meta p
      → IsParsed r id meta q
      → Same r p q
      → r.whose_turn p ≡ r.whose_turn q
  pub applied_parses :
      (p : r.Parsed) (mv s : Bytes)
      → IsParsed r id meta p
      → r.apply_move p mv ≡ some s
      → (q : r.Parsed) × (r.parse_state id meta s ≡ some q)
  pub same_apply :
      (p q p' : r.Parsed) (mv s : Bytes)
      → IsParsed r id meta p
      → IsParsed r id meta q
      → Same r p q
      → r.apply_move p mv ≡ some s
      → r.parse_state id meta s ≡ some p'
      → (t : Bytes) × (q' : r.Parsed) × (r.apply_move q mv ≡ some t)
        × (r.parse_state id meta t ≡ some q')
        × Same r p' q'

-- `signmessage` fails with an exception where it is `none`; `verifymessage` answers with the
-- address if the signature is valid.
pub record Services : Type 0 where
  pub sha256_hex : Bytes → Bytes
  pub uint256_blob : ℕ → Bytes
  pub encode_base64 : Bytes → Bytes
  pub decode_base64 : Bytes → Option Bytes
  pub verifymessage : Bytes → Bytes → Option Bytes
  pub signmessage : Bytes → Bytes → Option Bytes

-- A signature that the wallet makes decodes, and is valid for its address.
abbrev pub SignsValidly : Services → Type 0
SignsValidly s =
    (addr msg sgn : Bytes)
    → s.signmessage addr msg ≡ some sgn
    → (raw : Bytes) × (s.decode_base64 sgn ≡ some raw)
      × (s.verifymessage msg (s.encode_base64 raw) ≡ some addr)
