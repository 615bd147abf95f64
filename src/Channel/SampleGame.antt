-- ===== src/Channel/SampleGame.antt =====
-- A game and services to run the channel models with. A state is a byte that counts up to 255; the
-- players take turns by its remainder, and a signature is the address.
use libxayagame.Base.{
  ℕ, zero, suc, ◌+◌, ◌%◌, ◌<◌, ◌≡◌, refl, sym, ◌∙◌, ap, Bool, ◌&&◌, Option, none, some, [], ◌∷◌,
  length, ltb, if◌then◌else◌, list_eq, list_beq_iff, arith, Bool-cases, inl, inr,
}
use libxayagame.Base.Eq.{◌==◌, number_equality, same_refl}
use libxayagame.Channel.Types.{Bytes, Metadata, original}
use libxayagame.Channel.Manager.LocalMove.{TurnsIncrease}
use libxayagame.Channel.Manager.Environment.{Environment, ProposesMoves}
use libxayagame.Channel.StateProof.Signing.{Signs}
use libxayagame.Channel.Rules.{BoardRules, IsBoardRules, IsParsed, Services, SignsValidly, Same}

-- The count and the number of players.
abbrev Counter : Type 0
Counter = ℕ × ℕ

abbrev parse_counter : ℕ → Metadata → Bytes → Option Counter
parse_counter id meta [] = none
parse_counter id meta (n ∷ []) = if ltb n 256 then some (n, length meta.participants) else none
parse_counter id meta (n ∷ m ∷ s) = none

abbrev counter_turn : Counter → Option ℕ
counter_turn (n, zero) = none
counter_turn (n, suc k) = some (n % suc k)

abbrev counter_equals : Counter → Bytes → Bool
counter_equals p s = s == p.0 ∷ []

abbrev apply_step : Counter → Bytes → Option Bytes
apply_step p [] = none
apply_step p (m ∷ []) = if ltb 0 m && ltb (p.0 + m) 256 then some ((p.0 + m) ∷ []) else none
apply_step p (m ∷ n ∷ s) = none

abbrev pub counting : BoardRules
counting = record {
  Parsed = Counter;
  parse_state = parse_counter;
  proto_version = λ meta. original;
  equals = counter_equals;
  whose_turn = counter_turn;
  turn_count = λ p. p.0;
  apply_move = apply_step;
}

parsed_shape :
    (id : ℕ) (meta : Metadata) (s : Bytes) (p : Counter)
    → parse_counter id meta s ≡ some p
    → (s ≡ p.0 ∷ []) × (p.1 ≡ length meta.participants) × (p.0 < 256)
parsed_shape id meta [] p h = cc
parsed_shape id meta (n ∷ []) p h = ground (arith, h)
parsed_shape id meta (n ∷ m ∷ s) p h = cc

Same-count : (p q : Counter) → Same counting p q → p.0 ≡ q.0
Same-count p q same =
    ground (arith, list_beq_iff (p.0 ∷ []) (q.0 ∷ []), same (p.0 ∷ []), same_refl (p.0 ∷ []))

turn_lt : (n k i : ℕ) → counter_turn (n, k) ≡ some i → i < k
turn_lt n zero i h = cc
turn_lt n (suc k) i h = let e : n % suc k ≡ i = ground (arith, h) in omega arith

applied_shape :
    (p : Counter) (mv s : Bytes) (id : ℕ) (meta : Metadata)
    → apply_step p mv ≡ some s
    → (q : Counter) × (parse_counter id meta s ≡ some q)
applied_shape p [] s id meta h = cc
applied_shape p (m ∷ []) s id meta h =
    let is_next : (p.0 + m) ∷ [] ≡ s = ground (arith, h) in
    let small : p.0 + m < 256 = ground (arith, h) in
    ((p.0 + m, length meta.participants), rw (← is_next) (ground (arith, small)))
applied_shape p (m ∷ n ∷ t) s id meta h = cc

turn_same : (p q : Counter) → p.0 ≡ q.0 → p.1 ≡ q.1 → counter_turn p ≡ counter_turn q
turn_same p q e f = ap counter_turn (λ i. (e i, f i))

apply_same :
    (p q : Counter) (mv s : Bytes) → p.0 ≡ q.0 → apply_step p mv ≡ some s → apply_step q mv ≡ some s
apply_same p q [] s e h = h
apply_same p q (m ∷ []) s e h = rw (← e) h
apply_same p q (m ∷ n ∷ t) s e h = h

pub counting-IsBoardRules : (id : ℕ) (meta : Metadata) → IsBoardRules counting id meta
counting-IsBoardRules id meta = record {
  parsed_equals = λ s p h. (list_beq_iff s (p.0 ∷ [])).1 (parsed_shape id meta s p h).0;
  equals_parses = λ p s pp h. (
    (p.0, length meta.participants),
    rw ((list_beq_iff s (p.0 ∷ [])).0 h) (ground (arith, (parsed_shape id meta pp.0 p pp.1).2)),
    λ t. refl,
  );
  turn_in_range = λ p i pp h. rw (← (parsed_shape id meta pp.0 p pp.1).1) (turn_lt p.0 p.1 i h);
  same_turn = λ p q pp qq same.
      turn_same p q (Same-count p q same)
        ((parsed_shape id meta pp.0 p pp.1).1 ∙ sym (parsed_shape id meta qq.0 q qq.1).1);
  applied_parses = λ p mv s pp h. applied_shape p mv s id meta h;
  same_apply = λ p q p' mv s pp qq same h k.
      (s, p', apply_same p q mv s (Same-count p q same) h, k, λ t. refl);
}

abbrev pub services : Services
services = record {
  sha256_hex = λ s. s;
  uint256_blob = λ n. n ∷ [];
  encode_base64 = λ s. s;
  decode_base64 = λ s. some s;
  verifymessage = λ msg sgn. some sgn;
  signmessage = λ addr msg. some addr;
}

pub services-SignsValidly : SignsValidly services
services-SignsValidly addr msg sgn h = (sgn, refl, sym h)

grows :
    (p q : Counter) (mv s : Bytes) (id : ℕ) (meta : Metadata)
    → apply_step p mv ≡ some s
    → parse_counter id meta s ≡ some q
    → p.0 < q.0
grows p q [] s id meta h k = cc
grows p q (m ∷ []) s id meta h k =
    let shape : s ≡ q.0 ∷ [] = (parsed_shape id meta s q k).0 in
    let sum : (p.0 + m) ∷ [] ≡ s = ground (arith, h) in
    let positive : 0 < m = ground (arith, h) in ground (arith, sum ∙ shape, positive)
grows p q (m ∷ n ∷ t) s id meta h k = cc

pub counting-TurnsIncrease : (id : ℕ) → TurnsIncrease counting id
counting-TurnsIncrease id meta p q mv s pp h k = grows p q mv s id meta h k

-- A count is a byte.
pub turn_count-lt :
    (id : ℕ) (meta : Metadata) (p : Counter)
    → IsParsed counting id meta p
    → counting.turn_count p < 256
turn_count-lt id meta p pp = (parsed_shape id meta pp.0 p pp.1).2

pub services-Signs : Signs services
services-Signs addr msg = (addr, refl)

-- A game that proposes a step as often as its world says. The world counts the transactions too.
abbrev propose : ℕ × ℕ → Counter → Option Bytes × (ℕ × ℕ)
propose (zero, txs) p = (none, (zero, txs))
propose (suc n, txs) p = if ltb (p.0 + 1) 256 then (some (1 ∷ []), (n, txs)) else (none, (n, txs))

abbrev pub counting_environment : Environment counting
counting_environment = record {
  World = ℕ × ℕ;
  maybe_auto_move = propose;
  maybe_on_chain_move = λ w p. w;
  send_resolution = λ w proof. (w.1 + 1, (w.0, w.1 + 1));
  send_dispute = λ w proof. (w.1 + 1, (w.0, w.1 + 1));
  is_pending = λ w txid. ltb 0 txid;
  send_new_state = λ w id proof. w;
  set_participants = λ w meta. w;
}

pub counting_environment-ProposesMoves : (id : ℕ) → ProposesMoves counting id counting_environment
counting_environment-ProposesMoves id meta (zero, txs) w' p mv pp h = cc
counting_environment-ProposesMoves id meta (suc n, txs) w' p mv pp h =
    elim (Bool-cases (ltb (p.0 + 1) 256)) [
      | inl e ↦
          let is_step : 1 ∷ [] ≡ mv = ground (arith, e, h) in
          ((p.0 + 1) ∷ [], rw (← is_step) (ground (arith, e)))
      | inr e ↦ ground (arith, e, h)
    ]
