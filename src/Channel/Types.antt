-- ===== src/Channel/Types.antt =====
-- The messages of gamechannel/proto/ and their version check (gamechannel/protoversion.cpp). A
-- `std::string` or `bytes` is the list of its bytes, a `uint256` a number.
use libxayagame.Base.Eq.{HasEquality, ◌==◌, number_equality}
use libxayagame.Base.{
  ◌⊎◌, inl, inr, ◌&&◌, ◌↔◌, arith, list_eq, list_beq_iff, ◌≡◌, refl, ℕ, Bool, true, false, ◌||◌,
  not, Option, none, some, List, [], ◌∷◌, if◌then◌else◌,
}

abbrev pub Bytes : Type 0
Bytes = List ℕ

pub record Participant : Type 0 where
  pub name : Bytes
  pub address : Bytes

pub record Metadata : Type 0 where
  pub participants : List Participant
  pub reinit : Bytes
  pub custom : Bytes

-- `MessageDifferencer::Equals`
abbrev pub participant_beq : Participant → Participant → Bool
participant_beq p q = p.name == q.name && p.address == q.address

pub participant_beq_iff : (p q : Participant) → (participant_beq p q ≡ true) ↔ (p ≡ q)
participant_beq_iff p q =
    ground (arith, list_beq_iff p.name q.name, list_beq_iff p.address q.address)

instance abbrev pub participant_eq : HasEquality Participant
participant_eq = record { same = participant_beq; same_iff = participant_beq_iff }

abbrev pub metadata_beq : Metadata → Metadata → Bool
metadata_beq a b =
    a.participants == b.participants && (a.reinit == b.reinit && a.custom == b.custom)

pub metadata_beq_iff : (a b : Metadata) → (metadata_beq a b ≡ true) ↔ (a ≡ b)
metadata_beq_iff a b = ground (
  arith,
  list_beq_iff a.participants b.participants,
  list_beq_iff a.reinit b.reinit,
  list_beq_iff a.custom b.custom,
)

instance abbrev pub metadata_eq : HasEquality Metadata
metadata_eq = record { same = metadata_beq; same_iff = metadata_beq_iff }

-- `unknown` stands for what reflection finds: whether the message has unknown fields.
pub record SignedData : Type 0 where
  pub payload : Bytes
  pub signatures : List Bytes
  pub for_testing_version : Option Bytes
  pub unknown : Bool

pub record StateTransition : Type 0 where
  pub move : Bytes
  pub new_state : SignedData
  pub unknown : Bool

pub record StateProof : Type 0 where
  pub initial_state : SignedData
  pub transitions : List StateTransition
  pub unknown : Bool

-- A step that may fail a CHECK (`abort`), return false (`reject`), or return true with a value.
pub data Verdict {ℓ} (A : Type ℓ) : Type ℓ where
  accept : A → Verdict A
  reject : Verdict A
  abort : Verdict A

infixl 5 ◌>>=◌ ◌>>◌
abbrev pub ◌>>=◌ {ℓ κ} : {A : Type ℓ} {B : Type κ} → Verdict A → (A → Verdict B) → Verdict B
accept a >>= f = f a
reject >>= f = reject
abort >>= f = abort

abbrev pub ◌>>◌ {ℓ} : {B : Type ℓ} → Verdict (Unit {0}) → Verdict B → Verdict B
m >> k = m >>= λ _. k

abbrev pub or_reject {ℓ} : {A : Type ℓ} → Option A → Verdict A
or_reject none = reject
or_reject (some a) = accept a

abbrev pub or_abort {ℓ} : {A : Type ℓ} → Option A → Verdict A
or_abort none = abort
or_abort (some a) = accept a

abbrev pub require : Bool → Verdict (Unit {0})
require b = if b then accept tt else reject

-- The only version that there is.
pub data ProtoVersion : Type 0 where
  original : ProtoVersion

unfoldable pub check_signed_version : ProtoVersion → SignedData → Bool
check_signed_version original msg = elim msg.for_testing_version [ none ↦ true | some _ ↦ false ]

unfoldable pub check_transitions_version : ProtoVersion → List StateTransition → Bool
check_transitions_version v [] = true
check_transitions_version v (t ∷ ts) =
    if not (check_signed_version v t.new_state) then false else check_transitions_version v ts

unfoldable pub check_proof_version : ProtoVersion → StateProof → Bool
unfolding check_signed_version check_transitions_version
check_proof_version v msg =
    if not (check_signed_version v msg.initial_state)
    then false
    else check_transitions_version v msg.transitions

abbrev pub any_unknown : List StateTransition → Bool
any_unknown [] = false
any_unknown (t ∷ ts) = if t.unknown || t.new_state.unknown then true else any_unknown ts

-- `HasAnyUnknownFields` at a state proof: the message's own, then those of the nested messages.
unfoldable pub has_any_unknown_fields : StateProof → Bool
has_any_unknown_fields msg =
    if msg.unknown
    then true
    else if msg.initial_state.unknown
    then true
    else any_unknown msg.transitions

unfoldable pub check_versioned_proto : ProtoVersion → StateProof → Bool
unfolding has_any_unknown_fields check_proof_version
check_versioned_proto expected msg =
    if has_any_unknown_fields msg
    then false
    else if not (check_proof_version expected msg)
    then false
    else true

-- Inversion of a step that is accepted.
pub >>=-eq-accept {ℓ κ} :
    {A : Type ℓ} {B : Type κ} (m : Verdict A) (f : A → Verdict B) {b : B}
    → (m >>= f) ≡ accept b
    → (a : A) × (m ≡ accept a) × (f a ≡ accept b)
>>=-eq-accept (accept a) f h = (a, refl, h)
>>=-eq-accept reject f h = cc
>>=-eq-accept abort f h = cc

pub or_abort-eq {ℓ} : {A : Type ℓ} (o : Option A) {a : A} → or_abort o ≡ accept a → o ≡ some a
or_abort-eq none h = cc
or_abort-eq (some a) h = cc

pub or_reject-eq {ℓ} : {A : Type ℓ} (o : Option A) {a : A} → or_reject o ≡ accept a → o ≡ some a
or_reject-eq none h = cc
or_reject-eq (some a) h = cc

pub Verdict-cases {ℓ} :
    {A : Type ℓ} (m : Verdict A) → ((a : A) × (m ≡ accept a)) ⊎ ((m ≡ reject) ⊎ (m ≡ abort))
Verdict-cases (accept a) = inl (a, refl)
Verdict-cases reject = inr (inl refl)
Verdict-cases abort = inr (inr refl)
