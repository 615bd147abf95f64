-- ===== src/Channel/Signatures.antt =====
-- gamechannel/signatures.cpp, with `VerifyMessage` of xayagame/signatures.cpp.
pub mod Sets
use libxayagame.Base.{
  ℕ, suc, ◌+◌, Bool, true, false, Option, none, some, List, [], ◌∷◌, ◌++◌, map, contains, length,
  ltb, if◌then◌else◌,
}
use libxayagame.Base.Eq.{◌==◌, number_equality}
use libxayagame.Base.{list_eq}
use libxayagame.Channel.Types.{
  Bytes, Participant, Metadata, SignedData, Verdict, accept, reject, abort, ◌>>=◌, ◌>>◌, or_reject,
  or_abort,
}
use libxayagame.Channel.Rules.{Services}

-- "invalid"
abbrev pub invalid : Bytes
invalid = 105 ∷ 110 ∷ 118 ∷ 97 ∷ 108 ∷ 105 ∷ 100 ∷ []

-- "state"
abbrev pub state_topic : Bytes
state_topic = 115 ∷ 116 ∷ 97 ∷ 116 ∷ 101 ∷ []

-- A `std::set<int>` is the ascending list of its elements.
unfoldable pub set_insert : ℕ → List ℕ → List ℕ
set_insert i [] = i ∷ []
set_insert i (j ∷ js) =
    if ltb i j then i ∷ j ∷ js else if i == j then j ∷ js else j ∷ set_insert i js

-- `insert (begin, end)`
unfoldable pub set_union : List ℕ → List ℕ → List ℕ
unfolding set_insert
set_union [] s = s
set_union (i ∷ is) s = set_union is (set_insert i s)

-- The loop over the participants, from the index `i` on.
abbrev pub indices_of : ℕ → List Participant → List Bytes → List ℕ
indices_of i [] addresses = []
indices_of i (p ∷ ps) addresses =
    let rest = indices_of (i + 1) ps addresses in
    if contains p.address addresses then i ∷ rest else rest

abbrev pub participant : ℕ → List Participant → Option Participant
participant i [] = none
participant i (p ∷ ps) = elim i [ ℕ.zero ↦ some p | suc j ↦ participant j ps ]

module _ (sv : Services) where
  open sv use {sha256_hex, uint256_blob, encode_base64, decode_base64, verifymessage, signmessage}

  unfoldable pub verify_message : Bytes → Bytes → Bytes
  verify_message msg sgn = elim (verifymessage msg sgn) [ none ↦ invalid | some address ↦ address ]

  -- What is hashed into the message that is signed.
  abbrev pub signed_text : ℕ → Metadata → Bytes → Bytes → Bytes
  signed_text channel_id meta topic text =
      uint256_blob channel_id
      ++ (encode_base64 meta.reinit ++ ((0 ∷ []) ++ (topic ++ ((0 ∷ []) ++ text))))

  unfoldable pub get_channel_signature_message : ℕ → Metadata → Bytes → Bytes → Verdict Bytes
  get_channel_signature_message channel_id meta topic text =
      if contains 0 topic
      then abort
      else accept (sha256_hex (signed_text channel_id meta topic text))

  -- The addresses whose signatures on the message are valid.
  abbrev pub signers : Bytes → List Bytes → List Bytes
  signers msg [] = []
  signers msg (sgn ∷ sgns) = verify_message msg (encode_base64 sgn) ∷ signers msg sgns

  unfoldable pub verify_participant_signatures :
      ℕ → Metadata → Bytes → SignedData → Verdict (List ℕ)
  unfolding verify_message get_channel_signature_message
  verify_participant_signatures channel_id meta topic msg_data = do
    msg ← get_channel_signature_message channel_id meta topic msg_data.payload
    accept (indices_of 0 meta.participants (signers msg msg_data.signatures))

  -- The data with one more signature.
  unfoldable pub sign_data_for_participant :
      ℕ → Metadata → Bytes → ℕ → SignedData → Verdict SignedData
  unfolding get_channel_signature_message
  sign_data_for_participant channel_id meta topic index msg_data = do
    p ← or_abort (participant index meta.participants)
    msg ← get_channel_signature_message channel_id meta topic msg_data.payload
    sgn ← or_reject (signmessage p.address msg)
    raw ← or_abort (decode_base64 sgn)
    accept (record msg_data { signatures = msg_data.signatures ++ raw ∷ [] })
