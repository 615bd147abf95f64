-- ===== src/Channel/Signatures/Sets.antt =====
-- The sets of participants that gamechannel/signatures.cpp computes.
use libxayagame.Base.{
  ℕ, zero, suc, ◌+◌, ◌≤◌, ◌<◌, ◌≡◌, refl, inl, inr, Bool, true, false, ◌||◌, none, some, List, [],
  ◌∷◌, contains, length, ltb, if◌then◌else◌, arith, Bool-cases,
}
use libxayagame.Base.Eq.{◌==◌, number_equality}
use libxayagame.Base.{list_eq}
use libxayagame.Channel.Types.{Bytes, Participant}
use libxayagame.Channel.Signatures.{set_insert, set_union, indices_of, participant}

pub contains-set_insert :
    (i j : ℕ) (s : List ℕ) → contains i (set_insert j s) ≡ (if j == i then true else contains i s)
unfolding set_insert
contains-set_insert i j [] = refl
contains-set_insert i j (k ∷ s) = ground (arith, contains-set_insert i j s)

pub contains-set_union :
    (i : ℕ) (a b : List ℕ) → contains i (set_union a b) ≡ (contains i a || contains i b)
unfolding set_union
contains-set_union i [] b = refl
contains-set_union i (j ∷ a) b =
    ground (arith, contains-set_union i a (set_insert j b), contains-set_insert i j b)

-- Ascending elements from `lo` on and below `hi`.
abbrev pub Ascending : ℕ → ℕ → List ℕ → Type 0
Ascending lo hi [] = lo ≤ hi
Ascending lo hi (i ∷ s) = (lo ≤ i) × (i < hi) × Ascending (suc i) hi s

Ascending-weaken : (lo k hi : ℕ) (s : List ℕ) → Ascending k hi s → lo ≤ k → Ascending lo hi s
Ascending-weaken lo k hi [] a h = omega arith
Ascending-weaken lo k hi (i ∷ s) a h = (omega arith, a.1, a.2)

set_insert-Ascending :
    (i lo hi : ℕ) (s : List ℕ)
    → Ascending lo hi s
    → lo ≤ i
    → i < hi
    → Ascending lo hi (set_insert i s)
unfolding set_insert
set_insert-Ascending i lo hi [] a h k = (h, k, omega arith)
set_insert-Ascending i lo hi (j ∷ s) a h k =
    ground (arith, set_insert-Ascending i (suc j) hi s a.2, a)

pub length-Ascending : (lo hi : ℕ) (s : List ℕ) → Ascending lo hi s → lo + length s ≤ hi
length-Ascending lo hi [] a = omega arith
length-Ascending lo hi (i ∷ s) a = omega (arith, length-Ascending (suc i) hi s a.2, a.0, a.1)

-- A full set has every index.
pub contains_of_full :
    (lo hi j : ℕ) (s : List ℕ)
    → Ascending lo hi s
    → lo + length s ≡ hi
    → lo ≤ j
    → j < hi
    → contains j s ≡ true
contains_of_full lo hi j [] a e h k = absurd (omega arith)
contains_of_full lo hi j (i ∷ s) a e h k =
    let first : i ≡ lo = omega (arith, length-Ascending (suc i) hi s a.2, a.0, a.1) in
    ground (arith, first, contains_of_full (suc i) hi j s a.2)

pub contains-lt :
    (lo hi j : ℕ) (s : List ℕ) → Ascending lo hi s → contains j s ≡ true → (lo ≤ j) × (j < hi)
contains-lt lo hi j [] a h = cc
contains-lt lo hi j (i ∷ s) a h = ground (arith, contains-lt (suc i) hi j s a.2, a)

pub set_union-Ascending :
    (lo hi : ℕ) (a b : List ℕ)
    → Ascending lo hi a
    → Ascending lo hi b
    → Ascending lo hi (set_union a b)
unfolding set_union
set_union-Ascending lo hi [] b ha hb = hb
set_union-Ascending lo hi (i ∷ a) b ha hb =
    set_union-Ascending lo hi a (set_insert i b)
      (Ascending-weaken lo (suc i) hi a ha.2 (omega arith))
      (set_insert-Ascending i lo hi b hb ha.0 ha.1)

-- Whether the address of the participant of an index is among the addresses.
abbrev pub is_signer : ℕ → List Participant → List Bytes → Bool
is_signer i ps addresses = elim (participant i ps) [
  | none ↦ false
  | some p ↦ contains p.address addresses
]

pub indices_of-Ascending :
    (k hi : ℕ) (ps : List Participant) (addresses : List Bytes)
    → k + length ps ≡ hi
    → Ascending k hi (indices_of k ps addresses)
indices_of-Ascending k hi [] addresses e = omega arith
indices_of-Ascending k hi (p ∷ ps) addresses e =
    let rest = indices_of-Ascending (k + 1) hi ps addresses (omega arith) in
    elim (Bool-cases (contains p.address addresses)) [
      | inl hit ↦ rw hit (
        omega arith,
        omega arith,
        Ascending-weaken (suc k) (k + 1) hi (indices_of (k + 1) ps addresses) rest (omega arith),
      )
      | inr miss ↦
          rw miss
            (Ascending-weaken k (k + 1) hi (indices_of (k + 1) ps addresses) rest (omega arith))
    ]

contains-indices_of_lt :
    (k i : ℕ) (ps : List Participant) (addresses : List Bytes)
    → i < k
    → contains i (indices_of k ps addresses) ≡ false
contains-indices_of_lt k i ps addresses h =
    elim (Bool-cases (contains i (indices_of k ps addresses))) [
      | inl e ↦ absurd (
          omega (
            arith,
            contains-lt k (k + length ps) i (indices_of k ps addresses)
                (indices_of-Ascending k (k + length ps) ps addresses refl) e,
          ))
      | inr e ↦ e
    ]

pub contains-indices_of :
    (k i j : ℕ) (ps : List Participant) (addresses : List Bytes)
    → k + i ≡ j
    → contains j (indices_of k ps addresses) ≡ is_signer i ps addresses
contains-indices_of k i j [] addresses e = refl
contains-indices_of k zero j (p ∷ ps) addresses e =
    ground (arith, e, contains-indices_of_lt (k + 1) j ps addresses)
contains-indices_of k (suc i) j (p ∷ ps) addresses e =
    ground (arith, e, contains-indices_of (k + 1) i j ps addresses)

-- A set that has every index is full.
pub length_of_all :
    (lo hi : ℕ) (s : List ℕ)
    → Ascending lo hi s
    → ((j : ℕ) → lo ≤ j → j < hi → contains j s ≡ true)
    → lo + length s ≡ hi
length_of_all lo hi [] a h = elim (Bool-cases (ltb lo hi)) [
  | inl e ↦ absurd (ground (arith, e, h lo))
  | inr e ↦ ground (arith, e, a)
]
length_of_all lo hi (i ∷ s) a h =
    let first : i ≡ lo = ground (arith, h lo, contains-lt (suc i) hi lo s a.2, a) in
    omega (arith, first, length_of_all (suc i) hi s a.2 (λ j l u. ground (arith, h j, first, a)))
