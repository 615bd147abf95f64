-- ===== src/Base/Bits.antt =====
-- The binary digits of a machine word, and what `&` and `|` do to them.
use Prim.Native.Nat.{
  ℕ, zero, suc, ◌+◌, ◌*◌, ◌/◌, ◌%◌, ◌^◌, ◌≤◌, ◌<◌, min, max, digits, bit_and, bit_or,
  bit_and-bitwise, bit_or-bitwise,
}
use mathlib.Core.Path.{◌≡◌, refl, sym, ap, ◌∙◌}
use mathlib.Core.Logic.{◌↔◌}
use native.Mathlib.Nat.{pow-succ', div-div-eq-div-mul, div-add-mod', le_refl}
use native.Mathlib.Omega.{arith}

-- `(a >> i) % 2`
abbrev pub digit : ℕ → ℕ → ℕ
digit a i = a / 2 ^ i % 2

-- Both operations go by the lowest digit.
module _ (z : ℕ → ℕ) (f : ℕ → ℕ → ℕ) where
  more_fuel : (a b n m : ℕ) → a ≤ n → a ≤ m → digits z f n a b ≡ digits z f m a b
  more_fuel (suc a) b (suc n) (suc m) p q =
      omega (arith, more_fuel (suc a / 2) (b / 2) n m (omega arith) (omega arith))
  more_fuel (suc a) b zero m p q = absurd (omega arith)
  more_fuel (suc a) b (suc n) zero p q = absurd (omega arith)
  more_fuel zero b zero zero p q = refl
  more_fuel zero b zero (suc m) p q = refl
  more_fuel zero b (suc n) zero p q = refl
  more_fuel zero b (suc n) (suc m) p q = refl

  lowest :
      (a b : ℕ)
      → digits z f (suc a) (suc a) b
        ≡ f (suc a % 2) (b % 2) + 2 * digits z f (suc a / 2) (suc a / 2) (b / 2)
  lowest a b = omega (arith, more_fuel (suc a / 2) (b / 2) a (suc a / 2) (omega arith) (le_refl _))

bit_and-lowest : (b a : ℕ) → bit_and a b ≡ min (a % 2) (b % 2) + 2 * bit_and (a / 2) (b / 2)
bit_and-lowest b zero = simp bit_and-bitwise (omega arith)
bit_and-lowest b (suc a) = simp bit_and-bitwise (lowest (λ y. 0) min a b)

bit_or-lowest : (b a : ℕ) → bit_or a b ≡ max (a % 2) (b % 2) + 2 * bit_or (a / 2) (b / 2)
bit_or-lowest b zero = simp bit_or-bitwise (omega arith)
bit_or-lowest b (suc a) = simp bit_or-bitwise (lowest (λ y. y) max a b)

pub digit-suc : (a i : ℕ) → digit a (suc i) ≡ digit (a / 2) i
digit-suc a i =
    ap (λ (t : ℕ). t % 2)
      (ap (λ (t : ℕ). a / t) (pow-succ' 2 i) ∙ sym (div-div-eq-div-mul a 2 (2 ^ i)))

pub digit-bit_and : (i a b : ℕ) → digit (bit_and a b) i ≡ min (digit a i) (digit b i)
digit-bit_and zero a b = omega (arith, bit_and-lowest b a)
digit-bit_and (suc i) a b = omega (
  arith,
  digit-suc (bit_and a b) i,
  digit-suc a i,
  digit-suc b i,
  ap (λ (t : ℕ). digit t i) half,
  digit-bit_and i (a / 2) (b / 2),
)
  where
    half : bit_and a b / 2 ≡ bit_and (a / 2) (b / 2)
    half = omega (arith, bit_and-lowest b a)

-- Two words with the same digits are the same.
pub same_digits :
    (w a b : ℕ) → a < 2 ^ w → b < 2 ^ w → ((i : ℕ) → i < w → digit a i ≡ digit b i) → a ≡ b
same_digits zero a b p q same = omega arith
same_digits (suc w) a b p q same = omega (
  arith,
  same 0 (omega arith),
  same_digits w (a / 2) (b / 2) (omega (arith, pow-succ' 2 w)) (omega (arith, pow-succ' 2 w))
      (λ i lt. sym (digit-suc a i) ∙ same (suc i) (omega arith) ∙ digit-suc b i),
)

mod-double : (m a : ℕ) → a % (2 * m) ≡ a / 2 % m * 2 + a % 2
mod-double m a =
    grind (arith, div-add-mod' a (2 * m), div-add-mod' (a / 2) m, div-div-eq-div-mul a 2 m)

mod-two-pow : (i a : ℕ) → a % 2 ^ suc i ≡ a / 2 % 2 ^ i * 2 + a % 2
mod-two-pow i a = ap (λ (t : ℕ). a % t) (pow-succ' 2 i) ∙ mod-double (2 ^ i) a

-- One more digit of a word.
pub mod-two-pow-suc : (i a : ℕ) → a % 2 ^ suc i ≡ a % 2 ^ i + digit a i * 2 ^ i
mod-two-pow-suc zero a = omega arith
mod-two-pow-suc (suc i) a = omega (
  arith,
  mod-two-pow (suc i) a,
  mod-two-pow i a,
  mod-two-pow-suc i (a / 2),
  ap (λ (t : ℕ). t * 2 ^ suc i) (digit-suc a i),
  ap (λ (t : ℕ). digit (a / 2) i * t) (pow-succ' 2 i),
)

half : (k : ℕ) → 2 ^ suc k / 2 ≡ 2 ^ k
half k = omega (arith, pow-succ' 2 k)

-- A word below a power of two, and that power.
pub bit_and-top : (k r : ℕ) → r < 2 ^ k → bit_and r (2 ^ k) ≡ 0
bit_and-top zero r fits = ground (arith, bit_and-lowest 1 r)
bit_and-top (suc k) r fits = omega (
  arith,
  bit_and-lowest (2 ^ suc k) r,
  ap (λ (t : ℕ). bit_and (r / 2) t) (half k),
  pow-succ' 2 k,
  bit_and-top k (r / 2) (omega (arith, pow-succ' 2 k)),
)

pub bit_or-top : (k r : ℕ) → r < 2 ^ k → bit_or r (2 ^ k) ≡ r + 2 ^ k
bit_or-top zero r fits = ground (arith, bit_or-lowest 1 r)
bit_or-top (suc k) r fits = omega (
  arith,
  bit_or-lowest (2 ^ suc k) r,
  ap (λ (t : ℕ). bit_or (r / 2) t) (half k),
  pow-succ' 2 k,
  bit_or-top k (r / 2) (omega (arith, pow-succ' 2 k)),
)

bit_and-lt : (w a b : ℕ) → a < 2 ^ w → bit_and a b < 2 ^ w
bit_and-lt zero zero b fits = simp bit_and-bitwise (omega arith)
bit_and-lt zero (suc a) b fits = absurd (omega arith)
bit_and-lt (suc w) a b fits = omega (
  arith,
  bit_and-lowest b a,
  pow-succ' 2 w,
  bit_and-lt w (a / 2) (b / 2) (omega (arith, pow-succ' 2 w)),
)

-- When the digits that two words share are those of a third.
pub bit_and_iff :
    (w a b c : ℕ)
    → a < 2 ^ w
    → c < 2 ^ w
    → (bit_and a b ≡ c) ↔ ((i : ℕ) → i < w → min (digit a i) (digit b i) ≡ digit c i)
bit_and_iff w a b c p q = (
  (λ same i lt. sym (digit-bit_and i a b) ∙ ap (λ (t : ℕ). digit t i) same),
  (λ same.
      same_digits w (bit_and a b) c (bit_and-lt w a b p) q λ i lt. digit-bit_and i a b ∙ same i lt),
)
