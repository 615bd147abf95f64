-- ===== src/Base/Eq.antt =====
-- Equality tests as an interface. Hashes and indices are numbers; names and encoded data are texts.
use Prim.Native.Nat.{ℕ, compare, Ordering}
use Prim.Native.String.{String}
use mathlib.Core.Path.{◌≡◌, refl}
use mathlib.Core.Logic.{◌↔◌}
use mathlib.Core.Bool.{Bool, true, false}
use native.Mathlib.Omega.{arith}
use text.Mathlib.Text.{◌==◌ as str_eq}
use text.Mathlib.TextEquality.{eq_iff}

-- C++'s `operator==` on a type, which decides whether two values are equal.
pub record HasEquality {ℓ} (A : Type ℓ) : Type ℓ where
  pub same : A → A → Bool
  pub same_iff : (x y : A) → (same x y ≡ true) ↔ (x ≡ y)

instance abbrev pub text_equality : HasEquality String
text_equality = record { same = str_eq; same_iff = eq_iff }

abbrev pub same_number : ℕ → ℕ → Bool
same_number m n = elim (compare m n) [ Ordering.eq ↦ true | _ ↦ false ]

pub same_number_iff : (m n : ℕ) → (same_number m n ≡ true) ↔ (m ≡ n)
same_number_iff m n = ground arith

instance abbrev pub number_equality : HasEquality ℕ
number_equality = record { same_iff = same_number_iff; same = same_number }

infix 50 ◌==◌
abbrev pub ◌==◌ {ℓ} : {A : Type ℓ} → ⦃equality : HasEquality A⦄ → A → A → Bool
◌==◌ ⦃equality⦄ = equality.same

pub same_refl {ℓ} : {A : Type ℓ} ⦃equality : HasEquality A⦄ (x : A) → (x == x) ≡ true
same_refl ⦃equality⦄ x = (equality.same_iff x x).1 refl
