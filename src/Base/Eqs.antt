-- ===== src/Base/Eqs.antt =====
-- Types whose equality Go's `==` and map keys decide.
use Prim.Native.Nat.{ℕ}
use mathlib.Core.Path.{◌≡◌, refl}
use mathlib.Core.Logic.{◌↔◌, ◌≢◌}
use mathlib.Core.Bool.{Bool, true, false, ◌&&◌}
use mathlib.Core.List.{List, [], ◌∷◌}
use native.Mathlib.Omega.{arith}
use phylax.Base.Tests.{eqb, eqb_iff}

-- A type with Go's `==`: the test, and what its two results mean.
pub record Comparable {κ} (K : Type κ) : Type κ where
  pub equal : K → K → Bool
  pub equal_iff : (x y : K) → (equal x y ≡ true) ↔ (x ≡ y)

-- `abbrev`, so that the tests compute.
instance abbrev pub nat_eq : Comparable ℕ
nat_eq = record { equal_iff = eqb_iff; equal = eqb }

module _ {κ} {K : Type κ} ⦃e : Comparable K⦄ where
  infix 50 ◌==◌
  abbrev pub ◌==◌ : K → K → Bool
  x == y = e.equal x y

  pub ==_iff : (x y : K) → ((x == y) ≡ true) ↔ (x ≡ y)
  ==_iff x y = e.equal_iff x y

  pub ==_refl : (x : K) → (x == x) ≡ true
  ==_refl x = (e.equal_iff x x).1 refl

  pub ==_ne : (x y : K) → x ≢ y → (x == y) ≡ false
  ==_ne x y h = ground (arith, e.equal_iff x y)

-- Equality of texts, byte by byte.
unfoldable pub text_beq : List ℕ → List ℕ → Bool
text_beq [] [] = true
text_beq [] (y ∷ ys) = false
text_beq (x ∷ xs) [] = false
text_beq (x ∷ xs) (y ∷ ys) = eqb x y && text_beq xs ys

pub text_beq_iff : (a b : List ℕ) → (text_beq a b ≡ true) ↔ (a ≡ b)
unfolding text_beq
text_beq_iff [] [] = ground arith
text_beq_iff [] (y ∷ ys) = ground arith
text_beq_iff (x ∷ xs) [] = ground arith
text_beq_iff (x ∷ xs) (y ∷ ys) = ground (arith, text_beq_iff xs ys)

instance abbrev pub text_eq : Comparable (List ℕ)
text_eq = record { equal_iff = text_beq_iff; equal = text_beq }

pub text_ne : (a b : List ℕ) → text_beq a b ≡ false → b ≢ a
text_ne a b h e = ground (arith, text_beq_iff a b)
