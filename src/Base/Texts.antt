-- ===== src/Base/Texts.antt =====
-- A Go string is the list of its bytes; the decimal print of a number (`%d`, strconv).
use Prim.Native.Char.{code}
use Prim.Native.String.{String}
use Prim.Native.Nat.{ℕ, zero, suc, ◌+◌, ◌-◌, ◌*◌, ◌/◌, ◌%◌, ◌<◌, ◌≤◌}
use mathlib.Core.Path.{◌≡◌, refl, sym, ap, ◌∙◌}
use mathlib.Core.List.{List, [], ◌∷◌, ◌++◌}
use native.Mathlib.Omega.{arith}
use mathlib.Core.Logic.{◌≢◌, inl, inr}
use phylax.Base.Tests.{ltb, ltb→lt, Bool-cases, if◌then◌else◌}

abbrev pub Text : Type 0
Text = List ℕ

-- The bytes of an ASCII literal.
abbrev pub codes : String → Text
codes String.[] = []
codes (String.◌∷◌ c s) = code c ∷ codes s

-- The digits of n, most significant first, given fuel above n.
print_fuel : ℕ → ℕ → Text
print_fuel zero n = []
print_fuel (suc f) n =
    let rest = print_fuel f (n / 10) in
    if ltb n 10 then (b'0' + n) ∷ [] else rest ++ (b'0' + n % 10) ∷ []

unfoldable pub print_ℕ : ℕ → Text
unfolding print_fuel
print_ℕ n = print_fuel (suc n) n

-- The value of a text of digits, read from the left.
unfoldable pub read_from : ℕ → Text → ℕ
read_from acc [] = acc
read_from acc (c ∷ cs) = read_from (acc * 10 + (c - b'0')) cs

read_from-append :
    (acc : ℕ) (xs : Text) (c : ℕ)
    → read_from acc (xs ++ c ∷ []) ≡ read_from acc xs * 10 + (c - b'0')
unfolding read_from
read_from-append acc [] c = refl
read_from-append acc (x ∷ xs) c = read_from-append (acc * 10 + (x - b'0')) xs c

read-print_fuel : (f n : ℕ) → n < f → read_from 0 (print_fuel f n) ≡ n
unfolding print_fuel read_from
read-print_fuel zero n h = elim h [ ]
read-print_fuel (suc f) n h =
    ground (
      arith,
      read-print_fuel f (n / 10),
      read_from-append 0 (print_fuel f (n / 10)) (b'0' + n % 10),
    )

-- Different numbers have different prints.
pub print_ℕ-injective : (m n : ℕ) → print_ℕ m ≡ print_ℕ n → m ≡ n
unfolding print_ℕ
print_ℕ-injective m n e =
    sym (read-print_fuel (suc m) m (omega arith))
    ∙ ap (read_from 0) e
    ∙ read-print_fuel (suc n) n (omega arith)

pub append-cancel_left : (xs : Text) {ys zs : Text} → xs ++ ys ≡ xs ++ zs → ys ≡ zs
append-cancel_left [] e = e
append-cancel_left (x ∷ xs) e = append-cancel_left xs (cc)

-- Every byte is a digit.
abbrev pub AllDigits : Text → Type 0
AllDigits [] = Unit {0}
AllDigits (c ∷ cs) = ((b'0' ≤ c) × (c ≤ b'9')) × AllDigits cs

AllDigits-append : (xs ys : Text) → AllDigits xs → AllDigits ys → AllDigits (xs ++ ys)
AllDigits-append [] ys hx hy = hy
AllDigits-append (x ∷ xs) ys hx hy = (hx.0, AllDigits-append xs ys hx.1 hy)

print_fuel-AllDigits : (f n : ℕ) → AllDigits (print_fuel f n)
unfolding print_fuel
print_fuel-AllDigits zero n = tt
print_fuel-AllDigits (suc f) n = elim (Bool-cases (ltb n 10)) [
  | inl low ↦ rw low ((omega arith, omega (arith, ltb→lt n 10 low)), tt)
  | inr high ↦ rw high (
      AllDigits-append (print_fuel f (n / 10)) ((b'0' + n % 10) ∷ [])
        (print_fuel-AllDigits f (n / 10)) ((omega arith, omega arith), tt))
]

pub print_ℕ-AllDigits : (n : ℕ) → AllDigits (print_ℕ n)
unfolding print_ℕ
print_ℕ-AllDigits n = print_fuel-AllDigits (suc n) n

pub read-print_ℕ : (n : ℕ) → read_from 0 (print_ℕ n) ≡ n
unfolding print_ℕ
read-print_ℕ n = read-print_fuel (suc n) n (omega arith)

append-ne-nil : (xs : Text) (c : ℕ) → xs ++ c ∷ [] ≢ []
append-ne-nil [] c e = cc
append-ne-nil (x ∷ xs) c e = cc

pub print_ℕ-ne-nil : (n : ℕ) → print_ℕ n ≢ []
unfolding print_ℕ
print_ℕ-ne-nil n e = elim (Bool-cases (ltb n 10)) [
  | inl low ↦ ground (arith, low)
  | inr high ↦ append-ne-nil (print_fuel n (n / 10)) (b'0' + n % 10) (ground (arith, high))
]

pub read_from-ge : (acc : ℕ) (cs : Text) → acc ≤ read_from acc cs
unfolding read_from
read_from-ge acc [] = omega arith
read_from-ge acc (c ∷ cs) = omega (arith, read_from-ge (acc * 10 + (c - b'0')) cs)
