-- ===== src/Outbox/Numbers.antt =====
-- strconv.ParseInt(s, 10, 64), as outbox.go reads row ids with it.
use phylax.Base.{
  ℕ, suc, ◌+◌, ◌-◌, ◌*◌, ◌<◌, ◌^◌, eqb, Bool, true, false, Text, AllDigits, read_from, read_from-ge,
  read-print_ℕ, print_ℕ, print_ℕ-AllDigits, print_ℕ-ne-nil, word_mod, [], ◌∷◌, Res, ok, err, panic,
  ◌>>=◌, >>=-ne-panic, ℤ, pos, negsuc, ◌≡◌, ◌≢◌, refl, ◌∙◌, ap, inl, inr, Bool-cases, arith,
}
use phylax.Outbox.{parse_digits, parse_uint, parse_int, in_int64}

parse_digits_lem :
    (n : ℕ) (cs : Text)
    → AllDigits cs
    → read_from n cs < word_mod
    → parse_digits n cs ≡ ok (read_from n cs)
unfolding parse_digits read_from
parse_digits_lem n [] d h = refl
parse_digits_lem n (c ∷ cs) d h =
    let ih = parse_digits_lem (n * 10 + (c - b'0')) cs d.1 h in
    ground (arith, ih, read_from-ge (n * 10 + (c - b'0')) cs)

-- A signed integer in decimal, as PostgreSQL prints it.
unfoldable pub print_ℤ : ℤ → Text
print_ℤ (pos n) = print_ℕ n
print_ℤ (negsuc n) = b'-' ∷ print_ℕ (suc n)

-- The range of int64.
abbrev pub InInt64 : ℤ → Type 0
InInt64 (pos n) = n < 2 ^ 63
InInt64 (negsuc n) = n < 2 ^ 63

parse_uint_lem :
    (cs : Text)
    → AllDigits cs
    → cs ≢ []
    → read_from 0 cs < word_mod
    → parse_uint cs ≡ ok (read_from 0 cs)
unfolding parse_uint
parse_uint_lem [] d ne h = absurd (ne refl)
parse_uint_lem (c ∷ cs) d ne h = parse_digits_lem 0 (c ∷ cs) d h

parse_int_digits :
    (cs : Text) → AllDigits cs → cs ≢ [] → parse_int cs ≡ (parse_uint cs >>= in_int64 false)
unfolding parse_int
parse_int_digits [] d ne = absurd (ne refl)
parse_int_digits (c ∷ cs) d ne = ground (arith, d.0)

parse_uint-print_ℕ : (n : ℕ) → n < word_mod → parse_uint (print_ℕ n) ≡ ok n
parse_uint-print_ℕ n h =
    parse_uint_lem (print_ℕ n) (print_ℕ-AllDigits n) (print_ℕ-ne-nil n)
      (omega (arith, read-print_ℕ n))
    ∙ ap ok (read-print_ℕ n)

parse_int_negative : (cs : Text) → parse_int (b'-' ∷ cs) ≡ (parse_uint cs >>= in_int64 true)
unfolding parse_int
parse_int_negative cs = refl

-- Every int64 is read back from its decimal print.
pub parse_int-print_ℤ : (z : ℤ) → InInt64 z → parse_int (print_ℤ z) ≡ ok z
unfolding print_ℤ
parse_int-print_ℤ (pos n) h =
    parse_int_digits (print_ℕ n) (print_ℕ-AllDigits n) (print_ℕ-ne-nil n)
    ∙ rw (parse_uint-print_ℕ n (omega arith)) (ground arith)
parse_int-print_ℤ (negsuc n) h =
    parse_int_negative (print_ℕ (suc n))
    ∙ rw (parse_uint-print_ℕ (suc n) (omega arith)) (ground arith)

in_int64-InInt64 : (negative : Bool) (n : ℕ) {z : ℤ} → in_int64 negative n ≡ ok z → InInt64 z
in_int64-InInt64 negative n {z = pos m} h = ground arith
in_int64-InInt64 negative n {z = negsuc m} h = ground arith

bind-InInt64 : (negative : Bool) (r : Res ℕ) {z : ℤ} → (r >>= in_int64 negative) ≡ ok z → InInt64 z
bind-InInt64 negative (ok n) h = in_int64-InInt64 negative n h
bind-InInt64 negative (err e) h = absurd (cc)
bind-InInt64 negative panic h = absurd (cc)

-- What is read is an int64.
pub parse_int-InInt64 : (t : Text) {z : ℤ} → parse_int t ≡ ok z → InInt64 z
unfolding parse_int
parse_int-InInt64 [] h = absurd (cc)
parse_int-InInt64 (c ∷ cs) h = elim (Bool-cases (eqb c b'-')) [
  | inl minus ↦ bind-InInt64 true (parse_uint cs) (rw minus at h)
  | inr other ↦ elim (Bool-cases (eqb c b'+')) [
    | inl plus ↦ bind-InInt64 false (parse_uint cs) (rw (other, plus) at h)
    | inr none_ ↦ bind-InInt64 false (parse_uint (c ∷ cs)) (rw (other, none_) at h)
  ]
]

parse_digits-ne-panic : (n : ℕ) (cs : Text) → parse_digits n cs ≢ panic
unfolding parse_digits
parse_digits-ne-panic n [] h = cc
parse_digits-ne-panic n (c ∷ cs) h = ground (arith, parse_digits-ne-panic (n * 10 + (c - b'0')) cs)

parse_uint-ne-panic : (cs : Text) → parse_uint cs ≢ panic
unfolding parse_uint
parse_uint-ne-panic [] h = cc
parse_uint-ne-panic (c ∷ cs) h = parse_digits-ne-panic 0 (c ∷ cs) h

in_int64-ne-panic : (negative : Bool) (n : ℕ) → in_int64 negative n ≢ panic
in_int64-ne-panic negative n h = ground arith

pub parse_int-ne-panic : (t : Text) → parse_int t ≢ panic
unfolding parse_int
parse_int-ne-panic [] h = cc
parse_int-ne-panic (c ∷ cs) h = ground (
  arith,
  >>=-ne-panic (parse_uint cs) (in_int64 true) (parse_uint-ne-panic cs) (in_int64-ne-panic true),
  >>=-ne-panic (parse_uint cs) (in_int64 false) (parse_uint-ne-panic cs) (in_int64-ne-panic false),
  >>=-ne-panic (parse_uint (c ∷ cs)) (in_int64 false) (parse_uint-ne-panic (c ∷ cs))
      (in_int64-ne-panic false),
)
