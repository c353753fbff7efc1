-- ===== src/Command/Tables.antt =====
-- The tables that a flag's value names.
use phylax.Base.{
  ℕ, ◌<◌, true, false, Text, All, All-append, List, [], ◌∷◌, ◌++◌, append_assoc, append-nil, ◌≡◌,
  ◌≢◌, refl, sym, ◌∙◌, ap, subst, arith,
}
use phylax.Command.{
  comma, split, is_blank, first_space, last_space, trim_by, backwards, trim_space, named,
  split_tables,
}

-- Only the white space of ASCII.
abbrev pub IsBlank : Text → Type 0
IsBlank = All (λ c. is_blank c ≡ true)

-- Of ASCII, and no white space.
abbrev pub IsPlain : ℕ → Type 0
IsPlain c = (c < 128) × (is_blank c ≡ false)

abbrev pub Starts : Text → Type 0
Starts [] = Unit
Starts (c ∷ cs) = IsPlain c

abbrev pub NoComma : Text → Type 0
NoComma = All (λ c. c ≢ comma)

-- A name, or nothing, between two commas, with the white space around it.
pub record Entry : Type 0 where
  pub left : Text
  pub name : Text
  pub right : Text

pub record IsEntry (e : Entry) : Type 0 where
  pub left_blank : IsBlank e.left
  pub right_blank : IsBlank e.right
  pub no_comma : NoComma e.name
  pub first : Starts e.name
  pub last : Starts (backwards e.name)

abbrev pub whole : Entry → Text
whole e = e.left ++ (e.name ++ e.right)

abbrev pub joined : List Entry → Text
joined [] = []
joined (e ∷ []) = whole e
joined (e ∷ f ∷ es) = whole e ++ comma ∷ joined (f ∷ es)

abbrev pub with_name : Text → List Text → List Text
with_name [] names = names
with_name (c ∷ cs) names = (c ∷ cs) ∷ names

abbrev pub names_of : List Entry → List Text
names_of [] = []
names_of (e ∷ es) = with_name e.name (names_of es)

split-part : (part rest : Text) → NoComma part → split (part ++ comma ∷ rest) ≡ part ∷ split rest
unfolding split
split-part [] rest h = refl
split-part (c ∷ cs) rest h = ground (arith, split-part cs rest)

split-last : (part : Text) → NoComma part → split part ≡ part ∷ []
unfolding split
split-last [] h = refl
split-last (c ∷ cs) h = ground (arith, split-last cs)

backwards-append : (xs ys : Text) → backwards (xs ++ ys) ≡ backwards ys ++ backwards xs
unfolding backwards
backwards-append [] ys = sym (append-nil (backwards ys))
backwards-append (c ∷ cs) ys =
    ap (λ t. t ++ c ∷ []) (backwards-append cs ys)
    ∙ append_assoc (backwards ys) (backwards cs) (c ∷ [])

backwards_twice : (text : Text) → backwards (backwards text) ≡ text
unfolding backwards
backwards_twice [] = refl
backwards_twice (c ∷ cs) =
    backwards-append (backwards cs) (c ∷ []) ∙ ap (λ t. c ∷ t) (backwards_twice cs)

backwards-IsBlank : (text : Text) → IsBlank text → IsBlank (backwards text)
unfolding backwards
backwards-IsBlank [] h = tt
backwards-IsBlank (c ∷ cs) h =
    All-append (λ c. is_blank c ≡ true) (backwards cs) (c ∷ []) (backwards-IsBlank cs h.1) (h.0, tt)

first_space-blank : (c : ℕ) (cs : Text) → is_blank c ≡ true → first_space (c ∷ cs) ≡ 1
first_space-blank c [] h = rw h refl
first_space-blank c (d ∷ []) h = rw h refl
first_space-blank c (d ∷ e ∷ cs) h = rw h refl

last_space-blank : (c : ℕ) (cs : Text) → is_blank c ≡ true → last_space (c ∷ cs) ≡ 1
last_space-blank c [] h = rw h refl
last_space-blank c (d ∷ []) h = rw h refl
last_space-blank c (d ∷ e ∷ cs) h = rw h refl

first_space-plain : (c : ℕ) (cs : Text) → IsPlain c → first_space (c ∷ cs) ≡ 0
first_space-plain c [] h = rw h.1 refl
first_space-plain c (d ∷ []) h = rw h.1 (ground (arith, h.0))
first_space-plain c (d ∷ e ∷ cs) h = rw h.1 (ground (arith, h.0))

last_space-plain : (c : ℕ) (cs : Text) → IsPlain c → last_space (c ∷ cs) ≡ 0
last_space-plain c [] h = rw h.1 refl
last_space-plain c (d ∷ []) h = rw h.1 (ground (arith, h.0))
last_space-plain c (d ∷ e ∷ cs) h = rw h.1 (ground (arith, h.0))

module _ (space : Text → ℕ) (blank : (c : ℕ) (cs : Text) → is_blank c ≡ true → space (c ∷ cs) ≡ 1)
    (plain : (c : ℕ) (cs : Text) → IsPlain c → space (c ∷ cs) ≡ 0) where
  trim_by-lem :
      (left text : Text) → IsBlank left → Starts text → trim_by space 0 (left ++ text) ≡ text
  unfolding trim_by
  trim_by-lem [] [] h k = refl
  trim_by-lem [] (c ∷ cs) h k = rw (plain c cs k) refl
  trim_by-lem (c ∷ cs) text h k = rw (blank c (cs ++ text) h.0) (trim_by-lem cs text h.1 k)

trim_space-name :
    (c : ℕ) (cs left right : Text)
    → IsBlank left
    → IsBlank right
    → IsPlain c
    → Starts (backwards (c ∷ cs))
    → trim_space (left ++ (c ∷ cs ++ right)) ≡ c ∷ cs
unfolding trim_space
trim_space-name c cs left right l r first last =
    rw
      (
        trim_by-lem first_space first_space-blank first_space-plain left (c ∷ cs ++ right) l first,
        backwards-append (c ∷ cs) right,
        trim_by-lem last_space last_space-blank last_space-plain (backwards right)
            (backwards (c ∷ cs)) (backwards-IsBlank right r) last,
      )
      (backwards_twice (c ∷ cs))

trim_space-blank : (text : Text) → IsBlank text → trim_space text ≡ []
unfolding trim_space trim_by backwards
trim_space-blank text h =
    let trimmed = trim_by-lem first_space first_space-blank first_space-plain text [] h tt in
    rw (subst (λ t. trim_by first_space 0 t ≡ []) (append-nil text) trimmed) refl

named-whole :
    (e : Entry) (parts : List Text)
    → IsEntry e
    → named (whole e ∷ parts) ≡ with_name e.name (named parts)
unfolding named
named-whole e parts h = by_name e.name refl
  where
    by_name :
        (name : Text) → e.name ≡ name → named (whole e ∷ parts) ≡ with_name e.name (named parts)
    by_name [] q =
        rw
          (
            q,
            named,
            trim_space-blank (e.left ++ e.right)
                (All-append (λ c. is_blank c ≡ true) e.left e.right h.left_blank h.right_blank),
          )
          refl
    by_name (c ∷ cs) q =
        rw
          (
            q,
            named,
            trim_space-name c cs e.left e.right h.left_blank h.right_blank (subst Starts q h.first)
                (subst (λ n. Starts (backwards n)) q h.last),
          )
          refl

NoComma-blank : (text : Text) → IsBlank text → NoComma text
NoComma-blank [] h = tt
NoComma-blank (c ∷ cs) h = (λ e. absurd (ground (arith, h.0, e)), NoComma-blank cs h.1)

NoComma-whole : (e : Entry) → IsEntry e → NoComma (whole e)
NoComma-whole e h =
    let no = λ (c : ℕ). c ≢ comma in
    All-append no e.left (e.name ++ e.right) (NoComma-blank e.left h.left_blank)
      (All-append no e.name e.right h.no_comma (NoComma-blank e.right h.right_blank))

-- Of names, joined by commas, with any white space of ASCII around each, splitTables returns the
-- names in their order, without those that are empty. No name has a comma, and each that is not
-- empty starts and ends with a character of ASCII that is no white space.
pub split_tables-joined :
    (es : List Entry) → All IsEntry es → split_tables (joined es) ≡ names_of es
unfolding split_tables
split_tables-joined [] h = unfold split named trim_space trim_by backwards in refl
split_tables-joined (e ∷ []) h =
    rw (split-last (whole e) (NoComma-whole e h.0), named-whole e [] h.0) (unfold named in refl)
split_tables-joined (e ∷ f ∷ es) h =
    rw (split-part (whole e) (joined (f ∷ es)) (NoComma-whole e h.0)) (
      named-whole e (split (joined (f ∷ es))) h.0
      ∙ ap (with_name e.name) (split_tables-joined (f ∷ es) h.1))
