-- ===== src/Common/Text.antt =====
-- Texts as lists of code points, with the functions of Go's `strings` and `strconv` that the
-- program calls. Case folding and white space are those of ASCII, which is all that the keywords,
-- names and addresses compared here consist of.
use Prim.Native.Nat.{ℕ, zero, suc, ◌+◌, ◌-◌, ◌/◌, ◌%◌}
use Prim.Native.Char.{code}
use Prim.Native.String.{String}
use mathlib.Core.Path.{◌≡◌, refl, ap}
use mathlib.Core.Logic.{◌↔◌, inl, inr}
use mathlib.Core.Bool.{Bool, true, false, ◌&&◌, ◌||◌}
use mathlib.Core.Option.{Option, none, some}
use mathlib.Core.List.{List, [], ◌∷◌, ◌++◌, map, reverse}
use native.Mathlib.Omega.{arith}
use virtualis_agent.Common.Int.{ℤ, pos, negsuc}
use virtualis_agent.Common.Tests.{ltb, leb, ◌==◌, if◌then◌else◌, Bool-cases, by_option}
use virtualis_agent.Common.Lists.{length, length-append}

abbrev pub Text : Type 0
Text = List ℕ

-- A literal. It is shut, so that proofs do not compute with messages.
unfoldable pub text : String → Text
text String.[] = []
text (String.◌∷◌ c s) = code c ∷ text s

infix 50 ◌=ₜ◌
unfoldable pub ◌=ₜ◌ : Text → Text → Bool
[] =ₜ [] = true
[] =ₜ (y ∷ ys) = false
(x ∷ xs) =ₜ [] = false
(x ∷ xs) =ₜ (y ∷ ys) = x == y && xs =ₜ ys

pub eq_of_text_eq : (s t : Text) → (s =ₜ t) ≡ true → s ≡ t
unfolding ◌=ₜ◌
eq_of_text_eq [] [] h = refl
eq_of_text_eq [] (y ∷ ys) h = ground arith
eq_of_text_eq (x ∷ xs) [] h = ground arith
eq_of_text_eq (x ∷ xs) (y ∷ ys) h = ground (arith, eq_of_text_eq xs ys)

pub text_eq_refl : (s : Text) → (s =ₜ s) ≡ true
unfolding ◌=ₜ◌
text_eq_refl [] = refl
text_eq_refl (x ∷ xs) = ground (arith, text_eq_refl xs)

pub text_eq_iff : (s t : Text) → ((s =ₜ t) ≡ true) ↔ (s ≡ t)
text_eq_iff s t = (eq_of_text_eq s t, λ e. rw e (text_eq_refl t))

abbrev pub is_empty {ℓ} : {A : Type ℓ} → List A → Bool
is_empty [] = true
is_empty (x ∷ xs) = false

unfoldable pub lower : ℕ → ℕ
lower c = if leb b'A' c && leb c b'Z' then c + 32 else c

-- strings.ToLower
unfoldable pub to_lower : Text → Text
unfolding lower
to_lower s = map lower s

-- strings.ToUpper
unfoldable pub to_upper : Text → Text
to_upper s = map (λ c. if leb b'a' c && leb c b'z' then c - 32 else c) s

unfoldable pub is_space : ℕ → Bool
is_space c = c == 32 || (leb 9 c && leb c 13)

unfoldable pub trim_left : Text → Text
trim_left [] = []
trim_left (c ∷ s) = if is_space c then trim_left s else c ∷ s

-- strings.TrimSpace
unfoldable pub trim_space : Text → Text
unfolding trim_left is_space
trim_space s = reverse (trim_left (reverse (trim_left s)))

-- strings.ToLower(strings.TrimSpace(s))
unfoldable pub fold : Text → Text
unfolding to_lower trim_space
fold s = to_lower (trim_space s)

-- The comparison with a literal.
unfoldable pub is : Text → String → Bool
unfolding text ◌=ₜ◌
is s literal = s =ₜ text literal

-- strings.HasPrefix
unfoldable pub has_prefix : Text → Text → Bool
has_prefix s [] = true
has_prefix [] (p ∷ ps) = false
has_prefix (c ∷ s) (p ∷ ps) = c == p && has_prefix s ps

-- strings.CutSuffix, which is strings.HasSuffix with strings.TrimSuffix
unfoldable pub cut_suffix : Text → Text → Option Text
cut_suffix [] part = if is_empty part then some [] else none
cut_suffix (c ∷ s) part =
    let shorter = cut_suffix s part in
    if (c ∷ s) =ₜ part then some [] else by_option shorter none (λ rest. some (c ∷ rest))

longer_differs : (c : ℕ) (s part : Text) → ((c ∷ s ++ part) =ₜ part) ≡ false
longer_differs c s part = elim (Bool-cases ((c ∷ s ++ part) =ₜ part)) [
  | inl same ↦
      absurd
        (omega (arith, ap length (eq_of_text_eq (c ∷ s ++ part) part same), length-append s part))
  | inr different ↦ different
]

cut_suffix-same : (part : Text) → cut_suffix part part ≡ some []
unfolding cut_suffix
cut_suffix-same [] = refl
cut_suffix-same (c ∷ part) = rw (text_eq_refl (c ∷ part)) refl

pub cut_suffix-append : (s part : Text) → cut_suffix (s ++ part) part ≡ some s
unfolding cut_suffix
cut_suffix-append [] part = cut_suffix-same part
cut_suffix-append (c ∷ s) part = rw (longer_differs c s part, cut_suffix-append s part) refl

-- strings.Contains
unfoldable pub contains : Text → Text → Bool
unfolding has_prefix
contains [] part = is_empty part
contains (c ∷ s) part = has_prefix (c ∷ s) part || contains s part

-- The part of a text before the first separator, strings.Split(s, sep)[0].
unfoldable pub before : ℕ → Text → Text
before sep [] = []
before sep (c ∷ s) = if c == sep then [] else c ∷ before sep s

-- strings.Join
unfoldable pub join : Text → List Text → Text
join sep [] = []
join sep (s ∷ []) = s
join sep (s ∷ t ∷ ts) = s ++ sep ++ join sep (t ∷ ts)

extend_first : ℕ → List Text → List Text
extend_first c [] = (c ∷ []) ∷ []
extend_first c (part ∷ parts) = (c ∷ part) ∷ parts

-- strings.Split by one character
unfoldable pub split : ℕ → Text → List Text
unfolding extend_first
split sep [] = [] ∷ []
split sep (c ∷ s) = let rest = split sep s in if c == sep then [] ∷ rest else extend_first c rest

-- The words gathered so far come first; a word is kept in reverse until it ends.
fields_from : Text → Text → List Text
fields_from word [] = if is_empty word then [] else reverse word ∷ []
fields_from word (c ∷ s) =
    let ended = fields_from [] s in
    let longer = fields_from (c ∷ word) s in
    if is_space c then (if is_empty word then ended else reverse word ∷ ended) else longer

-- strings.Fields
unfoldable pub fields : Text → List Text
unfolding fields_from is_space
fields s = fields_from [] s

-- strconv.FormatUint(n, 10): the digits, by recursion on a bound for their number.
unfoldable pub digits_below : ℕ → ℕ → Text → Text
digits_below zero n acc = acc
digits_below (suc f) n acc =
    let rest = digits_below f (n / 10) ((b'0' + n % 10) ∷ acc) in
    if ltb n 10 then (b'0' + n) ∷ acc else rest

unfoldable pub decimal : ℕ → Text
unfolding digits_below
decimal n = digits_below (suc n) n []

-- strconv.Itoa
unfoldable pub itoa : ℤ → Text
unfolding decimal
itoa (pos n) = decimal n
itoa (negsuc n) = b'-' ∷ decimal (suc n)

text_runs :
    (fold (text "  NoNe ") ≡ text "none")
    × (decimal 1024 ≡ text "1024")
    × (before b'/' (text "10.0.0.5/24") ≡ text "10.0.0.5")
unfolding text fold decimal before
text_runs = (refl, refl, refl)
