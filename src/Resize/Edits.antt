-- ===== src/Resize/Edits.antt =====
-- applyXMLEdits of internal/driver/resize.go: replacements in a text, each by its offsets in the text
-- before all of them.
use virtualis_agent.Common.{
  ℕ, zero, suc, ◌≤◌, ◌<◌, Bool, true, ◌&&◌, not, List, [], ◌∷◌, ◌++◌, Option, none, some,
  if◌then◌else◌, ltb, leb, ◌≡◌, refl, sym, ap, ◌∙◌, ◌⊎◌, arith, by_option, length, length-append,
  take, drop,
}
use virtualis_agent.Common.Sorting.{sort_by}
use virtualis_agent.Common.Text.{Text}

pub record XmlEdit : Type 0 where
  pub start : ℕ
  pub end : ℕ
  pub text : Text

-- raw[:start] + text + raw[end:]; `none` where a slice is out of its bounds.
unfoldable pub apply_edit : Text → XmlEdit → Option Text
apply_edit raw e =
    if leb e.start (length raw) && leb e.end (length raw)
    then some (take e.start raw ++ (e.text ++ drop e.end raw))
    else none

unfoldable pub apply_each : Text → List XmlEdit → Option Text
unfolding apply_edit
apply_each raw [] = some raw
apply_each raw (e ∷ edits) = by_option (apply_edit raw e) none (λ next. apply_each next edits)

-- The later edit in the text stands first.
unfoldable pub later_first : XmlEdit → XmlEdit → Bool
later_first a b = not (ltb a.start b.start)

unfoldable pub apply_xml_edits : Text → List XmlEdit → Option Text
unfolding apply_each later_first
apply_xml_edits raw edits = apply_each raw (sort_by later_first edits)

-- What the edits mean, the last of the text first: every piece that stays, and every offset, is of
-- the text before all of them.
unfoldable pub substituted : Text → List XmlEdit → Text
substituted raw [] = raw
substituted raw (e ∷ edits) = substituted (take e.start raw) edits ++ (e.text ++ drop e.end raw)

-- One edit ends where the other begins, or before.
abbrev pub Before : XmlEdit → XmlEdit → Type 0
Before a b = (a.end ≤ b.start) × (a.start < b.start)

pub data Apart (e : XmlEdit) : List XmlEdit → Type 0 where
  alone : Apart e []
  apart :
      {d : XmlEdit} {edits : List XmlEdit}
      → Before e d ⊎ Before d e
      → Apart e edits
      → Apart e (d ∷ edits)

-- Edits of a text of that length that do not overlap.
pub data Disjoint (bound : ℕ) : List XmlEdit → Type 0 where
  no_edit : Disjoint bound []
  one_more :
      {e : XmlEdit} {edits : List XmlEdit}
      → e.start ≤ e.end
      → e.end ≤ bound
      → Apart e edits
      → Disjoint bound edits
      → Disjoint bound (e ∷ edits)

-- The order in which they are applied.
pub data Descending : ℕ → List XmlEdit → Type 0 where
  nothing : {bound : ℕ} → Descending bound []
  next :
      {bound : ℕ} {e : XmlEdit} {edits : List XmlEdit}
      → e.start ≤ e.end
      → e.end ≤ bound
      → Descending e.start edits
      → Descending bound (e ∷ edits)

take-append : (n : ℕ) (xs ys : Text) → n ≤ length xs → take n (xs ++ ys) ≡ take n xs
take-append zero xs ys h = refl
take-append (suc n) [] ys h = absurd (omega arith)
take-append (suc n) (x ∷ xs) ys h = ap (λ s. x ∷ s) (take-append n xs ys (omega arith))

drop-append : (n : ℕ) (xs ys : Text) → n ≤ length xs → drop n (xs ++ ys) ≡ drop n xs ++ ys
drop-append zero xs ys h = refl
drop-append (suc n) [] ys h = absurd (omega arith)
drop-append (suc n) (x ∷ xs) ys h = drop-append n xs ys (omega arith)

length-take : (n : ℕ) (xs : Text) → n ≤ length xs → length (take n xs) ≡ n
length-take zero xs h = refl
length-take (suc n) [] h = absurd (omega arith)
length-take (suc n) (x ∷ xs) h = ap suc (length-take n xs (omega arith))

append_assoc : (xs ys zs : Text) → (xs ++ ys) ++ zs ≡ xs ++ (ys ++ zs)
append_assoc [] ys zs = refl
append_assoc (x ∷ xs) ys zs = ap (λ s. x ∷ s) (append_assoc xs ys zs)

pub append_nil : (xs : Text) → xs ++ [] ≡ xs
append_nil [] = refl
append_nil (x ∷ xs) = ap (λ s. x ∷ s) (append_nil xs)

apply_edit-append :
    (xs ys : Text) (e : XmlEdit)
    → e.start ≤ e.end
    → e.end ≤ length xs
    → apply_edit (xs ++ ys) e ≡ some (take e.start xs ++ (e.text ++ (drop e.end xs ++ ys)))
unfolding apply_edit
apply_edit-append xs ys e h k =
    let inside : (leb e.start (length (xs ++ ys)) && leb e.end (length (xs ++ ys))) ≡ true =
      ground (arith, length-append xs ys, h, k) in
    rw (inside, take-append e.start xs ys (omega arith), drop-append e.end xs ys k) refl

pub apply_each-append :
    (n : ℕ) (xs ys : Text) (edits : List XmlEdit)
    → n ≤ length xs
    → Descending n edits
    → apply_each (xs ++ ys) edits ≡ some (substituted xs edits ++ ys)
unfolding apply_each substituted
apply_each-append n xs ys [] h d = refl
apply_each-append n xs ys (e ∷ edits) h (next ordered bounded rest) =
    let first = apply_edit-append xs ys e ordered (omega arith) in
    let inner =
      apply_each-append e.start (take e.start xs) (e.text ++ (drop e.end xs ++ ys)) edits
        (omega (arith, length-take e.start xs (omega arith))) rest in
    rw first (
      inner
      ∙ ap some (
          ap (λ t. substituted (take e.start xs) edits ++ t)
            (sym (append_assoc e.text (drop e.end xs) ys))
          ∙ sym (append_assoc (substituted (take e.start xs) edits) (e.text ++ drop e.end xs) ys)))
