-- ===== src/Resize/Substitution.antt =====
-- applyXMLEdits of internal/driver/resize.go: the outcome of edits that do not overlap, in whatever order
-- they are given.
use virtualis_agent.Common.{
  ℕ, ◌≤◌, true, false, List, [], ◌∷◌, some, ◌≡◌, sym, ap, subst, ◌∙◌, ◌⊎◌, inl, inr, Bool-cases,
  arith, length,
}
use virtualis_agent.Common.Sorting.{
  Among, here, there, sort_by, IsSorted, place, Among-place, sort_by-Among, sort_by-IsSorted,
  tail-IsSorted, head-le,
}
use virtualis_agent.Common.Text.{Text}
use virtualis_agent.Resize.Edits.{
  XmlEdit, apply_each, later_first, apply_xml_edits, substituted, Before, Apart, alone, apart,
  Disjoint, no_edit, one_more, Descending, nothing, next, apply_each-append, append_nil,
}

-- Sorting keeps edits apart.
Apart-Among :
    (e d : XmlEdit) (edits : List XmlEdit) → Apart e edits → Among d edits → Before e d ⊎ Before d e
Apart-Among e d (d' ∷ edits) (apart b rest) here = b
Apart-Among e d (c ∷ edits) (apart b rest) (there m) = Apart-Among e d edits rest m
Apart-Among e d [] alone m = elim m [ ]

from-Among :
    (e : XmlEdit) (edits : List XmlEdit)
    → ((d : XmlEdit) → Among d edits → Before e d ⊎ Before d e)
    → Apart e edits
from-Among e [] f = alone
from-Among e (d ∷ edits) f = apart (f d here) (from-Among e edits (λ c m. f c (there m)))

swapped : (a b : XmlEdit) → Before a b ⊎ Before b a → Before b a ⊎ Before a b
swapped a b (inl x) = inr x
swapped a b (inr x) = inl x

place-Disjoint :
    (bound : ℕ) (e : XmlEdit) (edits : List XmlEdit)
    → e.start ≤ e.end
    → e.end ≤ bound
    → Apart e edits
    → Disjoint bound edits
    → Disjoint bound (place later_first e edits)
unfolding place
place-Disjoint bound e [] h k a d = one_more h k a d
place-Disjoint bound e (c ∷ edits) h k (apart b a) (one_more h' k' a' d) =
    elim (Bool-cases (later_first e c)) [
      | inl first ↦ rw first (one_more h k (apart b a) (one_more h' k' a' d))
      | inr later ↦ rw later (
          one_more h' k'
            (from-Among c (place later_first e edits) (λ x m.
              elim (Among-place later_first x e edits m) [
                | inl new ↦ subst (λ y. Before c y ⊎ Before y c) (sym new) (swapped e c b)
                | inr old ↦ Apart-Among c x edits a' old
              ]))
            (place-Disjoint bound e edits h k a d))
    ]

sort_by-Disjoint :
    (bound : ℕ) (edits : List XmlEdit)
    → Disjoint bound edits
    → Disjoint bound (sort_by later_first edits)
unfolding sort_by
sort_by-Disjoint bound [] d = no_edit
sort_by-Disjoint bound (e ∷ edits) (one_more h k a d) =
    place-Disjoint bound e (sort_by later_first edits) h k
      (from-Among e _ (λ x m. Apart-Among e x edits a (sort_by-Among later_first x edits m)))
      (sort_by-Disjoint bound edits d)

later_first-total : (a b : XmlEdit) → later_first a b ≡ false → later_first b a ≡ true
unfolding later_first
later_first-total a b h = ground arith

later_first_trans :
    (a b c : XmlEdit) → later_first a b ≡ true → later_first b c ≡ true → later_first a c ≡ true
unfolding later_first
later_first_trans a b c h k = ground (arith, h, k)

-- What stands later in the list ends before.
ends_earlier :
    (e d : XmlEdit)
    → e.start ≤ e.end
    → later_first e d ≡ true
    → Before e d ⊎ Before d e
    → d.end ≤ e.start
unfolding later_first
ends_earlier e d h first (inl b) = absurd (ground (arith, first, b.1))
ends_earlier e d h first (inr b) = b.0

lower_bound :
    (n : ℕ) (edits : List XmlEdit)
    → ((d : XmlEdit) → Among d edits → d.end ≤ n)
    → (bound : ℕ) → Disjoint bound edits
    → Disjoint n edits
lower_bound n [] f bound d = no_edit
lower_bound n (e ∷ edits) f bound (one_more h k a d) =
    one_more h (f e here) a (lower_bound n edits (λ c m. f c (there m)) bound d)

sorted-Descending :
    (bound : ℕ) (edits : List XmlEdit)
    → IsSorted later_first edits
    → Disjoint bound edits
    → Descending bound edits
sorted-Descending bound [] s d = nothing
sorted-Descending bound (e ∷ edits) s (one_more h k a d) = next h k (
    sorted-Descending e.start edits (tail-IsSorted later_first s) (
      lower_bound e.start edits
        (λ c m. ends_earlier e c h (head-le later_first s c m) (Apart-Among e c edits a m)) bound
        d))

-- Edits of a text that do not overlap, given in any order: the code applies all of them without a
-- slice out of its bounds, and the outcome has each edit's text in the place of that part of the
-- text before, and everything else of it as it was.
pub apply_xml_edits-substituted :
    (raw : Text) (edits : List XmlEdit)
    → Disjoint (length raw) edits
    → apply_xml_edits raw edits ≡ some (substituted raw (sort_by later_first edits))
unfolding apply_xml_edits
apply_xml_edits-substituted raw edits d =
    let sorted = sort_by later_first edits in
    let whole = apply_each-append (length raw) raw [] sorted (omega arith) (
      sorted-Descending (length raw) sorted
        (sort_by-IsSorted later_first later_first-total later_first_trans edits)
        (sort_by-Disjoint (length raw) edits d)) in
    subst (λ t. apply_each t sorted ≡ some (substituted raw sorted)) (append_nil raw)
      (whole ∙ ap some (append_nil (substituted raw sorted)))
