-- ===== src/Tests/Resizing.antt =====
-- The resizing of an instance at concrete inputs.
use virtualis_agent.Common.{
  List, [], ◌∷◌, none, some, Result, ok, err, ◌≡◌, ◌⊎◌, inl, refl, arith, if◌then◌else◌,
}
use virtualis_agent.Common.Int.{ℤ, pos}
use virtualis_agent.Common.Sorting.{sort_by, place}
use virtualis_agent.Common.Text.{Text, text, ◌=ₜ◌, is, cut_suffix}
use virtualis_agent.Protocol.{InstanceSpec}
use virtualis_agent.Backend.{Machine}
use virtualis_agent.Backend.Journal.{Outcome, journaled, quiet}
use virtualis_agent.Resize.Edits.{
  XmlEdit, no_edit, one_more, alone, apart, apply_xml_edits, substituted, later_first,
}
use virtualis_agent.Resize.Substitution.{apply_xml_edits-substituted}
use virtualis_agent.Resize.Sizes.{size_bytes, size_in, scaled, units, Sized, size_bytes-Sized}
use virtualis_agent.Resize.Domain.{
  XmlToken, opened, closed, XmlSpan, span_edits, qemu_resize, tune_xml,
}
use virtualis_agent.Resize.Order.{Redefined, ResizeFailed, qemu_resize-Order}
use virtualis_agent.Tests.Host.{U, web, done_host}
use virtualis_agent.Tests.Backend.{machine}

-- The sixth letter goes, and a word takes the place of the first two.
abbrev drop_sixth : XmlEdit
drop_sixth = record { start = 5; end = 6; text = [] }

abbrev replace_two : XmlEdit
replace_two = record { start = 0; end = 2; text = text "xyz" }

apply_xml_edits-substituted_example :
    apply_xml_edits (text "abcdef") (replace_two ∷ drop_sixth ∷ [])
    ≡ some (substituted (text "abcdef") (sort_by later_first (replace_two ∷ drop_sixth ∷ [])))
unfolding text
apply_xml_edits-substituted_example =
    apply_xml_edits-substituted (text "abcdef") (replace_two ∷ drop_sixth ∷ []) (
      one_more (omega arith) (omega arith) (apart (inl (omega arith, omega arith)) alone)
        (one_more (omega arith) (omega arith) alone no_edit))

both_applied :
    substituted (text "abcdef") (sort_by later_first (replace_two ∷ drop_sixth ∷ []))
    ≡ text "xyzcde"
unfolding substituted sort_by place later_first text
both_applied = refl

abbrev only_ten : Text → Result ℤ
only_ten s = if is s "10" then ok (pos 10) else err (text "invalid syntax")

ten_gib : size_bytes only_ten (text "10GiB") ≡ ok (pos 10737418240)
unfolding size_bytes size_in scaled cut_suffix is text ◌=ₜ◌
ten_gib = refl

size_bytes-Sized_example :
    Sized only_ten units (text "10GiB") (pos 10737418240)
    ⊎ (only_ten (text "10GiB") ≡ ok (pos 10737418240))
size_bytes-Sized_example = size_bytes-Sized only_ten (text "10GiB") (pos 10737418240) ten_gib

-- The stopped domain of a small disk.
abbrev small_disk : Machine U
small_disk = record machine {
  parse_image = λ raw. ok (record {
    format = text "qcow2";
    virtual_size = pos 1073741824;
    backing = [];
    full_backing = [];
    data_file = [];
  });
}

abbrev tokens : List XmlToken
tokens =
    opened (text "domain") [] 0
    ∷ opened (text "os") [] 1
    ∷ opened (text "type") ((text "arch", text "x86_64") ∷ []) 2
    ∷ closed 3 4
    ∷ closed 5 6
    ∷ closed 7 8
    ∷ []

abbrev larger : InstanceSpec
larger = record { cpu = pos 2; memory_mb = pos 512; disk_gb = pos 10; arch = []; cpu_milli = pos 0 }

qemu_resize-Order_example :
    Outcome
      (λ _. Redefined small_disk (pos 10))
      (ResizeFailed small_disk (pos 10))
      (qemu_resize
        (journaled small_disk)
        (λ raw. ok tokens)
        (λ path t. quiet done_host)
        web
        larger
        none
        (tt, []))
qemu_resize-Order_example =
    qemu_resize-Order small_disk (λ raw. ok tokens) (λ path t. done_host) web larger none tt

-- The end of `<cputune/>` is behind its only tag, and so is what is meant to stand in it.
abbrev empty_cputune : XmlSpan
empty_cputune = record { path = text "domain/cputune"; start = 8; end = 18; close = 18; attrs = [] }

abbrev limited : InstanceSpec
limited = record larger { cpu_milli = pos 500 }

tune_outside :
    span_edits (text "<domain><cputune/></domain>") limited none empty_cputune
    ≡ ok (record { start = 18; end = 18; text = tune_xml limited } ∷ [])
unfolding span_edits is text ◌=ₜ◌
tune_outside = refl
