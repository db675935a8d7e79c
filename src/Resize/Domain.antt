-- ===== src/Resize/Domain.antt =====
-- xmlSpans and Resize of internal/driver/resize.go, for qemu: the edits of a domain's XML, and the
-- commands that grow its disk and define it anew. The tokens of the XML, with their offsets, are those
-- of the package encoding/xml.
use virtualis_agent.Common.{
  ℕ, ◌-◌, ◌*◌, Bool, false, ◌&&◌, ◌||◌, not, List, [], ◌∷◌, ◌++◌, Option, Result, ok, err,
  if◌then◌else◌, ◌==◌, is_some, or_else, by_option, by_result, take, drop,
}
use virtualis_agent.Common.Int.{ℤ, pos, ltb_ℤ, leb_ℤ, pos_part}
use virtualis_agent.Common.Text.{Text, text, is, is_empty, itoa, trim_space, cut_suffix, ◌=ₜ◌}
use virtualis_agent.Protocol.{Instance, InstanceSpec, NetworkConfig}
use virtualis_agent.Backend.{
  Attempt, ◌>>=◌, ◌>>◌, succeed, from_result, unless, deferring, Machine, resource_name,
  qemu_status, require_stopped,
}
use virtualis_agent.Backend.Disks.{system_disk, qcow_virtual_size}
use virtualis_agent.Backend.Snapshots.{gb_bytes, signed}
use virtualis_agent.Resize.{validate_resize, normalized_resize, check_actual_arch}
use virtualis_agent.Resize.Edits.{XmlEdit, apply_xml_edits}

pub record XmlSpan : Type 0 where
  pub path : Text
  pub start : ℕ
  pub end : ℕ
  pub close : ℕ
  pub attrs : List (Text × Text)

pub data XmlToken : Type 0 where
  opened : (name : Text) → (attrs : List (Text × Text)) → (start : ℕ) → XmlToken
  closed : (start end : ℕ) → XmlToken
  other_token : XmlToken

abbrev inner_path : List XmlSpan → Text → Text
inner_path [] name = name
inner_path (s ∷ stack) name = s.path ++ b'/' ∷ name

-- The elements as they end, with those that are still open on a stack.
unfoldable pub spans_from : List XmlSpan → List XmlToken → Result (List XmlSpan)
spans_from stack [] = ok []
spans_from stack (opened name attrs start ∷ tokens) =
    spans_from
      (record { path = inner_path stack name; start = start; end = 0; close = 0; attrs = attrs }
        ∷ stack)
      tokens
spans_from [] (closed start end ∷ tokens) = err (text "invalid XML")
spans_from (s ∷ stack) (closed start end ∷ tokens) =
    by_result (spans_from stack tokens) (λ e. err e)
      (λ spans. ok (record s { close = start; end = end } ∷ spans))
spans_from stack (other_token ∷ tokens) = spans_from stack tokens

abbrev attribute : Text → List (Text × Text) → Text → Text
attribute name [] found = found
attribute name ((n, value) ∷ attrs) found =
    attribute name attrs (if n =ₜ name then value else found)

-- The last that is found.
unfoldable pub actual_arch : List XmlSpan → Text → Text
actual_arch [] found = found
actual_arch (x ∷ spans) found =
    actual_arch spans
      (if is x.path "domain/os/type" then attribute (text "arch") x.attrs found else found)

unfoldable pub memory_xml : Text → ℤ → Text
memory_xml tag mb = b'<' ∷ tag ++ text " unit='MiB'>" ++ itoa mb ++ text "</" ++ tag ++ text ">"

unfoldable pub vcpu_xml : ℤ → Text
vcpu_xml cpu = text "<vcpu placement='static'>" ++ itoa cpu ++ text "</vcpu>"

-- The quota is at most 409600000, by the check of the request.
unfoldable pub tune_xml : InstanceSpec → Text
tune_xml s =
    if ltb_ℤ (pos 0) s.cpu_milli
    then text "<period>100000</period><quota>"
      ++ itoa (pos (pos_part s.cpu_milli * 100))
      ++ text "</quota>"
    else []

-- The rate in kilobytes, which wraps at 64 bits.
unfoldable pub bandwidth_xml : ℤ → Text
bandwidth_xml mbps =
    if leb_ℤ mbps (pos 0)
    then []
    else let average = itoa (signed (pos_part mbps * 1000)) in
      text "<bandwidth><inbound average='"
      ++ average
      ++ text "' peak='"
      ++ average
      ++ text "'/><outbound average='"
      ++ average
      ++ text "' peak='"
      ++ average
      ++ text "'/></bandwidth>"

abbrev replace : XmlSpan → Text → Result (List XmlEdit)
replace x t = ok (record { start = x.start; end = x.end; text = t } ∷ [])

-- Text before the end tag.
abbrev add : XmlSpan → Text → Result (List XmlEdit)
add x t = ok (record { start = x.close; end = x.close; text = t } ∷ [])

-- A tag without an end tag.
abbrev is_empty_tag : Text → XmlSpan → Bool
is_empty_tag raw x =
    x.close == x.start
    || is_some (cut_suffix (trim_space (take (x.end - x.start) (drop x.start raw))) (text "/>"))

-- What becomes of one element.
unfoldable pub span_edits :
    Text → InstanceSpec → Option NetworkConfig → XmlSpan → Result (List XmlEdit)
unfolding memory_xml vcpu_xml tune_xml bandwidth_xml
span_edits raw s n x =
    if is x.path "domain/memory"
    then replace x (memory_xml (text "memory") s.memory_mb)
    else if is x.path "domain/currentMemory"
    then replace x (memory_xml (text "currentMemory") s.memory_mb)
    else if is x.path "domain/vcpu"
    then replace x (vcpu_xml s.cpu)
    else if is x.path "domain/cputune/period" || is x.path "domain/cputune/quota"
    then replace x []
    else if is x.path "domain/cputune"
    then add x (tune_xml s)
    else if is x.path "domain/devices/interface/bandwidth"
    then by_option n (ok []) (λ _. replace x [])
    else if is x.path "domain/devices/interface"
    then by_option n (ok []) (λ net.
      if is_empty_tag raw x
      then err (text "unsupported empty interface XML")
      else add x (bandwidth_xml net.bandwidth_mbps))
    else ok []

unfoldable pub all_span_edits :
    Text → InstanceSpec → Option NetworkConfig → List XmlSpan → Result (List XmlEdit)
unfolding span_edits
all_span_edits raw s n [] = ok []
all_span_edits raw s n (x ∷ spans) =
    by_result (span_edits raw s n x) (λ e. err e)
      (λ edits. by_result (all_span_edits raw s n spans) (λ e. err e) (λ more. ok (edits ++ more)))

unfoldable pub has_path : Text → List XmlSpan → Bool
has_path path [] = false
has_path path (x ∷ spans) = x.path =ₜ path || has_path path spans

-- The offset of the end tag of the whole; 0 if there is none.
unfoldable pub root_close : List XmlSpan → ℕ → ℕ
root_close [] at = at
root_close (x ∷ spans) at = root_close spans (if is x.path "domain" then x.close else at)

abbrev missing : Bool → Text → Text
missing found t = if found then [] else t

-- The elements that the domain does not have yet.
unfoldable pub missing_elements : InstanceSpec → List XmlSpan → Text
unfolding has_path memory_xml vcpu_xml tune_xml
missing_elements s spans =
    let tune = tune_xml s in
    missing (has_path (text "domain/memory") spans) (memory_xml (text "memory") s.memory_mb)
    ++ (missing (has_path (text "domain/currentMemory") spans)
          (memory_xml (text "currentMemory") s.memory_mb)
        ++ (missing (has_path (text "domain/vcpu") spans) (vcpu_xml s.cpu)
            ++ missing (has_path (text "domain/cputune") spans || is_empty tune)
                (text "<cputune>" ++ tune ++ text "</cputune>")))

abbrev wants_bandwidth : Option NetworkConfig → Bool
wants_bandwidth n = by_option n false (λ net. ltb_ℤ (pos 0) net.bandwidth_mbps)

unfoldable pub domain_edits :
    Text → InstanceSpec → Option NetworkConfig → List XmlSpan → Result (List XmlEdit)
unfolding all_span_edits root_close missing_elements has_path
domain_edits raw s n spans =
    by_result (all_span_edits raw s n spans) (λ e. err e)
      (λ edits.
        let close = root_close spans 0 in
        if close == 0
        then err (text "missing domain XML")
        else if wants_bandwidth n && not (has_path (text "domain/devices/interface") spans)
        then err (text "no NIC for bandwidth limit")
        else ok (
            edits ++ (record { start = close; end = close; text = missing_elements s spans } ∷ [])))

unfoldable pub resized_domain :
    (Text → Result (List XmlToken))
    → Text
    → InstanceSpec
    → Option NetworkConfig
    → List XmlSpan
    → Result Text
unfolding domain_edits apply_xml_edits spans_from
resized_domain decode_xml raw s n spans =
    by_result (domain_edits raw s n spans) (λ e. err e)
      (λ edits.
        by_option (apply_xml_edits raw edits) (err (text "slice bounds out of range")) (λ updated.
          by_result (decode_xml updated) (λ e. err e)
            (λ tokens. by_result (spans_from [] tokens) (λ e. err e) (λ _. ok updated))))

unfoldable pub resized_instance : Instance → InstanceSpec → Option NetworkConfig → Instance
resized_instance i s n = record i { spec = s; network = or_else n i.network }

module _ {W : Type 0} (m : Machine W) where
  unfoldable pub grow_disk : Text → ℤ → ℤ → Attempt W (Unit {0})
  grow_disk disk actual disk_gb =
      if ltb_ℤ actual (gb_bytes disk_gb)
      then m.run (text "qemu-img" ∷ text "resize" ∷ disk ∷ (itoa disk_gb ++ text "G") ∷ [])
      else succeed tt

  -- `write` stands for Write and Close of a temporary file.
  unfoldable pub define_resized :
      (Text → Text → Attempt W (Unit {0})) → Text → ℤ → ℤ → Text → Attempt W (Unit {0})
  unfolding grow_disk
  define_resized write disk actual disk_gb updated = do
    m.make_dirs m.data_dir
    temp ← m.make_temp m.data_dir (text "resize-*.xml")
    deferring (m.drop_temp temp) (do
      write temp updated
      grow_disk disk actual disk_gb
      m.run (text "virsh" ∷ text "define" ∷ temp ∷ []))

  unfoldable pub qemu_resize :
      (Text → Result (List XmlToken))
      → (Text → Text → Attempt W (Unit {0}))
      → Instance
      → InstanceSpec
      → Option NetworkConfig
      → Attempt W Instance
  unfolding validate_resize spans_from actual_arch normalized_resize check_actual_arch
      resized_domain define_resized resized_instance
  qemu_resize decode_xml write i s n = do
    from_result (validate_resize i s n)
    require_stopped (qemu_status m) i
    raw ← m.output (text "virsh" ∷ text "dumpxml" ∷ resource_name i ∷ text "--inactive" ∷ [])
    tokens ← from_result (decode_xml raw)
    spans ← from_result (spans_from [] tokens)
    disk ← system_disk m i
    from_result (check_actual_arch (actual_arch spans []) s)
    let t = normalized_resize s (actual_arch spans [])
    actual ← qcow_virtual_size m disk
    unless (not (ltb_ℤ (gb_bytes t.disk_gb) actual)) (text "disk shrinking is forbidden")
    updated ← from_result (resized_domain decode_xml raw t n spans)
    define_resized write disk actual t.disk_gb updated
    succeed (resized_instance i t n)
