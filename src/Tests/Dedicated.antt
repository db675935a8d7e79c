-- ===== src/Tests/Dedicated.antt =====
-- Instances with an address of their own, at concrete inputs.
use virtualis_agent.Common.{
  ℕ, zero, suc, ◌+◌, ◌-◌, ◌*◌, ◌/◌, ◌%◌, ◌<◌, ◌||◌, true, false, [], ◌∷◌, none, some, ok, err,
  if◌then◌else◌, ltb, ◌≡◌, refl, ap, ◌∙◌, inl, inr, Bool-cases, arith, sym, subst, ok-injective,
  err-ne-ok, ◌==◌, ==_iff,
}
use virtualis_agent.Common.Text.{Text, text, ◌=ₜ◌, is, decimal, digits_below, cut_suffix}
use virtualis_agent.Common.Map.{lookup, insert}
use virtualis_agent.Backend.{◌>>◌, from_result, unless, deferring}
use virtualis_agent.Protocol.{Instance, NetworkConfig, no_network}
use virtualis_agent.Shell.{Shell}
use virtualis_agent.Firewall.Script.{words}
use virtualis_agent.Dedicated.Ensure.{ensure_qemu_dedicated}
use virtualis_agent.Dedicated.Accepted.{Accepted}
use virtualis_agent.Dedicated.Cleanup.{cleanup_dedicated}
use virtualis_agent.Dedicated.Log.{observed, unobserved}
use virtualis_agent.Dedicated.Evidence.{Guarded, SetsUp, CleansUp}
use virtualis_agent.Dedicated.Foreign.{ensure_qemu_dedicated-Guarded, cleanup_dedicated-Guarded}
use virtualis_agent.Tests.Firewall.{guest, one_address, guarded}
use virtualis_agent.Dedicated.{
  DedicatedRecord, DedicatedAttachment, HostAddress, Formats, host_interface_name,
}
use virtualis_agent.Dedicated.Directory.{Agree}
use virtualis_agent.Dedicated.Memory.{Disk, memory, memory_directory, memory_directory-files}
use virtualis_agent.Dedicated.Saving.{ReadsBack, Recorded}
use virtualis_agent.Dedicated.Records.{record_name, record_in, is_own_record, save_dedicated_record}
use virtualis_agent.Dedicated.Unique.{Unique, Saved, save_dedicated_record-Unique}
use virtualis_agent.Dedicated.Triples.{After}

-- A reader of digits.
read_digits : ℕ → Text → ℕ
read_digits n [] = n
read_digits n (c ∷ s) = read_digits (n * 10 + (c - b'0')) s

read_digits-digits_below :
    (f n : ℕ) (acc : Text) → n < f → read_digits 0 (digits_below f n acc) ≡ read_digits n acc
unfolding digits_below read_digits
read_digits-digits_below zero n acc h = absurd (omega arith)
read_digits-digits_below (suc f) n acc h = elim (Bool-cases (ltb n 10)) [
  | inl small ↦ rw small (ap (λ m. read_digits m acc) (omega arith))
  | inr large ↦ rw large (
      read_digits-digits_below f (n / 10) ((b'0' + n % 10) ∷ acc) (ground arith)
      ∙ ap (λ m. read_digits m acc) (omega arith))
]

abbrev bridged : ℕ → Text → DedicatedRecord
bridged id ip = record {
  id = id;
  driver = text "qemu";
  attachment = record { uplink = text "br0"; mode = text "bridge"; ip = ip; bridge = text "br0" };
  network = no_network;
}

abbrev five : DedicatedRecord
five = record {
  id = 5;
  driver = text "qemu";
  attachment = record {
    uplink = text "eth0";
    mode = text "routed";
    ip = text "10.0.0.5";
    bridge = text "eth0";
  };
  network = no_network;
}

abbrev seven : DedicatedRecord
seven = bridged 7 (text "10.0.0.7")

abbrev eth0 : HostAddress
eth0 = record {
  name = text "eth0";
  flags = text "UP" ∷ [];
  alias = [];
  kind = [];
  locals = text "192.0.2.1" ∷ [];
}

-- The records are told apart by their address.
abbrev any_formats : Formats
any_formats = record {
  decode_links = λ t. ok (if is t "hosts" then eth0 ∷ [] else []);
  decode_routes = λ t. ok [];
  encode_record = λ r. ok r.attachment.ip;
  decode_record =
      λ t. if is t "10.0.0.5" then ok five else if is t "10.0.0.7" then ok seven else err [];
  parse_uint = λ t. ok (read_digits 0 t);
  parse_mac = λ t. none;
  same_ip = λ a b. false;
}

any_formats-ReadsBack : ReadsBack any_formats
unfolding decimal read_digits
any_formats-ReadsBack id small = ap ok (read_digits-digits_below (suc id) id [] (omega arith))

-- The directory has the record of instance 5.
abbrev disk : Disk
disk = (record_name 5, text "10.0.0.5") ∷ []

own_five :
    (a : ℕ) (e : Text) (p : DedicatedRecord)
    → (if is_own_record a five then ok (some five) else err e) ≡ ok (some p)
    → 5 ≡ a
unfolding is_own_record host_interface_name is text ◌=ₜ◌
own_five a e p h = elim (Bool-cases (5 == a)) [
  | inl same ↦ (==_iff 5 a).0 same
  | inr other ↦ absurd (err-ne-ok (rw other at h))
]

only_five :
    (a : ℕ) (p : DedicatedRecord) → Recorded any_formats (memory_directory.files disk) a p → 5 ≡ a
unfolding lookup record_in is text ◌=ₜ◌
only_five a p k =
    let holds =
      subst (λ c. record_in any_formats a c ≡ ok (some p))
        (memory_directory-files disk (record_name a)) k.holds in
    elim (Bool-cases (record_name 5 =ₜ record_name a)) [
      | inl same ↦ own_five a _ p (rw (same, record_in) at holds)
      | inr other ↦ absurd (ground (arith, ok-injective (rw (other, record_in) at holds)))
    ]

disk-Unique : Unique any_formats (memory_directory.files disk)
disk-Unique a b p q k l e = sym (only_five a p k) ∙ only_five b q l

seven-encoded :
    (raw : Text)
    → any_formats.encode_record seven ≡ ok raw
    → any_formats.decode_record raw ≡ ok seven
unfolding is text ◌=ₜ◌
seven-encoded raw e = subst (λ t. any_formats.decode_record t ≡ ok seven) (ok-injective e) refl

seven-own : is_own_record 7 seven ≡ true
unfolding is_own_record host_interface_name is text ◌=ₜ◌
seven-own = refl

save_dedicated_record-Unique_example :
    After
      (λ _ w. Saved any_formats (memory_directory.files disk) (memory_directory.files w) seven)
      (λ w. Agree (memory_directory.files disk) (memory_directory.files w))
      (save_dedicated_record any_formats memory seven disk)
save_dedicated_record-Unique_example =
    save_dedicated_record-Unique any_formats memory memory_directory any_formats-ReadsBack seven
      disk (omega arith) seven-own seven-encoded disk-Unique

seven-saved : (save_dedicated_record any_formats memory seven disk).0 ≡ ok tt
unfolding save_dedicated_record ◌>>◌ memory cut_suffix decimal ◌=ₜ◌ text from_result lookup
    read_digits is host_interface_name unless deferring insert
seven-saved = refl

abbrev routed_host : Shell Disk
routed_host = record {
  available = λ name w. (true, w);
  run = λ args w. (ok tt, w);
  output = λ args w. (
    ok (
        if is (words args) "ip -j -d address show"
        then text "hosts"
        else if is (words args) "sysctl -n net.ipv4.ip_forward"
            || is (words args) "sysctl -n net.ipv4.conf.eth0.proxy_arp"
        then text "1"
        else []),
    w,
  );
  restore = λ script w. (ok tt, w);
}

abbrev addressed : Instance
addressed = record guarded { network = record no_network { mode = text "dedicated"; ipv4 = guest } }

ensure_qemu_dedicated-Guarded_example :
    Guarded
      (SetsUp any_formats 7)
      (ensure_qemu_dedicated one_address any_formats
        (observed routed_host)
        (unobserved memory)
        addressed
        ([], [])).1.1
ensure_qemu_dedicated-Guarded_example =
    ensure_qemu_dedicated-Guarded one_address any_formats routed_host memory addressed []

cleanup_dedicated-Guarded_example :
    Guarded
      (CleansUp any_formats 5)
      (cleanup_dedicated one_address any_formats
        (observed routed_host)
        (unobserved memory)
        5
        (disk, [])).1.1
cleanup_dedicated-Guarded_example =
    cleanup_dedicated-Guarded one_address any_formats routed_host memory 5 disk

abbrev request : NetworkConfig
request = record no_network { mode = text "dedicated"; ipv4 = guest }

abbrev eth0_attachment : DedicatedAttachment
eth0_attachment = record {
  uplink = text "eth0";
  mode = text "routed";
  ip = guest;
  bridge = text "eth0";
}
