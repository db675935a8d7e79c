-- ===== src/Tests/Tables.antt =====
-- The address table and the traffic files at concrete inputs.
use virtualis_agent.Common.{
  ◌*◌, ◌≤◌, ◌≡◌, ◌↔◌, refl, true, false, List, [], ◌∷◌, none, some, ok, arith,
}
use virtualis_agent.Common.Int.{pos}
use virtualis_agent.Common.Map.{lookup, eq_Text}
use virtualis_agent.Common.Text.{text, ◌=ₜ◌, is}
use virtualis_agent.Protocol.{
  Instance, InstanceSpec, NetworkConfig, no_instance, no_network, rewritten_network,
}
use virtualis_agent.Resize.{
  validate_resize, valid_spec, canonical_arch, validate_network, same_attachment,
}
use virtualis_agent.Resize.Laws.{Harmless, validate_resize-Harmless}
use virtualis_agent.Traffic.{
  TrafficDir, holding, fresh, traffic_quota_exceeded, traffic_state_of, load_traffic_state,
  load_traffic_state_strict, mark_traffic_disconnected, mark_traffic_reconnected,
}
use virtualis_agent.Traffic.Quota.{traffic_quota_exceeded_iff}
use virtualis_agent.Traffic.Meter.{
  Event, transfer, restart, sample, happen, run, start, used-le_total, used-eq_total,
}
use virtualis_agent.Traffic.Marks.{
  Meanwhile, reading, again, all_meanwhile, disconnected-remembered, reconnected-state,
}

-- A boot, a restart behind a reading, and a reading.
abbrev evening : List Event
evening = transfer 10 20 ∷ sample (pos 1) ∷ restart ∷ transfer 5 5 ∷ sample (pos 1) ∷ []

evening_total : (run evening start).total ≡ 40
unfolding run happen
evening_total = refl

used-le_total_example : (run evening start).state.used_bytes ≤ (run evening start).total
used-le_total_example = used-le_total evening (rw evening_total (omega arith))

abbrev morning : List Event
morning = transfer 10 20 ∷ sample (pos 1) ∷ transfer 5 5 ∷ []

morning_total : (run morning start).total ≡ 40
unfolding run happen
morning_total = refl

used-eq_total_example :
    (happen (sample (pos 1)) (run morning start)).state.used_bytes ≡ (run morning start).total
used-eq_total_example = used-eq_total morning (pos 1) refl (rw morning_total (omega arith))

traffic_quota_exceeded_iff_example :
    (traffic_quota_exceeded 3000000000 (pos 2) ≡ true) ↔ (2 * 1073741824 ≤ 3000000000)
traffic_quota_exceeded_iff_example =
    traffic_quota_exceeded_iff 3000000000 2 (omega arith) (omega arith)

abbrev bridged : NetworkConfig
bridged = record no_network { mode = text "bridge"; traffic_gb = pos 1 }

abbrev files : TrafficDir
files = record { present = true; writable = true; files = (7, holding fresh) ∷ [] }

abbrev between : List Meanwhile
between = reading (pos 1) 5 5 ∷ again no_network 9 (pos 1) ∷ []

no_original : (load_traffic_state 7 files).original_network ≡ none
unfolding load_traffic_state load_traffic_state_strict lookup
no_original = refl

disconnected-remembered_example :
    let after = all_meanwhile 7 between (mark_traffic_disconnected 7 bridged 5 (pos 1) files) in
    ((traffic_state_of 7 after).0 ≡ true)
    × ((traffic_state_of 7 after).1 ≡ some (rewritten_network bridged))
disconnected-remembered_example =
    disconnected-remembered 7 bridged 5 (pos 1) between files refl refl no_original

abbrev counted : TrafficDir
counted = record files { files = (7, holding (record fresh { used_bytes = 5 })) ∷ [] }

counted_five : load_traffic_state_strict 7 counted ≡ some (record fresh { used_bytes = 5 })
unfolding load_traffic_state_strict lookup
counted_five = refl

reconnected-state_example :
    load_traffic_state_strict 7 (mark_traffic_reconnected 7 counted)
    ≡ some (record fresh { used_bytes = 5; disconnected = false; original_network = none })
reconnected-state_example =
    reconnected-state 7 (record fresh { used_bytes = 5 }) counted refl refl counted_five

abbrev small : InstanceSpec
small = record {
  cpu = pos 2;
  memory_mb = pos 1024;
  disk_gb = pos 20;
  arch = text "amd64";
  cpu_milli = pos 0;
}

abbrev sized : Instance
sized = record no_instance {
  id = 7;
  spec = record small { disk_gb = pos 10; arch = text "x86_64" };
  network = bridged;
}

small_accepted : validate_resize sized small (some (record bridged { traffic_gb = pos 5 })) ≡ ok tt
unfolding validate_resize valid_spec canonical_arch validate_network same_attachment text ◌=ₜ◌ is
small_accepted = refl

validate_resize-Harmless_example :
    Harmless sized small (some (record bridged { traffic_gb = pos 5 }))
validate_resize-Harmless_example = validate_resize-Harmless sized small _ small_accepted
