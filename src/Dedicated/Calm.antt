-- ===== src/Dedicated/Calm.antt =====
-- What of internal/driver/dedicated.go and dedicated_state.go runs no command of `ip` for its effect, and
-- so keeps every predicate on the log that only such commands can break.
use virtualis_agent.Common.{
  ℕ, Bool, true, false, ◌&&◌, not, List, [], ◌∷◌, ◌++◌, ok, err, if◌then◌else◌, map, ◌≡◌, refl,
  by_result,
}
use virtualis_agent.Common.Text.{Text, text, ◌=ₜ◌, cut_suffix, is, trim_space}
use virtualis_agent.Protocol.{Instance, NetworkConfig}
use virtualis_agent.Shell.{Shell}
use virtualis_agent.Backend.{Attempt, succeed, fail, from_result}
use virtualis_agent.Firewall.{Addresses, validate_firewall, firewall_chain_name, guest_firewall_ip}
use virtualis_agent.Firewall.Script.{
  replace_firewall, replace_lines, restore_owned_table, firewall_lines, is_active, has_address,
  words,
}
use virtualis_agent.Dedicated.{Formats, DedicatedRecord, DedicatedAttachment}
use virtualis_agent.Dedicated.Records.{
  Records, load_dedicated_record, check_entry, check_entries, publish_record, save_dedicated_record,
  drop_temp,
}
use virtualis_agent.Dedicated.Attach.{
  resolve_dedicated, tables_available, with_tables, apply_dedicated_protection,
}
use virtualis_agent.Dedicated.Ensure.{require_sysctl, ensure_bridge_filtering, record_and_protect}
use virtualis_agent.Dedicated.Triples.{
  Preserves, Triple-bind, Triple-then, Triple-deferring, Preserves-succeed, Preserves-from_result,
  Preserves-unless, Preserves-fail, PreservesCall, Preserves-call_onward, Preserves-choice,
  Preserves-by_result, Preserves-by_option, Preserves-PreservesCall, Preserves-option,
  Preserves-after_attempt,
}
use virtualis_agent.Dedicated.Log.{
  Log, asked, ran, restored, is_change, observed, unobserved, On, Stable, Preserves-besides,
  Preserves-quiet,
}

module _ {W : Type 0} (L : Log → Type 0) (stable : Stable L) (shell : Shell W) where
  pub Preserves-output : (args : List Text) → Preserves (On L) ((observed shell).output args)
  unfolding observed
  Preserves-output args =
      Preserves-besides L _ _ (λ answer l h. stable (asked args answer) l refl h)

  Preserves-restore : (script : Text) → Preserves (On L) ((observed shell).restore script)
  unfolding observed
  Preserves-restore script = Preserves-besides L _ _ (λ r l h. stable (restored script) l refl h)

  -- A command that is not `ip`.
  pub Preserves-run :
      (args : List Text)
      → is_change (ran args) ≡ false
      → Preserves (On L) ((observed shell).run args)
  unfolding observed
  Preserves-run args calm = Preserves-besides L _ _ (λ r l h. stable (ran args) l calm h)

  module _ (net : Addresses) (formats : Formats) where
    tables_answered :
        (present : Bool) (w : W) (l : Log)
        → L l
        → On L
            (if present
              then (observed shell).available (text "iptables-restore") (w, l)
              else (false, (w, l))).1
    unfolding observed
    tables_answered true w l h = h
    tables_answered false w l h = h

    PreservesCall-tables_available :
        PreservesCall (On L) (tables_available net formats (observed shell))
    unfolding tables_available observed
    PreservesCall-tables_available = record {
      from_call = λ s h.
          let (present, w') = shell.available (text "iptables") s.0 in
          tables_answered present w' s.1 h;
    }

    pub Preserves-with_tables :
        {A : Type 0} (e : Text) (m : Attempt (W × Log) A)
        → Preserves (On L) m
        → Preserves (On L) (with_tables net formats (observed shell) e m)
    unfolding with_tables fail
    Preserves-with_tables e m k =
        Preserves-call_onward (tables_available net formats (observed shell))
          (λ present w. if present then m w else (err e, w)) PreservesCall-tables_available
          (λ present. Preserves-choice present m _ k (Preserves-fail e))

    pub Preserves-restore_owned_table :
        (table hook : Text) (chains body : List Text)
        → Preserves (On L) (restore_owned_table net (observed shell) table hook chains body)
    unfolding restore_owned_table
    Preserves-restore_owned_table table hook chains body =
        Preserves-after_attempt _ _ (Preserves-output _) (λ out. Preserves-restore _)

    Preserves-replace_lines :
        (i : Instance) → Preserves (On L) (replace_lines net (observed shell) i)
    unfolding replace_lines fail
    Preserves-replace_lines i =
        let lines = firewall_lines net (firewall_chain_name i.id) (guest_firewall_ip net i) i in
        Preserves-by_option lines _ _ (Preserves-fail (text "slice bounds out of range")) (λ ls.
          Preserves-restore_owned_table (text "filter") (text "FORWARD")
            (firewall_chain_name i.id ∷ []) (map words ls))

    Preserves-replace_firewall :
        (i : Instance) → Preserves (On L) (replace_firewall net (observed shell) i)
    unfolding replace_firewall fail succeed tables_available observed
    Preserves-replace_firewall i =
        let active = is_active net i in
        Preserves-by_result (validate_firewall net i) _ _ (λ e. Preserves-fail e)
          (λ _.
            Preserves-choice (active && not (has_address net i)) _ _
              (Preserves-fail (text "实例缺少有效 IPv4，规则未应用"))
              (Preserves-call_onward (tables_available net formats (observed shell)) _
                PreservesCall-tables_available
                (λ present.
                  Preserves-choice (not present) _ _
                    (Preserves-choice active _ _
                      (Preserves-fail (text "宿主机缺少 iptables/iptables-restore"))
                      (Preserves-succeed tt))
                    (Preserves-replace_lines i))))

    pub Preserves-resolve_dedicated :
        (n : NetworkConfig) → Preserves (On L) (resolve_dedicated net formats (observed shell) n)
    unfolding resolve_dedicated
    Preserves-resolve_dedicated n = Triple-bind _ _ (Preserves-from_result _) (λ ip.
        Triple-bind _ _ (Preserves-output _)
          (λ out. Triple-bind _ _ (Preserves-from_result _) (λ hosts. Preserves-from_result _)))

    pub Preserves-apply_dedicated_protection :
        (i : Instance) (a : DedicatedAttachment) (qemu : Bool)
        → Preserves (On L) (apply_dedicated_protection net formats (observed shell) i a qemu)
    unfolding apply_dedicated_protection
    Preserves-apply_dedicated_protection i a qemu =
        Preserves-with_tables _ _
          (Triple-then _ _ (Preserves-restore_owned_table _ _ _ _) (Preserves-replace_firewall i))

  pub Preserves-require_sysctl :
      (net : Addresses) (formats : Formats) (key : Text)
      → Preserves (On L) (require_sysctl net formats (observed shell) key)
  unfolding require_sysctl fail from_result
  Preserves-require_sysctl net formats key =
      let unmet = text "网络前置条件未满足: " ++ key in
      Preserves-call_onward ((observed shell).output (text "sysctl" ∷ text "-n" ∷ key ∷ []))
        (λ r w.
          by_result r (λ e. fail unmet w)
            (λ out. from_result (if is (trim_space out) "1" then ok tt else err unmet) w))
        (Preserves-PreservesCall _ (Preserves-output _))
        (λ r.
          Preserves-by_result r _ _ (λ e. Preserves-fail unmet) (λ out. Preserves-from_result _))

  pub Preserves-ensure_bridge_filtering :
      (net : Addresses) (formats : Formats)
      → Preserves (On L) (ensure_bridge_filtering net formats (observed shell))
  unfolding ensure_bridge_filtering text ◌=ₜ◌
  Preserves-ensure_bridge_filtering net formats =
      Triple-then _ _ (Preserves-run _ refl)
        (Triple-then _ _ (Preserves-run _ refl) (Preserves-require_sysctl net formats _))

  -- The files of the records are not logged.
  module _ (formats : Formats) (records : Records W) where
    pub Preserves-load_dedicated_record :
        (id : ℕ) → Preserves (On L) (load_dedicated_record formats (unobserved records) id)
    unfolding load_dedicated_record unobserved
    Preserves-load_dedicated_record id =
        Triple-bind _ _ (Preserves-quiet L _) (λ content. Preserves-from_result _)

    Preserves-check_entry :
        (r : DedicatedRecord) (name : Text)
        → Preserves (On L) (check_entry formats (unobserved records) r name)
    unfolding check_entry
    Preserves-check_entry r name =
        Preserves-option (cut_suffix name (text ".json")) _ _ (Preserves-succeed tt) (λ digits.
          Triple-bind _ _ (Preserves-from_result _) (λ id.
            Triple-bind _ _ (Preserves-load_dedicated_record id) (λ old. Preserves-unless _ _)))

    Preserves-check_entries :
        (r : DedicatedRecord) (names : List Text)
        → Preserves (On L) (check_entries formats (unobserved records) r names)
    unfolding check_entries
    Preserves-check_entries r [] = Preserves-succeed tt
    Preserves-check_entries r (name ∷ names) =
        Triple-then _ _ (Preserves-check_entry r name) (Preserves-check_entries r names)

    Preserves-publish_record :
        (name raw : Text) → Preserves (On L) (publish_record (unobserved records) name raw)
    unfolding publish_record drop_temp unobserved
    Preserves-publish_record name raw = Triple-bind _ _ (Preserves-quiet L _) (λ temp.
        Triple-deferring _ _ (λ _ s h. h) (λ s h. h)
          (Triple-then _ _ (Preserves-quiet L _) (Preserves-quiet L _)))

    pub Preserves-save_dedicated_record :
        (r : DedicatedRecord)
        → Preserves (On L) (save_dedicated_record formats (unobserved records) r)
    unfolding save_dedicated_record unobserved
    Preserves-save_dedicated_record r = Triple-then _ _ (Preserves-quiet L _) (
        Triple-bind _ _ (Preserves-quiet L _) (λ names.
          Triple-then _ _ (Preserves-check_entries r names)
            (Triple-bind _ _ (Preserves-from_result _) (λ raw. Preserves-publish_record _ _))))

    pub Preserves-record_and_protect :
        (net : Addresses) (driver : Text) (i : Instance) (a : DedicatedAttachment) (qemu : Bool)
        → Preserves
            (On L)
            (record_and_protect net formats (observed shell) (unobserved records) driver i a qemu)
    unfolding record_and_protect
    Preserves-record_and_protect net driver i a qemu =
        Triple-then _ _ (Preserves-save_dedicated_record _)
          (Preserves-apply_dedicated_protection net formats i a qemu)
