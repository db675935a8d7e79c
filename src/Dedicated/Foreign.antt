-- ===== src/Dedicated/Foreign.antt =====
-- ensureQEMUDedicated of internal/driver/dedicated.go and cleanupDedicated of dedicated_state.go touch
-- no interface and no route of others.
use virtualis_agent.Common.{
  ℕ, Bool, true, false, ◌&&◌, List, [], ◌∷◌, ◌++◌, ok, err, if◌then◌else◌, by_result,
}
use virtualis_agent.Common.Sorting.{Among, here, there, append-Among, after-Among}
use virtualis_agent.Common.Text.{Text, text, is, is_empty}
use virtualis_agent.Protocol.{Instance}
use virtualis_agent.Shell.{Shell}
use virtualis_agent.Backend.{Attempt, ◌>>◌, from_result}
use virtualis_agent.Firewall.{Addresses, validate_firewall}
use virtualis_agent.Dedicated.{Formats, HostAddress, DedicatedAttachment, absent_network_error}
use virtualis_agent.Dedicated.Records.{Records, record_name}
use virtualis_agent.Dedicated.Ensure.{
  record_and_protect, or_absent, run_all, bridge_commands, route_commands, ensure_routed,
  ensure_qemu_dedicated,
}
use virtualis_agent.Dedicated.Cleanup.{
  cleanup_commands, clear_dedicated_protection, remove_routed, cleanup_recorded, cleanup_dedicated,
}
use virtualis_agent.Dedicated.Log.{
  ran, Log, observed, unobserved, On, Stable, Preserves-besides, Preserves-quiet,
}
use virtualis_agent.Dedicated.Calm.{
  Preserves-require_sysctl, Preserves-ensure_bridge_filtering, Preserves-resolve_dedicated,
  Preserves-record_and_protect, Preserves-load_dedicated_record, Preserves-with_tables,
  Preserves-restore_owned_table,
}
use virtualis_agent.Dedicated.Evidence.{
  Guarded, blank, harmless, allowed, LinkSeen, RouteSeen, SetsUp, CleansUp, later_link, later_route,
  Triple-own_link, Triple-check_owned_route,
}
use virtualis_agent.Dedicated.Triples.{
  Preserves, Triple-bind, Triple-then, Triple-weaken, Preserves-succeed, Preserves-from_result,
  Preserves-state, Preserves-if, Preserves-option, Preserves-call_onward, Preserves-PreservesCall,
  Preserves-by_result,
}

Among-if :
    {A : Type 0} (x : A) (b : Bool) (xs : List A) → Among x (if b then xs else []) → Among x xs
Among-if x true xs m = m
Among-if x false xs m = elim m [ ]

module _ {W : Type 0} (P : W → Type 0) where
  Preserves-run_all :
      (run : List Text → Attempt W (Unit {0})) (commands : List (List Text))
      → ((args : List Text) → Among args commands → Preserves P (run args))
      → Preserves P (run_all run commands)
  unfolding run_all
  Preserves-run_all run [] k = Preserves-succeed tt
  Preserves-run_all run (args ∷ rest) k =
      Triple-then _ _ (k args here) (Preserves-run_all run rest (λ other m. k other (there m)))

  Preserves-or_absent :
      {A : Type 0} (a : A) (m : Attempt W A) → Preserves P m → Preserves P (or_absent a m)
  unfolding or_absent from_result
  Preserves-or_absent a m k =
      Preserves-call_onward m
        (λ r w.
          by_result r (λ e. from_result (if absent_network_error e then ok a else err e) w)
            (λ x. from_result (ok x) w))
        (Preserves-PreservesCall m k)
        (λ r.
          Preserves-by_result r _ _ (λ e. Preserves-from_result _) (λ x. Preserves-from_result _))

Guarded-Stable : (J : List Text → Log → Type 0) → Stable (Guarded J)
Guarded-Stable J e l calm g = harmless calm g

module _ {W : Type 0} (net : Addresses) (formats : Formats) (shell : Shell W)
    (records : Records W) where
  module _ (i : Instance) where
    abbrev J : List Text → Log → Type 0
    J = SetsUp formats i.id

    -- The log once bridge and routes were seen.
    abbrev Seen : DedicatedAttachment → Log → Type 0
    Seen a l = (Guarded J l × RouteSeen formats i.id a.ip l) × LinkSeen formats i.id l

    Seen-Stable : (a : DedicatedAttachment) → Stable (Seen a)
    Seen-Stable a e l calm ((g, route), link) = (
      (harmless calm g, later_route formats i.id a.ip e l route),
      later_link formats i.id e l link,
    )

    setup_run :
        (a : DedicatedAttachment) (args : List Text)
        → Among args (bridge_commands i.id ++ route_commands i.id a)
        → Preserves (On (Seen a)) ((observed shell).run args)
    unfolding observed
    setup_run a args m = Preserves-besides (Seen a) _ _ (λ r l ((g, route), link). (
      (
        allowed (record { attachment = a; listed = m; link = link; route = route }) g,
        later_route formats i.id a.ip (ran args) l route,
      ),
      later_link formats i.id (ran args) l link,
    ))

    -- What follows the queries.
    Preserves-set_up :
        (a : DedicatedAttachment) (links : List HostAddress)
        → Preserves (On (Seen a)) (
            from_result (validate_firewall net i)
            >> (record_and_protect net formats
                  (observed shell)
                  (unobserved records)
                  (text "qemu")
                  i
                  a
                  true
                >> (run_all
                      (observed shell).run
                      (if is_empty links then bridge_commands i.id else [])
                    >> run_all (observed shell).run (route_commands i.id a))))
    Preserves-set_up a links = Triple-then _ _ (Preserves-from_result _) (
        Triple-then _ _
          (Preserves-record_and_protect (Seen a) (Seen-Stable a) shell formats records net _ i a
            true)
          (Triple-then _ _
            (Preserves-run_all _ _ _ (λ args m.
              setup_run a args (append-Among args _ _ (Among-if args (is_empty links) _ m))))
            (Preserves-run_all _ _ _
              (λ args m. setup_run a args (after-Among args (bridge_commands i.id) _ m)))))

    ensure_routed-Guarded :
        (a : DedicatedAttachment)
        → Preserves
            (On (Guarded J))
            (ensure_routed net formats (observed shell) (unobserved records) i a)
    unfolding ensure_routed
    ensure_routed-Guarded a =
        let stable = Guarded-Stable J in
        let sysctl = Preserves-require_sysctl (Guarded J) stable shell net formats in
        Triple-then _ _ (sysctl _) (
          Triple-then _ _ (sysctl _) (
            Triple-then _ _
              (Triple-check_owned_route formats net shell (Guarded J) stable i.id a.ip)
              (Triple-weaken _ (λ _ s h. h.0) (λ s h. h.0)
                (Triple-own_link formats net shell
                  (λ l. Guarded J l × RouteSeen formats i.id a.ip l)
                  (λ e l calm (g, route).
                    (harmless calm g, later_route formats i.id a.ip e l route))
                  i.id _ _
                  (λ links.
                    Triple-weaken _ (λ _ s h. h.0) (λ s h. h.0) (Preserves-set_up a links))))))

    -- Whatever the host answers: when a command of `ip` is run to set up an instance's address, the
    -- host has shown before that the instance's bridge is missing or carries the instance's mark and
    -- that every route to that address is the instance's own, and the command is one of those that
    -- make this bridge and lead this address to it.
    pub ensure_qemu_dedicated-Guarded :
        (w : W)
        → Guarded J
            (ensure_qemu_dedicated net formats (observed shell) (unobserved records) i (w, [])).1.1
    unfolding ensure_qemu_dedicated
    ensure_qemu_dedicated-Guarded w =
        let stable = Guarded-Stable J in
        Preserves-state {P = On (Guarded J)} _
          (Triple-bind _ _
            (Preserves-resolve_dedicated (Guarded J) stable shell net formats i.network)
            (λ a.
              Preserves-if (is a.mode "bridge") _ _
                (Triple-then _ _
                  (Preserves-ensure_bridge_filtering (Guarded J) stable shell net formats)
                  (Preserves-record_and_protect (Guarded J) stable shell formats records net _ i a
                    true))
                (ensure_routed-Guarded a)))
          (w, []) blank

  module _ (id : ℕ) where
    abbrev K : List Text → Log → Type 0
    K = CleansUp formats id

    cleanup_run :
        (a : DedicatedAttachment) (args : List Text)
        → Among args (cleanup_commands id a)
        → Preserves (On (λ l. Guarded K l × LinkSeen formats id l)) ((observed shell).run args)
    unfolding observed
    cleanup_run a args m =
        Preserves-besides (λ l. Guarded K l × LinkSeen formats id l) _ _
          (λ r l (g, link). (
            allowed (record { attachment = a; listed = m; link = link }) g,
            later_link formats id (ran args) l link,
          ))

    remove_routed-Guarded :
        (a : DedicatedAttachment)
        → Preserves (On (Guarded K)) (remove_routed net formats (observed shell) id a)
    unfolding remove_routed
    remove_routed-Guarded a =
        Triple-own_link formats net shell (Guarded K) (Guarded-Stable K) id _ _ (λ links.
          Triple-weaken _ (λ _ s h. h.0) (λ s h. h.0)
            (Preserves-run_all _ _ _ (λ args m. Preserves-or_absent _ tt _ (cleanup_run a args m))))

    -- Whatever the host answers: when a command of `ip` is run to clean up after an instance, the host
    -- has shown before that the instance's bridge is missing or carries the instance's mark, and the
    -- command is one of those that remove this bridge, a route by it and a proxy entry.
    pub cleanup_dedicated-Guarded :
        (w : W)
        → Guarded K
            (cleanup_dedicated net formats (observed shell) (unobserved records) id (w, [])).1.1
    unfolding cleanup_dedicated cleanup_recorded clear_dedicated_protection unobserved
    cleanup_dedicated-Guarded w =
        let stable = Guarded-Stable K in
        Preserves-state {P = On (Guarded K)} _
          (Triple-bind _ _
            (Preserves-load_dedicated_record (Guarded K) stable shell formats records id)
            (λ found. Preserves-option found _ _ (Preserves-succeed tt) (λ r.
              Triple-then _ _
                (Preserves-if (is r.driver "qemu" && is r.attachment.mode "routed") _ _
                  (remove_routed-Guarded r.attachment) (Preserves-succeed tt))
                (Triple-then _ _
                  (Preserves-with_tables (Guarded K) stable shell net formats _ _
                    (Preserves-restore_owned_table (Guarded K) stable shell net formats _ _ _ _))
                  (Preserves-quiet (Guarded K) (records.remove (record_name id)))))))
          (w, []) blank
