-- ===== src/Dedicated/Evidence.antt =====
-- What the host shows to ensureQEMUDedicated of internal/driver/dedicated.go and to cleanupDedicated of
-- dedicated_state.go before they change its network.
use virtualis_agent.Common.{ℕ, true, false, List, [], ◌∷◌, ◌++◌, Result, ok, err, ◌≡◌, refl}
use virtualis_agent.Common.Sorting.{Among, here, there}
use virtualis_agent.Common.Text.{Text}
use virtualis_agent.Shell.{Shell}
use virtualis_agent.Backend.{Attempt, ◌>>=◌, ◌>>◌, unless}
use virtualis_agent.Firewall.{Addresses}
use virtualis_agent.Dedicated.{Formats, HostAddress, Route, DedicatedAttachment, owned_bridge}
use virtualis_agent.Dedicated.Attach.{all_owned}
use virtualis_agent.Dedicated.Ensure.{
  link_query, route_query, links_in, links_named, first_owned, check_owned_route, bridge_commands,
  route_commands,
}
use virtualis_agent.Dedicated.Cleanup.{cleanup_commands}
use virtualis_agent.Dedicated.Log.{Step, asked, ran, Log, is_change, observed, On, Stable}
use virtualis_agent.Dedicated.Triples.{
  Triple, After, Triple-bind, Triple-then, Triple-weaken, Triple-from_result, Triple-unless,
}

-- Every change was allowed when it was made.
pub data Guarded (J : List Text → Log → Type 0) : Log → Type 0 where
  blank : Guarded J []
  harmless : {e : Step} {l : Log} → is_change e ≡ false → Guarded J l → Guarded J (e ∷ l)
  allowed : {args : List Text} {l : Log} → J args l → Guarded J l → Guarded J (ran args ∷ l)

module _ (formats : Formats) where
  -- The host has shown that the instance's bridge is missing or carries the instance's mark.
  pub record LinkSeen (id : ℕ) (l : Log) : Type 0 where
    pub answer : Result Text
    pub shown : Among (asked (link_query (owned_bridge id)) answer) l
    pub links : List HostAddress
    pub read : links_in formats answer ≡ ok links
    pub owned : first_owned id links ≡ true

  -- The host has shown that every route to the address is the instance's.
  pub record RouteSeen (id : ℕ) (ip : Text) (l : Log) : Type 0 where
    pub answer : Text
    pub shown : Among (asked (route_query ip) (ok answer)) l
    pub routes : List Route
    pub read : formats.decode_routes answer ≡ ok routes
    pub owned : all_owned (owned_bridge id) routes ≡ true

  -- What may be run to set up an instance's address.
  pub record SetsUp (id : ℕ) (args : List Text) (l : Log) : Type 0 where
    pub attachment : DedicatedAttachment
    pub listed : Among args (bridge_commands id ++ route_commands id attachment)
    pub link : LinkSeen id l
    pub route : RouteSeen id attachment.ip l

  -- What may be run to clean it up.
  pub record CleansUp (id : ℕ) (args : List Text) (l : Log) : Type 0 where
    pub attachment : DedicatedAttachment
    pub listed : Among args (cleanup_commands id attachment)
    pub link : LinkSeen id l

  pub later_link : (id : ℕ) (e : Step) (l : Log) → LinkSeen id l → LinkSeen id (e ∷ l)
  later_link id e l s = record {
    answer = s.answer;
    shown = there s.shown;
    links = s.links;
    read = s.read;
    owned = s.owned;
  }

  pub later_route :
      (id : ℕ) (ip : Text) (e : Step) (l : Log) → RouteSeen id ip l → RouteSeen id ip (e ∷ l)
  later_route id ip e l s = record {
    answer = s.answer;
    shown = there s.shown;
    routes = s.routes;
    read = s.read;
    owned = s.owned;
  }

  -- What the host has answered to the query of the instance's bridge.
  record LinkRead (id : ℕ) (links : List HostAddress) (l : Log) : Type 0 where
    answer : Result Text
    shown : Among (asked (link_query (owned_bridge id)) answer) l
    read : links_in formats answer ≡ ok links

  abbrev seen_link :
      (id : ℕ) (links : List HostAddress) (l : Log)
      → LinkRead id links l
      → first_owned id links ≡ true
      → LinkSeen id l
  seen_link id links l k owned = record {
    answer = k.answer;
    shown = k.shown;
    links = links;
    read = k.read;
    owned = owned;
  }

  query_answered :
      {W : Type 0} (L : Log → Type 0) (id : ℕ) (answer : Result Text)
      (r : Result (List HostAddress)) (w : W) (l : Log)
      → Among (asked (link_query (owned_bridge id)) answer) l
      → links_in formats answer ≡ r
      → L l
      → After (λ links. On (λ l. L l × LinkRead id links l)) (On L) (r, (w, l))
  query_answered L id answer (ok links) w l shown read h =
      (h, record { answer = answer; shown = shown; read = read })
  query_answered L id answer (err e) w l shown read h = h

  output_answered :
      {W : Type 0} (L : Log → Type 0) (args : List Text) (r : Result Text) (w : W) (l : Log)
      → L (asked args r ∷ l)
      → After
          (λ out. On (λ l. L l × Among (asked args (ok out)) l))
          (On L)
          (r, (w, asked args r ∷ l))
  output_answered L args (ok out) w l h = (h, here)
  output_answered L args (err e) w l h = h

  module _ {W : Type 0} (net : Addresses) (shell : Shell W) (L : Log → Type 0) (stable : Stable L)
      (id : ℕ) where
    Triple-links_named :
        Triple
          (On L)
          (links_named net formats (observed shell) (owned_bridge id))
          (λ links. On (λ l. L l × LinkRead id links l))
          (On L)
    unfolding links_named observed
    Triple-links_named = record {
      from = λ s h.
          let query = link_query (owned_bridge id) in
          let (answer, w') = shell.output query s.0 in
          query_answered L id answer (links_in formats answer) w' (asked query answer ∷ s.1) here
            refl (stable (asked query answer) s.1 refl h);
    }

    -- The query and the refusal of an interface that is not the instance's own.
    pub Triple-own_link :
        {A : Type 0} {Q : A → W × Log → Type 0} (e : Text)
        (m : List HostAddress → Attempt (W × Log) A)
        → ((links : List HostAddress) → Triple (On (λ l. L l × LinkSeen id l)) (m links) Q (On L))
        → Triple
            (On L)
            (links_named net formats (observed shell) (owned_bridge id)
              >>= (λ links. unless (first_owned id links) e >> m links))
            Q
            (On L)
    Triple-own_link e m k = Triple-bind _ _ Triple-links_named (λ links.
        Triple-then _ _
          (Triple-weaken _ (λ _ s (h, owned). (h.0, seen_link id links s.1 h.1 owned)) (λ s h. h.0)
            (Triple-unless (first_owned id links) e))
          (k links))

    pub Triple-check_owned_route :
        (ip : Text)
        → Triple
            (On L)
            (check_owned_route net formats (observed shell) ip (owned_bridge id))
            (λ _. On (λ l. L l × RouteSeen id ip l))
            (On L)
    unfolding check_owned_route observed
    Triple-check_owned_route ip =
        Triple-bind _ _
          (record {
            from = λ s h.
                let (r, w') = shell.output (route_query ip) s.0 in
                output_answered L (route_query ip) r w' s.1
                  (stable (asked (route_query ip) r) s.1 refl h);
          })
          (λ out.
            Triple-bind _ _
              (Triple-weaken _ (λ routes s h. h) (λ s h. h.0)
                (Triple-from_result (formats.decode_routes out)))
              (λ routes.
                Triple-weaken _
                  (λ _ s ((h, read), owned). (
                    h.0,
                    record {
                      answer = out;
                      shown = h.1;
                      routes = routes;
                      read = read;
                      owned = owned;
                    },
                  ))
                  (λ s h. h.0.0) (Triple-unless (all_owned (owned_bridge id) routes) _)))
