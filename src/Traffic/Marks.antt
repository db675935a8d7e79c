-- ===== src/Traffic/Marks.antt =====
-- The marks of a disconnection in the traffic file, as both drivers keep them: the network that
-- was taken away is remembered until it is given back.
use virtualis_agent.Common.{
  ℕ, ◌≡◌, refl, sym, ap, subst, ◌∙◌, Option, by_option, true, false, List, [], ◌∷◌, none, some,
  arith,
}
use virtualis_agent.Common.Int.{ℤ}
use virtualis_agent.Common.Map.{lookup-insert, eq_ℕ}
use virtualis_agent.Protocol.{NetworkConfig, rewritten_network, omit_empty}
use virtualis_agent.Traffic.{
  TrafficState, kept_state, holding, TrafficDir, observed, load_traffic_state,
  load_traffic_state_strict, save_traffic_state, observe_traffic, traffic_state_of,
  mark_traffic_disconnected, mark_traffic_reconnected,
}

-- What may happen to an instance's file while its network is away.
pub data Meanwhile : Type 0 where
  reading : (quota : ℤ) → (now_rx now_tx : ℕ) → Meanwhile
  again : NetworkConfig → (used : ℕ) → (quota : ℤ) → Meanwhile

unfoldable pub meanwhile : ℕ → Meanwhile → TrafficDir → TrafficDir
meanwhile id (reading quota rx tx) dir = (observe_traffic id quota rx tx dir).1
meanwhile id (again other used quota) dir = mark_traffic_disconnected id other used quota dir

unfoldable pub all_meanwhile : ℕ → List Meanwhile → TrafficDir → TrafficDir
unfolding meanwhile
all_meanwhile id [] dir = dir
all_meanwhile id (m ∷ ms) dir = all_meanwhile id ms (meanwhile id m dir)

-- A directory that the agent can read and write, with a file of an instance that holds a state.
record Keeps (id : ℕ) (original : NetworkConfig) (dir : TrafficDir) : Type 0 where
  present : dir.present ≡ true
  writable : dir.writable ≡ true
  state : TrafficState
  held : load_traffic_state_strict id dir ≡ some state
  away : state.disconnected ≡ true
  kept : state.original_network ≡ some (rewritten_network original)

omit_empty_twice {ℓ} :
    {A : Type ℓ} (xs : Option (List A)) → omit_empty (omit_empty xs) ≡ omit_empty xs
unfolding omit_empty
omit_empty_twice none = refl
omit_empty_twice (some []) = refl
omit_empty_twice (some (x ∷ xs)) = refl

-- A network that was read from a file is written as it is.
written_again :
    (o : Option NetworkConfig) (original : NetworkConfig)
    → o ≡ some (rewritten_network original)
    → by_option o none (λ n. some (rewritten_network n)) ≡ some (rewritten_network original)
written_again o original e =
    rw e (ap (λ d. some (record original { dns = d })) (omit_empty_twice original.dns))

pub save-load :
    (id : ℕ) (st : TrafficState) (dir : TrafficDir)
    → dir.present ≡ true
    → dir.writable ≡ true
    → load_traffic_state_strict id (save_traffic_state id st dir) ≡ some (kept_state st)
unfolding save_traffic_state load_traffic_state_strict
save-load id st dir p w =
    ground (arith, lookup-insert id id (holding (kept_state st)) dir.files, p, w)

save-Keeps :
    (id : ℕ) (original : NetworkConfig) (st : TrafficState) (dir : TrafficDir)
    → dir.present ≡ true
    → dir.writable ≡ true
    → st.disconnected ≡ true
    → (kept_state st).original_network ≡ some (rewritten_network original)
    → Keeps id original (save_traffic_state id st dir)
unfolding save_traffic_state
save-Keeps id original st dir p w a k = record {
  present = ground (arith, p, w);
  writable = ground (arith, p, w);
  state = kept_state st;
  held = save-load id st dir p w;
  away = a;
  kept = k;
}

observe_traffic-saves :
    (id : ℕ) (quota : ℤ) (rx tx : ℕ) (st : TrafficState) (dir : TrafficDir)
    → load_traffic_state_strict id dir ≡ some st
    → (observe_traffic id quota rx tx dir).1 ≡ save_traffic_state id (observed quota rx tx st) dir
unfolding observe_traffic
observe_traffic-saves id quota rx tx st dir h = rw h refl

observed-marks :
    (quota : ℤ) (rx tx : ℕ) (st : TrafficState)
    → ((observed quota rx tx st).disconnected ≡ st.disconnected)
      × ((observed quota rx tx st).original_network ≡ st.original_network)
unfolding observed
observed-marks quota rx tx st = (refl, refl)

again-Keeps :
    (id : ℕ) (original other : NetworkConfig) (used : ℕ) (quota : ℤ) (dir : TrafficDir)
    → Keeps id original dir
    → Keeps id original (mark_traffic_disconnected id other used quota dir)
unfolding mark_traffic_disconnected load_traffic_state
again-Keeps id original other used quota dir k =
    save-Keeps id original _ dir k.present k.writable refl
      (written_again _ original (rw k.held (rw k.kept refl)))

meanwhile-Keeps :
    (id : ℕ) (original : NetworkConfig) (m : Meanwhile) (dir : TrafficDir)
    → Keeps id original dir
    → Keeps id original (meanwhile id m dir)
unfolding meanwhile
meanwhile-Keeps id original (reading quota rx tx) dir k =
    let (a, b) = observed-marks quota rx tx k.state in
    subst (λ d. Keeps id original d) (sym (observe_traffic-saves id quota rx tx k.state dir k.held))
      (save-Keeps id original (observed quota rx tx k.state) dir k.present k.writable (a ∙ k.away)
        (written_again _ original (b ∙ k.kept)))
meanwhile-Keeps id original (again other used quota) dir k =
    again-Keeps id original other used quota dir k

all_meanwhile-Keeps :
    (id : ℕ) (original : NetworkConfig) (ms : List Meanwhile) (dir : TrafficDir)
    → Keeps id original dir
    → Keeps id original (all_meanwhile id ms dir)
unfolding all_meanwhile
all_meanwhile-Keeps id original [] dir k = k
all_meanwhile-Keeps id original (m ∷ ms) dir k =
    all_meanwhile-Keeps id original ms (meanwhile id m dir) (meanwhile-Keeps id original m dir k)

mark-Keeps :
    (id : ℕ) (original : NetworkConfig) (used : ℕ) (quota : ℤ) (dir : TrafficDir)
    → dir.present ≡ true
    → dir.writable ≡ true
    → (load_traffic_state id dir).original_network ≡ none
    → Keeps id original (mark_traffic_disconnected id original used quota dir)
unfolding mark_traffic_disconnected
mark-Keeps id original used quota dir p w n = save-Keeps id original _ dir p w refl (rw n refl)

Keeps-state_of :
    (id : ℕ) (original : NetworkConfig) (dir : TrafficDir)
    → Keeps id original dir
    → ((traffic_state_of id dir).0 ≡ true)
      × ((traffic_state_of id dir).1 ≡ some (rewritten_network original))
unfolding traffic_state_of load_traffic_state
Keeps-state_of id original dir k = rw k.held (k.away, k.kept)

-- In a directory that is present and writable, the network that a disconnection takes away, if none
-- is remembered yet, is what the driver reports afterwards, with the mark of the disconnection,
-- whatever readings and further disconnections of the instance come between; where its list of DNS
-- servers is empty, the file leaves it out.
pub disconnected-remembered :
    (id : ℕ) (original : NetworkConfig) (used : ℕ) (quota : ℤ) (ms : List Meanwhile)
    (dir : TrafficDir)
    → dir.present ≡ true
    → dir.writable ≡ true
    → (load_traffic_state id dir).original_network ≡ none
    → let after = all_meanwhile id ms (mark_traffic_disconnected id original used quota dir) in
      ((traffic_state_of id after).0 ≡ true)
      × ((traffic_state_of id after).1 ≡ some (rewritten_network original))
disconnected-remembered id original used quota ms dir p w n =
    Keeps-state_of id original _
      (all_meanwhile-Keeps id original ms _ (mark-Keeps id original used quota dir p w n))

-- A reconnection in a directory that is present and writable, where the file of the instance can be
-- read or is missing, clears the mark and the remembered network of the instance and keeps the used
-- bytes, the counters last read and the quota that the file held.
pub reconnected-state :
    (id : ℕ) (st : TrafficState) (dir : TrafficDir)
    → dir.present ≡ true
    → dir.writable ≡ true
    → load_traffic_state_strict id dir ≡ some st
    → load_traffic_state_strict id (mark_traffic_reconnected id dir)
      ≡ some (record st { disconnected = false; original_network = none })
unfolding mark_traffic_reconnected load_traffic_state
reconnected-state id st dir p w e =
    rw e (save-load id (record st { disconnected = false; original_network = none }) dir p w)
