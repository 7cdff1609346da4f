-- ===== src/Mesh/Manager/Calls.antt =====
-- What single calls find and leave of the lighthouses (internal/mesh/network_manager.go).
use hopssh.Base.{
  ℕ, ◌<◌, ◌≡◌, refl, ap, ◌∙◌, ◌≢◌, ◌↔◌, inl, inr, Option, none, some, List, [], ◌∷◌, arith,
  Bool-cases,
}
use hopssh.Base.Text.{Bytes, bytes_eq_refl}
use hopssh.Base.Dict.{lookup, lookup-insert, lookup-delete_key}
use hopssh.Db.Nodes.{Row}
use hopssh.Mesh.Dns.{CustomRecord, MeshDns}
use hopssh.Mesh.Manager.{
  instance_in, get_entry, Network, Instance, Manager, Startup, start_instance, finish_start,
  begin_start, GetResult, running, starting, no_lighthouse, restarts, begin_get, has_port, current,
  stop_network, panics, refresh_entry, refresh_instance, refresh_network,
}
use hopssh.Mesh.Manager.System.{System, Event, start_begins, start_finishes, stops}
use hopssh.Mesh.Manager.Lifecycle.{step, Reached, Agrees, Reached-AgreesAt}

module _ (lower : Bytes → Bytes) (networks : Bytes → Option Network) where
  -- What the answer of GetInstance says of the system.
  abbrev Tells : GetResult → Bytes → System → Type 0
  Tells (running i) id s = (s.live id ≡ i ∷ s.closing id) × (s.in_flight id ≡ 0)
  Tells starting id s = (s.live id ≡ s.closing id) × (s.in_flight id ≡ 1)
  Tells no_lighthouse id s = (s.live id ≡ s.closing id) × (s.in_flight id ≡ 0)
  Tells (restarts n) id s =
      (s.live id ≡ s.closing id)
      × (s.in_flight id ≡ 0)
      × (networks id ≡ some n)
      × (n.lighthouse_port ≢ none)

  get_entry-Tells :
      (e : Option (Option Instance)) (row : Option Network) (id : Bytes) (s : System)
      → networks id ≡ row
      → Agrees lower networks e (s.in_flight id) (s.live id) (s.closing id)
      → Tells (get_entry e row id s.manager).0 id s
  get_entry-Tells (some (some i)) row id s stored h = (h.1, h.0)
  get_entry-Tells (some none) row id s stored h = (h.1, h.0)
  get_entry-Tells none none id s stored h = (h.1, h.0)
  get_entry-Tells none (some n) id s stored h = elim (Bool-cases (has_port n)) [
    | inl p ↦ rw p (h.1, h.0, stored, λ none_set. ground (arith, none_set, p))
    | inr p ↦ rw p (h.1, h.0)
  ]

  -- In every state that is reached without a stop of a lighthouse that is starting, the first part
  -- of GetInstance returns the one instance that runs for the network besides those that are being
  -- closed, or says that it is starting where one start is in flight; else no other runs and none
  -- is in flight, and it begins a start if the network is stored with a lighthouse port, or finds
  -- no lighthouse.
  begin_get-Tells :
      (s : System)
      → Reached lower networks s
      → (id : Bytes) → Tells (begin_get networks id s.manager).0 id s
  unfolding begin_get
  begin_get-Tells s r id =
      get_entry-Tells (lookup id s.manager) (networks id) id s refl
        (Reached-AgreesAt lower networks s r id)

module _ (parse : Bytes → Option Bytes) (lower : Bytes → Bytes) (networks : Bytes → Option Network)
    (nodes : Option (List Row)) (customs : Option (List CustomRecord)) where
  refresh_instance-panics :
      (d : Option MeshDns) (i : Instance) (id : Bytes) (m : Manager)
      → refresh_instance parse lower nodes customs d i id m ≢ panics
  refresh_instance-panics none i id m h = absurd (ground arith)
  refresh_instance-panics (some d) i id m h = absurd (ground arith)

  refresh_entry-panics :
      (e : Option (Option Instance)) (k : ℕ) (live closing : List Instance) (id : Bytes)
      (m : Manager)
      → Agrees lower networks e k live closing
      → (refresh_entry parse lower nodes customs e id m ≡ panics) ↔ (0 < k)
  refresh_entry-panics none k live closing id m h = ground arith
  refresh_entry-panics (some none) k live closing id m h = ground arith
  refresh_entry-panics (some (some i)) k live closing id m h =
      (λ p. absurd (refresh_instance-panics i.dns i id m p), λ p. absurd (ground arith))

  -- In every state that is reached without a stop of a lighthouse that is starting: RefreshDNS of a
  -- network panics exactly if a start of it is in flight.
  pub refresh_network-panics :
      (s : System)
      → Reached lower networks s
      → (id : Bytes)
      → (refresh_network parse lower nodes customs id s.manager ≡ panics) ↔ (0 < s.in_flight id)
  unfolding refresh_network
  refresh_network-panics s r id =
      refresh_entry-panics (lookup id s.manager) (s.in_flight id) (s.live id) (s.closing id) id
        s.manager (Reached-AgreesAt lower networks s r id)

module _ (lower : Bytes → Bytes) (networks : Bytes → Option Network) where
  -- A list of events, in their order.
  abbrev pub run : List Event → System → System
  run [] s = s
  run (v ∷ vs) s = run vs (step lower networks v s)

  start-run :
      (n : Network) (s : System)
      → lookup n.id s.manager ≡ none
      → (lookup n.id (step lower networks (start_begins n) s).manager ≡ some none)
        × ((step lower networks (start_begins n) s).live n.id ≡ s.live n.id)
        × ((step lower networks (start_begins n) s).closing n.id ≡ s.closing n.id)
  unfolding step begin_start
  start-run n s e =
      rw (e) (lookup-insert n.id n.id none s.manager ∙ rw (bytes_eq_refl n.id) refl, refl, refl)

  stop-run :
      (id : Bytes) (s : System)
      → lookup id s.manager ≡ some none
      → (lookup id (step lower networks (stops id) s).manager ≡ none)
        × ((step lower networks (stops id) s).live id ≡ s.live id)
        × ((step lower networks (stops id) s).closing id ≡ s.closing id)
  unfolding step stop_network current
  stop-run id s e =
      rw (bytes_eq_refl id, e)
        (lookup-delete_key id id s.manager ∙ rw (bytes_eq_refl id) refl, refl, refl)

  finish-run :
      (startup : Startup) (n : Network) (s : System) (i : Instance)
      → start_instance lower startup n ≡ some i
      → (lookup n.id (step lower networks (start_finishes startup n) s).manager ≡ some (some i))
        × ((step lower networks (start_finishes startup n) s).live n.id ≡ i ∷ s.live n.id)
        × ((step lower networks (start_finishes startup n) s).closing n.id ≡ s.closing n.id)
  unfolding step finish_start
  finish-run startup n s i e =
      rw (e, bytes_eq_refl n.id)
        (lookup-insert n.id n.id (some i) s.manager ∙ rw (bytes_eq_refl n.id) refl, refl, refl)

  -- If a network without an entry is started, stopped, and its start finishes with an instance, the
  -- instance is the entry of the network and runs, though the stop came last of the calls, and the
  -- stop closes nothing.
  pub stop_during_start :
      (n : Network) (s : System) (startup : Startup) (i : Instance)
      → lookup n.id s.manager ≡ none
      → start_instance lower startup n ≡ some i
      → (current n.id (run (start_begins n ∷ stops n.id ∷ start_finishes startup n ∷ []) s).manager
          ≡ some i)
        × ((run (start_begins n ∷ stops n.id ∷ start_finishes startup n ∷ []) s).live n.id
            ≡ i ∷ s.live n.id)
        × ((run (start_begins n ∷ stops n.id ∷ start_finishes startup n ∷ []) s).closing n.id
            ≡ s.closing n.id)
  unfolding current
  stop_during_start n s startup i absent a =
      let begun = start-run n s absent in
      let s1 = step lower networks (start_begins n) s in
      let halted = stop-run n.id s1 begun.0 in
      let s2 = step lower networks (stops n.id) s1 in
      let done = finish-run startup n s2 i a in
      (ap instance_in done.0, cc (done.1, halted.1, begun.1), cc (done.2, halted.2, begun.2))
