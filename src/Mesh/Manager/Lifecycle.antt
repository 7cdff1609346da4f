-- ===== src/Mesh/Manager/Lifecycle.antt =====
-- The starts and stops of lighthouses in any order (internal/mesh/network_manager.go).
use hopssh.Base.{
  ℕ, suc, ◌-◌, ◌<◌, ◌≡◌, refl, ap, ◌∙◌, true, false, inl, inr, Option, none, some, List, [], ◌∷◌,
  arith, ◌==◌, if◌then◌else◌, Bool-cases, Option-cases,
}
use hopssh.Base.Text.{Bytes, bytes_eq, bytes_eq_iff}
use hopssh.Base.Dict.{lookup, insert, lookup-insert, lookup-delete_key}
use hopssh.Mesh.Manager.{
  Network, Instance, Manager, Startup, start_instance, finish, finish_start, begin_start, begin_get,
  restart_of, has_port, instance_in, current, stop_network,
}
use hopssh.Mesh.Manager.System.{
  System, empty_system, Event, start_begins, get_begins, start_finishes, stops, closes, set_at,
  close_all, has_service, opened, started, got, entry_of,
}

module _ (lower : Bytes → Bytes) (networks : Bytes → Option Network) where
  unfoldable pub step : Event → System → System
  step (start_begins n) s = started (begin_start n s.manager) n.id s
  step (get_begins id) s = got (begin_get networks id s.manager) id s
  step (start_finishes startup n) s = record {
    manager = finish_start lower startup n s.manager;
    in_flight = set_at n.id (s.in_flight n.id - 1) s.in_flight;
    live = set_at n.id (opened (start_instance lower startup n) (s.live n.id)) s.live;
    closing = s.closing;
  }
  step (stops id) s = record {
    manager = (stop_network id s.manager).0;
    in_flight = s.in_flight;
    live = s.live;
    closing = set_at id (opened (stop_network id s.manager).1 (s.closing id)) s.closing;
  }
  step (closes id i) s = record {
    manager = s.manager;
    in_flight = s.in_flight;
    live = set_at id (close_all i.service (s.live id)) s.live;
    closing = set_at id (close_all i.service (s.closing id)) s.closing;
  }

  -- A service that starts is a new one.
  abbrev IsFresh : Option Instance → List Instance → Type 0
  IsFresh none live = Unit
  IsFresh (some i) live = has_service i.service live ≡ false

  -- A start finishes only if one is in flight, no stop meets one, and what is closed was stopped.
  abbrev Orderly : Event → System → Type 0
  Orderly (start_begins n) s = Unit
  Orderly (get_begins id) s = Unit
  Orderly (start_finishes startup n) s =
      (0 < s.in_flight n.id) × IsFresh (start_instance lower startup n) (s.live n.id)
  Orderly (stops id) s = s.in_flight id ≡ 0
  Orderly (closes id i) s = has_service i.service (s.closing id) ≡ true

  pub data Reached : System → Type 0 where
    from_empty : Reached empty_system
    steps : {s : System} (v : Event) → Reached s → Orderly v s → Reached (step v s)

  -- An entry of the map agrees with what is in flight, what runs and what is to be closed.
  abbrev pub Agrees : Option (Option Instance) → ℕ → List Instance → List Instance → Type 0
  Agrees none k live closing = (k ≡ 0) × (live ≡ closing)
  Agrees (some none) k live closing = (k ≡ 1) × (live ≡ closing)
  Agrees (some (some i)) k live closing =
      (k ≡ 0) × (live ≡ i ∷ closing) × (has_service i.service closing ≡ false)

  abbrev pub AgreesAt : Bytes → System → Type 0
  AgreesAt id s = Agrees (lookup id s.manager) (s.in_flight id) (s.live id) (s.closing id)

  Agrees-none :
      (e : Option (Option Instance)) (k : ℕ) (live closing : List Instance)
      → e ≡ none
      → Agrees e k live closing
      → Agrees none k live closing
  Agrees-none none k live closing n h = h
  Agrees-none (some e) k live closing n h = absurd (ground arith)

  Agrees-stopped :
      (e : Option (Option Instance)) (k : ℕ) (live closing : List Instance)
      → k ≡ 0
      → Agrees e k live closing
      → Agrees none k live (opened (instance_in e) closing)
  Agrees-stopped none k live closing z h = h
  Agrees-stopped (some none) k live closing z h = absurd (ground arith)
  Agrees-stopped (some (some i)) k live closing z h = (z, h.1)

  has_service-close_all :
      (i service : ℕ) (live : List Instance)
      → has_service i live ≡ false
      → has_service i (close_all service live) ≡ false
  has_service-close_all i service [] h = refl
  has_service-close_all i service (o ∷ live) h =
      ground (arith, has_service-close_all i service live)

  has_service-others :
      (i service : ℕ) (live : List Instance)
      → has_service i live ≡ false
      → has_service service live ≡ true
      → (i == service) ≡ false
  has_service-others i service [] h k = absurd (ground arith)
  has_service-others i service (o ∷ live) h k = ground (arith, has_service-others i service live)

  Agrees-closed :
      (e : Option (Option Instance)) (k : ℕ) (live closing : List Instance) (service : ℕ)
      → has_service service closing ≡ true
      → Agrees e k live closing
      → Agrees e k (close_all service live) (close_all service closing)
  Agrees-closed none k live closing service z h = (h.0, ap (close_all service) h.1)
  Agrees-closed (some none) k live closing service z h = (h.0, ap (close_all service) h.1)
  Agrees-closed (some (some i)) k live closing service z h =
      let other = has_service-others i.service service closing h.2 z in
      (
        h.0,
        ap (close_all service) h.1 ∙ rw other refl,
        has_service-close_all i.service service closing h.2,
      )

  -- What a start in flight has left there.
  Agrees-in_flight :
      (e : Option (Option Instance)) (k : ℕ) (live closing : List Instance)
      → 0 < k
      → Agrees e k live closing
      → (e ≡ some none) × (k ≡ 1) × (live ≡ closing)
  Agrees-in_flight none k live closing z h = absurd (ground arith)
  Agrees-in_flight (some none) k live closing z h = (refl, h.0, h.1)
  Agrees-in_flight (some (some i)) k live closing z h = absurd (ground arith)

  lookup-finish :
      (i : Option Instance) (id j : Bytes) (m : Manager)
      → lookup id m ≡ some none
      → lookup j (finish lower i id m) ≡ (if bytes_eq id j then entry_of i else lookup j m)
  lookup-finish none id j m e = rw e (lookup-delete_key id j m)
  lookup-finish (some i) id j m e = lookup-insert id j (some i) m

  Agrees-started :
      (i : Option Instance) (live closing : List Instance)
      → live ≡ closing
      → IsFresh i live
      → Agrees (entry_of i) 0 (opened i live) closing
  Agrees-started none live closing e f = (refl, e)
  Agrees-started (some i) live closing e f = (refl, ap (λ l. i ∷ l) e, rw e at f)

  finish-AgreesAt :
      (startup : Startup) (n : Network) (s : System) (j : Bytes)
      → Orderly (start_finishes startup n) s
      → ((i : Bytes) → AgreesAt i s)
      → AgreesAt j (step (start_finishes startup n) s)
  unfolding step finish_start
  finish-AgreesAt startup n s j z h = elim (Bool-cases (bytes_eq n.id j)) [
    | inl e ↦
        let same : n.id ≡ j = (bytes_eq_iff n.id j).0 e in
        rw (lookup-finish (start_instance lower startup n) n.id j s.manager was.0, e)
          (rw (was.1, ← same)
            (Agrees-started (start_instance lower startup n) (s.live n.id) (s.closing n.id) was.2
              z.1))
    | inr e ↦ rw (lookup-finish (start_instance lower startup n) n.id j s.manager was.0, e) (h j)
  ]
    where
      was :
          (lookup n.id s.manager ≡ some none)
          × (s.in_flight n.id ≡ 1)
          × (s.live n.id ≡ s.closing n.id)
      was =
          Agrees-in_flight (lookup n.id s.manager) (s.in_flight n.id) (s.live n.id) (s.closing n.id)
            z.0 (h n.id)

  AgreesAt-plant :
      (id : Bytes) (s : System) (j : Bytes)
      → lookup id s.manager ≡ none
      → ((i : Bytes) → AgreesAt i s)
      → AgreesAt j (started (some (insert id none s.manager)) id s)
  AgreesAt-plant id s j e h = elim (Bool-cases (bytes_eq id j)) [
    | inl i ↦
        let same : id ≡ j = (bytes_eq_iff id j).0 i in
        let was =
          Agrees-none (lookup id s.manager) (s.in_flight id) (s.live id) (s.closing id) e (h id) in
        rw (lookup-insert id j none s.manager, i) (ap suc was.0, rw (← same) was.1)
    | inr i ↦ rw (lookup-insert id j none s.manager, i) (h j)
  ]

  stop-AgreesAt :
      (id : Bytes) (s : System) (j : Bytes)
      → Orderly (stops id) s
      → ((i : Bytes) → AgreesAt i s)
      → AgreesAt j (step (stops id) s)
  unfolding step stop_network current
  stop-AgreesAt id s j o h = elim (Bool-cases (bytes_eq id j)) [
    | inl i ↦
        rw (lookup-delete_key id j s.manager, i)
          (rw (← (bytes_eq_iff id j).0 i) (
            Agrees-stopped (lookup id s.manager) (s.in_flight id) (s.live id) (s.closing id) o
              (h id)))
    | inr i ↦ rw (lookup-delete_key id j s.manager, i) (h j)
  ]

  close-AgreesAt :
      (id : Bytes) (i : Instance) (s : System) (j : Bytes)
      → Orderly (closes id i) s
      → ((i : Bytes) → AgreesAt i s)
      → AgreesAt j (step (closes id i) s)
  unfolding step
  close-AgreesAt id i s j o h = elim (Bool-cases (bytes_eq id j)) [
    | inl e ↦ rw e (
        rw (← (bytes_eq_iff id j).0 e) (
          Agrees-closed (lookup id s.manager) (s.in_flight id) (s.live id) (s.closing id) i.service
            o (h id)))
    | inr e ↦ rw e (h j)
  ]

  start-AgreesAt :
      (n : Network) (s : System) (j : Bytes)
      → ((i : Bytes) → AgreesAt i s)
      → AgreesAt j (step (start_begins n) s)
  unfolding step begin_start
  start-AgreesAt n s j h = elim (Option-cases (lookup n.id s.manager)) [
    | inl e ↦ rw e (AgreesAt-plant n.id s j e h)
    | inr (o, e) ↦ rw e (h j)
  ]

  get-AgreesAt :
      (id : Bytes) (s : System) (j : Bytes)
      → ((i : Bytes) → AgreesAt i s)
      → AgreesAt j (step (get_begins id) s)
  unfolding step begin_get
  get-AgreesAt id s j h = elim (Option-cases (lookup id s.manager)) [
    | inr (some i, e) ↦ rw e (h j)
    | inr (none, e) ↦ rw e (h j)
    | inl e ↦ rw e (restart (networks id) e)
  ]
    where
      restart :
          (row : Option Network)
          → lookup id s.manager ≡ none
          → AgreesAt j (got (restart_of row id s.manager) id s)
      restart none e = h j
      restart (some n) e = elim (Bool-cases (has_port n)) [
        | inl p ↦ rw p (AgreesAt-plant id s j e h)
        | inr p ↦ rw p (h j)
      ]

  step-AgreesAt :
      (v : Event) (s : System)
      → Orderly v s
      → ((i : Bytes) → AgreesAt i s)
      → (j : Bytes) → AgreesAt j (step v s)
  step-AgreesAt (start_begins n) s o h j = start-AgreesAt n s j h
  step-AgreesAt (get_begins id) s o h j = get-AgreesAt id s j h
  step-AgreesAt (start_finishes startup n) s o h j = finish-AgreesAt startup n s j o h
  step-AgreesAt (stops id) s o h j = stop-AgreesAt id s j o h
  step-AgreesAt (closes id i) s o h j = close-AgreesAt id i s j o h

  -- In every state that is reached without a stop of a lighthouse that is starting: a network has
  -- no entry and no start of it is in flight, or a nil entry and exactly one start of it is, and in
  -- both cases what runs for it is what stops have taken out of the map and not closed yet; or it
  -- has an instance, no start is in flight, and besides those the instance, which is none of them,
  -- is the only one that runs.
  pub Reached-AgreesAt : (s : System) → Reached s → (id : Bytes) → AgreesAt id s
  unfolding lookup
  Reached-AgreesAt _ from_empty id = (refl, refl)
  Reached-AgreesAt _ (steps v r o) id = step-AgreesAt v _ o (Reached-AgreesAt _ r) id
