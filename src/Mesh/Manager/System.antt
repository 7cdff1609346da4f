-- ===== src/Mesh/Manager/System.antt =====
-- The lighthouses with the calls in flight (internal/mesh/network_manager.go).
use hopssh.Base.{ℕ, suc, Bool, false, ◌||◌, Option, none, some, List, [], ◌∷◌, ◌==◌, if◌then◌else◌}
use hopssh.Base.Text.{Bytes, bytes_eq}
use hopssh.Mesh.Manager.{Network, Instance, Manager, Startup, GetResult, restarts}

-- The manager with, for each network, the starts in flight, the services that run, and those that
-- a StopNetwork has taken out of the map and not closed yet.
pub record System : Type 0 where
  pub manager : Manager
  pub in_flight : Bytes → ℕ
  pub live : Bytes → List Instance
  pub closing : Bytes → List Instance

abbrev pub empty_system : System
empty_system = record { manager = []; in_flight = λ _. 0; live = λ _. []; closing = λ _. [] }

-- The calls of the manager by their locked parts. A start finishes for the network that it began.
-- StopNetwork takes the entry out of the map under the lock, and closes its instance afterwards.
pub data Event : Type 0 where
  start_begins : Network → Event
  get_begins : Bytes → Event
  start_finishes : Startup → Network → Event
  stops : Bytes → Event
  closes : Bytes → Instance → Event

abbrev pub set_at {ℓ} : {A : Type ℓ} → Bytes → A → (Bytes → A) → Bytes → A
set_at k a f j = if bytes_eq k j then a else f j

abbrev pub close_all : ℕ → List Instance → List Instance
close_all service [] = []
close_all service (o ∷ live) =
    let rest = close_all service live in if o.service == service then rest else o ∷ rest

abbrev pub has_service : ℕ → List Instance → Bool
has_service service [] = false
has_service service (o ∷ live) = o.service == service || has_service service live

abbrev pub opened : Option Instance → List Instance → List Instance
opened none live = live
opened (some i) live = i ∷ live

abbrev pub started : Option Manager → Bytes → System → System
started none id s = s
started (some m) id s = record s {
  manager = m;
  in_flight = set_at id (suc (s.in_flight id)) s.in_flight;
}

abbrev pub got : GetResult × Manager → Bytes → System → System
got (restarts n, m) id s = started (some m) id s
got (_, m) id s = s

abbrev pub entry_of : Option Instance → Option (Option Instance)
entry_of none = none
entry_of (some i) = some (some i)
