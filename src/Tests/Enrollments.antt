-- ===== src/Tests/Enrollments.antt =====
-- The registry with two enrollments.
use hopssh.Base.{ℕ, ◌≡◌, refl, Bool, true, false, not, none, some, [], ◌∷◌, ◌==◌}
use hopssh.Base.Text.{Bytes, codes, bytes_eq, contains}
use hopssh.Registry.{
  Enrollment, State, absent, malformed, document, saved, main_failed, save_failed, get, save_locked,
  load_enrollment_registry, set_clipboard_sync, next_available_listen_port,
  assign_missing_listen_ports, port_used, assign_port, assign_loop, next_port_loop,
  read_enrollments_file,
}
use hopssh.Registry.Name.{validate_enrollment_name, matches_name_regex, reserved_names}
use hopssh.Registry.Rollback.{set_clipboard_sync_lost}
use hopssh.Registry.Persist.{load-damaged}
use hopssh.Registry.Ports.{PortsDistinct, SameButMissing, assign_missing_distinct}
use hopssh.Registry.Unique.{IsWellFormed}

abbrev enrolled : Bytes → ℕ → Enrollment
enrolled n port = record {
  name = n;
  node_id = codes "n1";
  network_id = [];
  endpoint = codes "https://hop";
  tun_mode = codes "kernel";
  ca_fingerprint = [];
  dns_domain = n;
  listen_port = port;
  clipboard_sync = false;
  enrolled_at = 7;
}

abbrev home : Enrollment
home = enrolled (codes "home") 4242

abbrev work : Enrollment
work = enrolled (codes "work") 0

abbrev two : State
two = record {
  enrollments = home ∷ work ∷ [];
  disk = record { main = document 1 (home ∷ work ∷ []); backup = absent };
}

abbrev lab : Enrollment
lab = enrolled (codes "lab") 4243

two-IsWellFormed : IsWellFormed two.enrollments
unfolding get bytes_eq validate_enrollment_name matches_name_regex reserved_names contains
two-IsWellFormed = record { distinct = (refl, (refl, tt)); valid = (refl, (refl, tt)) }

load-damaged_example :
    load_enrollment_registry
      (record (save_locked saved (home ∷ []) two.disk).0 { main = malformed })
    ≡ some (home ∷ [])
unfolding read_enrollments_file
load-damaged_example = load-damaged (home ∷ []) two.disk malformed (λ es e. cc)

set_clipboard_sync_lost_example :
    let s' = (set_clipboard_sync main_failed (codes "home") true two).0 in
    ((set_clipboard_sync main_failed (codes "home") true two).1 ≡ some save_failed)
    × (set_clipboard_sync saved (codes "home") true s' ≡ (s', none))
    × (s'.disk ≡ two.disk)
unfolding get bytes_eq
set_clipboard_sync_lost_example =
    set_clipboard_sync_lost saved (codes "home") true two {e = home} refl refl

-- Port 4242 is taken in the registry and 4243 by another process.
abbrev port_4243_busy : ℕ → Bool
port_4243_busy p = not (p == 4243)

next_port : next_available_listen_port port_4243_busy two.enrollments 4242 ≡ 4244
unfolding next_available_listen_port next_port_loop port_used
next_port = refl

assign_missing_distinct_example :
    let s' = (assign_missing_listen_ports saved port_4243_busy 4242 two).0 in
    PortsDistinct s'.enrollments × SameButMissing two.enrollments s'.enrollments
unfolding port_used
assign_missing_distinct_example =
    assign_missing_distinct saved port_4243_busy 4242 two (refl, (refl, tt))

assigned_port :
    (assign_missing_listen_ports saved port_4243_busy 4242 two).0.enrollments
    ≡ home ∷ enrolled (codes "work") 4244 ∷ []
unfolding assign_missing_listen_ports assign_loop assign_port next_available_listen_port
    next_port_loop port_used save_locked
assigned_port = refl
