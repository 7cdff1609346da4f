-- ===== src/Tests/Lighthouses.antt =====
-- The lighthouses, their DNS and the event hub.
use hopssh.Base.{
  arith, ℕ, ◌-◌, ◌≤◌, ◌<◌, ◌≡◌, refl, ◌↔◌, ◌⊎◌, true, false, not, ◌&&◌, Option, none, some, List,
  [], ◌∷◌, ◌++◌, if◌then◌else◌, length,
}
use hopssh.Base.Text.{Bytes, codes, bytes_eq}
use hopssh.Base.Dict.{lookup, insert}
use hopssh.Base.Int.{pos}
use hopssh.Db.Nodes.{Row}
use hopssh.Db.Nodes
use hopssh.Mesh.Dns.{
  answer_to, set_records, put_records, node_records, custom_records, is_served, node_name,
  parse_node_ip, cut_mask, has_suffix, trim_suffix, resolve, MeshDns, Question, ARecord,
  CustomRecord, type_a, to4, found, handle_query, refresh_dns, suffix,
}
use hopssh.Mesh.Dns.Answer.{served_ip, query_answered}
use hopssh.Mesh.Manager.{
  base_lighthouse_port, Network, Instance, up, start_instance, panics, refresh_network, current,
}
use hopssh.Mesh.Manager.System.{System, empty_system, start_begins, start_finishes, stops}
use hopssh.Mesh.Manager.Lifecycle.{step, Reached, from_empty, steps, AgreesAt, Reached-AgreesAt}
use hopssh.Mesh.Manager.Calls.{run, refresh_network-panics, stop_during_start}
use hopssh.Mesh.Manager.Ports.{
  first_available_lighthouse_port, next_port, uses, allocate_port, allocated, IsNext,
  allocate_port-IsNext,
}
use hopssh.Mesh.Manager.Reap.{
  reap_idle_instances, answers_of, is_running, is_of, is_pending, any_row, all_silent,
  reap_stops_idle,
}
use hopssh.Base.Dict.{KeysDistinct}
use hopssh.Api.Events.{
  EventHub, new_event_hub, subscribe, publish, offered, capacity, unsubscribe, send, subs_of,
  without, close, set_channel,
}
use hopssh.Api.Events.Delivery.{set_owner}
use hopssh.Api.Events.Calls.{now, subscribed, unsubscribed}
use hopssh.Api.Events.Publish.{publish_delivers, send-after_unsubscribe, is_owner}
use hopssh.Api.Events

abbrev lower : Bytes → Bytes
lower s = s

abbrev parse : Bytes → Option Bytes
parse s = if bytes_eq s (codes "10.42.1.2") then some (10 ∷ 42 ∷ 1 ∷ 2 ∷ []) else none

abbrev box : Row
box = record {
  id = codes "n1";
  network_id = codes "net";
  hostname = codes "box";
  os = codes "linux";
  arch = codes "arm64";
  nebula_cert = [];
  nebula_key = [];
  nebula_ip = some (codes "10.42.1.2/24");
  agent_token = [];
  enrollment_token = none;
  enrollment_expires_at = none;
  agent_real_ip = none;
  node_type = codes "node";
  dns_name = none;
  status = Nodes.online;
  last_seen_at = some 100;
  peers_direct = none;
  peers_relayed = none;
  peers_reported_at = none;
  peer_state = none;
  agent_version = none;
  client_type = none;
}

abbrev zero_dns : MeshDns
zero_dns = record { domain = codes "zero"; port = pos 15300; records = [] }

abbrev box_question : Question
box_question = record { name = codes "box.zero."; qtype = type_a }

abbrev box_answer : ARecord
box_answer = record { name = codes "box.zero."; ttl = 60; a = 10 ∷ 42 ∷ 1 ∷ 2 ∷ [] }

abbrev customs : Option (List CustomRecord)
customs = some []

query_answered_example :
    (handle_query lower
        (refresh_dns parse lower (some (box ∷ [])) customs zero_dns)
        (box_question ∷ [])
      ≡ box_answer ∷ [])
    ↔ ((host : Bytes) × (box_question.qtype ≡ type_a)
        × (lower box_question.name ≡ host ++ suffix zero_dns)
        × (to4 (found (served_ip lower parse (some (box ∷ [])) customs (lower host)))
            ≡ some box_answer.a)
        × (box_answer ≡ record { name = box_question.name; ttl = 60; a = box_answer.a }))
query_answered_example =
    query_answered lower parse (some (box ∷ [])) customs zero_dns box_question box_answer

box_answered :
    handle_query lower
      (refresh_dns parse lower (some (box ∷ [])) customs zero_dns)
      (box_question ∷ [])
    ≡ box_answer ∷ []
unfolding handle_query answer_to refresh_dns set_records put_records node_records custom_records
    is_served node_name parse_node_ip cut_mask has_suffix trim_suffix resolve to4 lookup insert
    bytes_eq
box_answered = refl

abbrev network : Network
network = record { id = codes "net"; lighthouse_port = some 42001; dns_domain = [] }

abbrev networks : Bytes → Option Network
networks id = some network

abbrev one_event : System
one_event = step lower networks (start_begins network) empty_system

starting_reached : Reached lower networks one_event
starting_reached = steps (start_begins network) from_empty tt

Reached-AgreesAt_example : AgreesAt lower networks (codes "net") one_event
Reached-AgreesAt_example = Reached-AgreesAt lower networks one_event starting_reached (codes "net")

refresh_network-panics_example :
    (refresh_network parse lower none none (codes "net") one_event.manager ≡ panics)
    ↔ (0 < one_event.in_flight (codes "net"))
refresh_network-panics_example =
    refresh_network-panics parse lower networks none none one_event starting_reached (codes "net")

abbrev instance_of : ℕ → Instance
instance_of service = record {
  network_id = codes "net";
  udp_port = 42001;
  dns_domain = [];
  service = service;
  dns = none;
}

starts : (service : ℕ) → start_instance lower (up true service) network ≡ some (instance_of service)
unfolding start_instance
starts service = refl

nothing_runs : lookup network.id empty_system.manager ≡ none
unfolding lookup
nothing_runs = refl

abbrev stopped_early : System
stopped_early =
    run lower networks
      (start_begins network ∷ stops (codes "net") ∷ start_finishes (up true 1) network ∷ [])
      empty_system

stop_during_start_example :
    (current (codes "net") stopped_early.manager ≡ some (instance_of 1))
    × (stopped_early.live (codes "net") ≡ instance_of 1 ∷ [])
    × (stopped_early.closing (codes "net") ≡ [])
stop_during_start_example =
    stop_during_start lower networks network empty_system (up true 1) (instance_of 1) nothing_runs
      (starts 1)

abbrev next_port_used : ℕ
next_port_used = 42004

abbrev port_rows : List (Option ℕ)
port_rows = some 42002 ∷ none ∷ some 42003 ∷ []

next_is_free : allocate_port (some port_rows) ≡ allocated next_port_used
unfolding allocate_port first_available_lighthouse_port next_port uses
next_is_free = refl

allocate_port-IsNext_example :
    (next_port_used ≤ 65535)
    × (uses next_port_used port_rows ≡ false)
    × ((((p : ℕ) → uses p port_rows ≡ false) × (next_port_used ≡ base_lighthouse_port))
        ⊎ IsNext port_rows next_port_used)
allocate_port-IsNext_example = allocate_port-IsNext port_rows next_port_used next_is_free

abbrev one_lighthouse : List (Bytes × Option Instance)
one_lighthouse = (codes "net", some (instance_of 1)) ∷ []

distinct : KeysDistinct one_lighthouse
unfolding lookup
distinct = (refl, tt)

reap_stops_idle_example :
    lookup (codes "net") (reap_idle_instances (answers_of (box ∷ [])) 10000 7200 one_lighthouse) ≡ (
      if is_running (lookup (codes "net") one_lighthouse)
        && (if any_row (λ r. is_of (codes "net") r && not (is_pending r)) (box ∷ [])
            then all_silent (codes "net") (10000 - 7200) (box ∷ [])
            else not (any_row (is_of (codes "net")) (box ∷ [])))
      then none
      else lookup (codes "net") one_lighthouse)
reap_stops_idle_example =
    reap_stops_idle (box ∷ []) 10000 7200 one_lighthouse (codes "net") distinct

abbrev one_subscriber : EventHub
one_subscriber = (subscribe (codes "net") new_event_hub).0

abbrev owners : ℕ → Option Bytes
owners = set_owner 0 (some (codes "net")) (λ _. none)

abbrev enrolled : Events.Event
enrolled = record { event_type = codes "node.enrolled"; payload = [] }

publish_delivers_example :
    (h' : EventHub) × (publish (codes "net") enrolled one_subscriber ≡ some h')
    × ((ch : ℕ)
        → ((h'.channels ch).buffer ≡ (
            if is_owner (owners ch) (codes "net")
            then offered enrolled (one_subscriber.channels ch).buffer
            else (one_subscriber.channels ch).buffer))
          × (length (h'.channels ch).buffer ≤ capacity))
publish_delivers_example = publish_delivers (codes "net") enrolled (subscribed (codes "net") now)

-- A Publish that has come to the one subscriber, which is then unsubscribed.
abbrev without_subscriber : EventHub
without_subscriber = record {
  subscribers =
      without (lookup (codes "net") one_subscriber.subscribers) (codes "net") 0
        one_subscriber.subscribers;
  next = 1;
  channels = set_channel 0 (record { buffer = []; closed = true }) one_subscriber.channels;
}

left : unsubscribe (codes "net") 0 one_subscriber ≡ some without_subscriber
unfolding unsubscribe close subscribe
left = refl

send-after_unsubscribe_example :
    (send enrolled 0 without_subscriber ≡ none) ↔ (set_owner 0 none owners 0 ≡ none)
unfolding insert bytes_eq
send-after_unsubscribe_example =
    send-after_unsubscribe (codes "net") 0 enrolled (subscribed (codes "net") now)
      (unfold subs_of lookup subscribe in omega arith) (unsubscribed (codes "net") 0 now refl left)
