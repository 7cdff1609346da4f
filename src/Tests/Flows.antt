-- ===== src/Tests/Flows.antt =====
-- The device flow and the DNS labels.
use hopssh.Base.{
  length, leb, ◌≡◌, refl, ◌≢◌, true, Option, none, some, List, [], ◌∷◌, if◌then◌else◌,
}
use hopssh.Base.Text.{Bytes, codes, bytes_eq, contains}
use hopssh.Base.Int.{pos, ◌+ℤ◌}
use hopssh.Auth.Access.{UserProfile, can_enroll_node}
use hopssh.Pki.{v4_prefix, node_address, subnet_ip}
use hopssh.Db.DeviceCodes
use hopssh.Db.DeviceCodes.{
  DeviceCode, commits, claim_authorized, get_by_device_code, find_code, update_where, is_taken,
  find_authorized,
}
use hopssh.Db.Nodes
use hopssh.Db.Nodes.Index.{next_node_index, node_ips}
use hopssh.Db.Nodes.Updates.{complete_enrollment}
use hopssh.Registry.Name.{ca_fingerprint}
use hopssh.Db.Nodes.{Row, any_clash}
use hopssh.Api.Device.{NetworkRow, Services, State, PollRequest, poll, enrolled}
use hopssh.Api.Device.Authorize.{
  authorization, authorization, Event, code_requested, authorization, run, step,
}
use hopssh.Api.Device.Once.{poll_once}
use hopssh.Api.Device.Members.{IsAuthorized, poll_enrolls_member, node_id_unrecorded}
use hopssh.Api.DnsName.{is_valid_dns_name, sanitize_dns_name, has_pair, replace_pairs}
use hopssh.Api.DnsName.Label.{IsCleanName, sanitize_dns_name-IsCleanName}

abbrev owner : UserProfile
owner = record { id = codes "u1" }

abbrev network : NetworkRow
network = record {
  id = codes "net";
  owner = codes "u1";
  nebula_subnet = codes "10.42.1.0/24";
  nebula_ca_cert = codes "ca";
}

abbrev networks_of : Bytes → Option NetworkRow
networks_of id = if bytes_eq id (codes "net") then some network else none

abbrev services : Services
services = record {
  hash = λ c. 1 ∷ c;
  sha256 = λ c. c;
  upper = λ c. c;
  lower = λ c. c;
  encrypt = λ c. some c;
  atoi = λ _. pos 0;
  show = λ _. codes "10.42.1.2/24";
  parse = λ _. some (v4_prefix (record { a = 10; b = 42; c = 1; d = 0 }) 24);
  networks = networks_of;
  membership = λ _ _. none;
}

abbrev request : PollRequest
request = record {
  device_code = codes "d1";
  hostname = codes "box.local";
  os = codes "linux";
  arch = codes "arm64";
  existing_network_cas = [];
  agent_ip = codes "203.0.113.9";
  now = 20;
  claim_now = 20;
  code_read = true;
  claim = commits;
  index_read = true;
  node_id = codes "n1";
  agent_token = codes "t";
  node_write = true;
  cert = some (codes "cert", codes "key");
  complete_write = true;
  dns_write = true;
  code_write = true;
  ip_write = true;
}

-- The device asks for a code and its owner enters it.
abbrev authorized_code : List Event
authorized_code =
    code_requested (record {
      now = 10;
      device_code = codes "d1";
      first = (codes "A", true);
      second = (codes "B", true);
      third = (codes "C", true);
    })
    ∷ (authorization (record {
      user = owner;
      user_code = codes "HOP-A";
      network_id = codes "net";
      now = 15;
      write = true;
    })
        ∷ [])

abbrev authorized_state : State
authorized_state = run services authorized_code (record { device_codes = []; nodes = [] })

enrolls : (poll services request authorized_state).1 ≡ enrolled (codes "n1") (codes "net")
unfolding poll get_by_device_code find_code run step bytes_eq can_enroll_node node_address
    ca_fingerprint contains DeviceCodes.authorize update_where DeviceCodes.create is_taken
    claim_authorized find_authorized next_node_index subnet_ip ◌+ℤ◌ node_ips Nodes.create any_clash
    complete_enrollment
enrolls = refl

poll_once_example :
    (poll services request
      (run services authorized_code (poll services request authorized_state).0)).1
    ≢ enrolled (codes "n1") (codes "net")
poll_once_example =
    poll_once services authorized_code authorized_code [] request request (codes "n1") (codes "net")
      (codes "n1") (codes "net") refl enrolls

poll_enrolls_member_example :
    (codes "n1" ≡ request.node_id) × IsAuthorized services authorized_code (codes "net")
poll_enrolls_member_example =
    poll_enrolls_member services authorized_code [] request (codes "n1") (codes "net") enrolls

node_id_unrecorded_example :
    (poll services request authorized_state).0.device_codes
    ≡ (claim_authorized services.hash commits 20 (codes "d1") authorized_state.device_codes).0
unfolding run step bytes_eq can_enroll_node DeviceCodes.authorize update_where DeviceCodes.create
    is_taken
node_id_unrecorded_example =
    node_id_unrecorded services request authorized_state (codes "n1") (codes "net") refl enrolls

sanitize_dns_name-IsCleanName_example :
    IsCleanName (sanitize_dns_name (λ s. s) (codes "-my__box-.local"))
    × (is_valid_dns_name (sanitize_dns_name (λ s. s) (codes "-my__box-.local"))
        ≡ leb (length (sanitize_dns_name (λ s. s) (codes "-my__box-.local"))) 63)
sanitize_dns_name-IsCleanName_example =
    sanitize_dns_name-IsCleanName (λ s. s) (codes "-my__box-.local")

sanitized : sanitize_dns_name (λ s. s) (codes "-my__box-.local") ≡ codes "my-box"
unfolding sanitize_dns_name has_pair replace_pairs
sanitized = refl
