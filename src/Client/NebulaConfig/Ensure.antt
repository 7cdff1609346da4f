-- ===== src/Client/NebulaConfig/Ensure.antt =====
-- The settings that the agent writes at its start (internal/client/renew.go: ensureP2PConfig).
pub mod Settings
pub mod Written
use hopssh.Base.{
  ℕ, zero, suc, ◌+◌, ◌-◌, ◌*◌, ◌/◌, ◌%◌, ◌≤◌, ◌<◌, ◌≡◌, refl, sym, ap, ◌∙◌, ◌≢◌, ◌↔◌, ◌⊎◌, inl, inr,
  Bool, true, false, not, ◌&&◌, ◌||◌, Option, none, some, List, [], ◌∷◌, ◌++◌, map, arith, ltb, leb,
  ◌==◌, if◌then◌else◌, ltb→lt, lt→ltb, leb→le, ==_iff, Bool-cases, Option-cases, length, get_or,
  take, drop, drop_last, replicate, All, length-append, drop_last-append,
}
use hopssh.Base.Text.{Bytes, codes, is_empty, bytes_eq, bytes_eq_iff, bytes_eq_refl, contains}
use hopssh.Base.Int.{ℤ, pos}
use hopssh.Base.Dict.{lookup, insert}
use hopssh.Client.RelayState.{RelayState}
use hopssh.Client.NebulaConfig.{
  Scalar, flag, number, string, Value, scalar, items, interfaces, Entry, value, section, Config,
  holds, Edit, Decision, edit_all, require, drop_key, default_to, correct_number, correct,
  require_flag, overwrite, add_relays, mesh_iface_name,
}

-- What the function reads besides the document: the paths below the directory of the enrollment,
-- its listen port if it has one, its name, the escaped name of the physical interface if that is
-- found, and the cached relay state.
pub record Setup : Type 0 where
  pub ca_path : Bytes
  pub cert_path : Bytes
  pub key_path : Bytes
  pub listen_port : Option ℕ
  pub name : Bytes
  pub interface : Option Bytes
  pub relay_state : Option RelayState

abbrev pub tun_mtu : ℕ
tun_mtu = 1420

abbrev port_edits : Option ℕ → List Edit
port_edits none = []
port_edits (some port) =
    record { name = codes "listen"; key = codes "port"; decide = require (number (pos port)) } ∷ []

abbrev pub listen_edits : Option ℕ → List Edit
listen_edits port =
    port_edits port
    ++ record { name = codes "listen"; key = codes "read_buffer"; decide = drop_key }
      ∷ record { name = codes "listen"; key = codes "write_buffer"; decide = drop_key }
      ∷ []

abbrev pub pki_and_listen : Setup → List Edit
pki_and_listen s =
    record { name = codes "pki"; key = codes "ca"; decide = require (string s.ca_path) }
    ∷ record { name = codes "pki"; key = codes "cert"; decide = require (string s.cert_path) }
    ∷ record { name = codes "pki"; key = codes "key"; decide = require (string s.key_path) }
    ∷ listen_edits s.listen_port

abbrev pub timers_to_handshakes : List Edit
timers_to_handshakes =
    record {
      name = codes "timers";
      key = codes "connection_alive_interval";
      decide = require (number (pos 10));
    }
    ∷ record {
      name = codes "timers";
      key = codes "pending_deletion_interval";
      decide = require (number (pos 30));
    }
    ∷ record {
      name = codes "punchy";
      key = codes "target_all_remotes";
      decide = require (flag true);
    }
    ∷ record {
      name = codes "punchy";
      key = codes "delay";
      decide = require (string (codes "100ms"));
    }
    ∷ record {
      name = codes "punchy";
      key = codes "respond_delay";
      decide = require (string (codes "500ms"));
    }
    ∷ record {
      name = codes "handshakes";
      key = codes "try_interval";
      decide = require (string (codes "20ms"));
    }
    ∷ []

abbrev pub tun : Setup → List Edit
tun s =
    record { name = codes "tun"; key = codes "mtu"; decide = correct_number (pos tun_mtu) }
    ∷ record {
      name = codes "tun";
      key = codes "dev";
      decide = correct (string (mesh_iface_name s.name));
    }
    ∷ []

abbrev preferred_ranges : Value
preferred_ranges = items (
    string (codes "192.168.0.0/16")
    ∷ string (codes "172.16.0.0/12")
    ∷ string (codes "10.0.0.0/8")
    ∷ [])

abbrev allow_list : Option Bytes → List Edit
allow_list none = []
allow_list (some i) =
    record {
      name = codes "lighthouse";
      key = codes "local_allow_list";
      decide = overwrite (interfaces i);
    }
    ∷ []

abbrev relay : Option RelayState → List Edit
relay none = []
relay (some r) =
    record { name = codes "relay"; key = codes "am_relay"; decide = require_flag r.am_relay }
    ∷ record { name = codes "relay"; key = codes "relays"; decide = add_relays r.relays }
    ∷ []

abbrev pub lighthouse_and_relay : Setup → List Edit
lighthouse_and_relay s =
    record {
      name = codes "lighthouse";
      key = codes "preferred_ranges";
      decide = default_to preferred_ranges;
    }
      ∷ allow_list s.interface
    ++ relay s.relay_state

abbrev pub holds_top : Scalar → Option Entry → Bool
holds_top want (some (value v)) = holds want (some v)
holds_top want _ = false

-- A scalar of the document itself.
pub require_top : Bytes → Scalar → Config × Bool → Config × Bool
require_top key want (cfg, changed) =
    if holds_top want (lookup key cfg)
    then (cfg, changed)
    else (insert key (value (scalar want)) cfg, true)

abbrev pub is_section : Option Entry → Bool
is_section (some (section m)) = true
is_section _ = false

-- The edits of the tun section, where the document has one.
pub edit_tun : Setup → Config × Bool → Config × Bool
edit_tun s (cfg, changed) =
    if is_section (lookup (codes "tun") cfg)
    then edit_all (tun s) (cfg, changed)
    else (cfg, changed)

-- The document after all of the edits, and whether any changed it.
pub ensured : Setup → Config → Config × Bool
ensured s cfg = edit_all (lighthouse_and_relay s) (
    require_top (codes "routines") (number (pos 1)) (
      edit_tun s (
        edit_all timers_to_handshakes (
          require_top (codes "cipher") (string (codes "aes"))
            (edit_all (pki_and_listen s) (cfg, false))))))

-- What yaml.Unmarshal makes of the file; an empty document leaves the map nil.
pub data Parsed : Type 0 where
  malformed nil_map : Parsed
  parsed : Config → Parsed

-- What is done with the file: nothing, a write of a document that may fail, or a panic, as on the
-- first assignment to a nil map.
pub data Outcome : Type 0 where
  untouched panics : Outcome
  writes : Config → Outcome

abbrev written : Config × Bool → Outcome
written (cfg, true) = writes cfg
written (cfg, false) = untouched

abbrev ensure_parsed : Setup → Parsed → Outcome
ensure_parsed s malformed = untouched
ensure_parsed s nil_map = panics
ensure_parsed s (parsed cfg) = written (ensured s cfg)

-- `none` is a file that cannot be read.
unfoldable ensure_p2p_config : (Bytes → Parsed) → Setup → Option Bytes → Outcome
ensure_p2p_config unmarshal s none = untouched
ensure_p2p_config unmarshal s (some text) = ensure_parsed s (unmarshal text)
