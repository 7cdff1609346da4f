-- ===== src/Tests/Renewal.antt =====
-- The heartbeat, the renewal and the edits of nebula.yaml.
use hopssh.Base.{
  ◌+◌, ◌++◌, ◌≤◌, ◌≡◌, refl, ◌∙◌, ◌↔◌, true, false, none, some, [], ◌∷◌, arith, leb, length, take,
  All,
}
use hopssh.Base.Text.{Bytes, codes, bytes_eq, contains}
use hopssh.Base.Int.{ℤ, pos}
use hopssh.Base.Dict.{lookup, insert}
use hopssh.Client.NebulaConfig.{edit, edits, edit_all, yaml_map, flag}
use hopssh.Client.Heartbeat.{
  first_heartbeat, run_heartbeat, trailing_failures, interval_after, next-interval_after,
}
use hopssh.Client.Renewal.{
  valid_until, time_until_renewal, is_due, KeyPair, Response, renewed, request_failed, Attempt,
  renew_now, max_backoff,
}
use hopssh.Client.Renewal.Due.{due-expired}
use hopssh.Client.Renewal.Retries.{
  renew_now_files, is_done, has_good, half_writable, renew_now-Brief,
}
use hopssh.Client.NebulaConfig.{
  edit, yaml_map, edit_all, flag, scalar, number, string, section, Config, mesh_iface_name,
}
use hopssh.Client.NebulaConfig.Device.{mesh_iface_name-same}
use hopssh.Client.NebulaConfig.Ensure.{Setup, ensured, tun_mtu, parsed}
use hopssh.Client.NebulaConfig.Ensure.Settings.{setting}
use hopssh.Client.NebulaConfig.Ensure.Written.{touched, ensured_settings}
use hopssh.Client.NebulaConfig.Merge.{
  NebulaConfigUpdate, merge_nebula_config, without_other_port, assignments, changed,
  merge_keeps_port,
}

next-interval_after_example :
    (run_heartbeat (true ∷ true ∷ true ∷ []) (first_heartbeat false)).next
    ≡ interval_after (trailing_failures 0 (false ∷ true ∷ true ∷ true ∷ []))
next-interval_after_example = next-interval_after false (true ∷ true ∷ true ∷ [])

third_failure : (run_heartbeat (true ∷ true ∷ true ∷ []) (first_heartbeat false)).next ≡ 20
third_failure = next-interval_after_example ∙ refl

-- Ten seconds before the end of a validity of a day, no renewal is due.
due-expired_example :
    is_due (time_until_renewal (λ _. 0) (valid_until 86400000000000) 86390000000000)
    ≡ leb 86400000000000 86390000000000
due-expired_example = due-expired (λ _. 0) 86400000000000 86390000000000

abbrev files : KeyPair
files = record { cert = codes "old"; key = codes "old key" }

abbrev answer : Response
answer = renewed (codes "new") (codes "new key")

abbrev lost : Attempt
lost = record { response = request_failed; cert_writable = true; key_writable = true; seconds = 30 }

-- The certificate and the key of one renewal.
abbrev Paired : Bytes → Bytes → Type 0
Paired cert key = key ≡ cert ++ codes " key"

abbrev answered : Attempt
answered = record { response = answer; cert_writable = true; key_writable = true; seconds = 5 }

renew_now_files_example :
    Paired
      (renew_now lost (answered ∷ []) files).files.cert
      (renew_now lost (answered ∷ []) files).files.key
    × (is_done (renew_now lost (answered ∷ []) files).end ≡ has_good 13 (lost ∷ answered ∷ []))
    × ((renew_now (half_writable 1 2 [] [] 5) [] files).files
        ≡ record { cert = 1 ∷ []; key = files.key })
renew_now_files_example = renew_now_files Paired lost (answered ∷ []) files 1 2 5 [] [] refl (
  (λ cert key e _ _. absurd (ground (arith, e)), λ _. refl),
  ((λ cert key e _ _. grind arith, λ _. refl), tt),
)

renew_now-Brief_example :
    All (λ gap. gap ≤ max_backoff + 30) (renew_now lost (lost ∷ lost ∷ []) files).gaps
    × ((renew_now lost (lost ∷ lost ∷ []) files).pending ≤ max_backoff + 30)
renew_now-Brief_example =
    renew_now-Brief 30 lost (lost ∷ lost ∷ []) files (omega arith, (omega arith, (omega arith, tt)))

mesh_iface_name-same_example :
    (length (mesh_iface_name (codes "production-a")) ≤ 15)
    × ((mesh_iface_name (codes "production-a") ≡ mesh_iface_name (codes "production-b"))
        ↔ (take 11 (codes "production-a") ≡ take 11 (codes "production-b")))
mesh_iface_name-same_example = mesh_iface_name-same (codes "production-a") (codes "production-b")

same_device : mesh_iface_name (codes "production-a") ≡ mesh_iface_name (codes "production-b")
unfolding mesh_iface_name
same_device = refl

abbrev setup : Setup
setup = record {
  ca_path = codes "/etc/ca.crt";
  cert_path = codes "/etc/node.crt";
  key_path = codes "/etc/node.key";
  listen_port = some 4243;
  name = codes "home";
  interface = some (codes "eth0");
  relay_state = none;
}

abbrev drifted : Config
drifted =
    (codes "listen", section ((codes "port", scalar (number (pos 4242))) ∷ []))
    ∷ (codes "tun", section ((codes "mtu", scalar (number (pos 1300))) ∷ []))
    ∷ []

ensured_settings_example :
    (setting (codes "listen") (codes "port") (ensured setup drifted).0
      ≡ some (scalar (number (pos 4243))))
    × (setting (codes "pki") (codes "ca") (ensured setup drifted).0
        ≡ some (scalar (string setup.ca_path)))
    × (setting (codes "pki") (codes "cert") (ensured setup drifted).0
        ≡ some (scalar (string setup.cert_path)))
    × (setting (codes "pki") (codes "key") (ensured setup drifted).0
        ≡ some (scalar (string setup.key_path)))
    × ((n : ℤ)
        → setting (codes "tun") (codes "mtu") drifted ≡ some (scalar (number n))
        → setting (codes "tun") (codes "mtu") (ensured setup drifted).0
          ≡ some (scalar (number (pos tun_mtu))))
    × ((s k : Bytes)
        → contains touched s ≡ false
        → setting s k (ensured setup drifted).0 ≡ setting s k drifted)
ensured_settings_example = ensured_settings setup drifted 4243 refl

abbrev own_document : Config
own_document = (codes "listen", section ((codes "port", scalar (number (pos 4243))) ∷ [])) ∷ []

abbrev pushed : NebulaConfigUpdate
pushed = record {
  use_relays = some true;
  punch_back = none;
  punch_delay = [];
  mtu = some (pos 1300);
  listen_port = some (pos 4242);
}

abbrev pushed_document : Config
pushed_document =
    (codes "listen", section ((codes "port", scalar (number (pos 4243))) ∷ []))
    ∷ (codes "relay", section ((codes "use_relays", scalar (flag true)) ∷ []))
    ∷ []

merged_document :
    merge_nebula_config (parsed own_document) (without_other_port (some 4243) pushed)
    ≡ changed pushed_document
unfolding merge_nebula_config without_other_port assignments edit_all edit edits yaml_map lookup
    insert bytes_eq
merged_document = refl

own_port : setting (codes "listen") (codes "port") own_document ≡ some (scalar (number (pos 4243)))
unfolding yaml_map lookup bytes_eq
own_port = refl

merge_keeps_port_example :
    setting (codes "listen") (codes "port") pushed_document
    ≡ setting (codes "listen") (codes "port") own_document
unfolding bytes_eq
merge_keeps_port_example =
    merge_keeps_port 4243 pushed own_document pushed_document own_port merged_document
      (codes "listen") (codes "port") refl refl
