-- ===== src/Client/NebulaConfig.antt =====
-- nebula.yaml as the agent edits it (internal/client/renew.go: ensureP2PConfig, mergeNebulaConfig,
-- applyNebulaConfigUpdate; internal/client/enroll.go: meshIfaceName; internal/nebulacfg). The
-- document is a map of scalars and of maps; what lies deeper and is not a list of scalars, or the
-- interfaces of an allow list, is `tree`. `yaml.Unmarshal` and `yaml.Marshal` are arguments.
pub mod Device
pub mod Ensure
pub mod Merge
use hopssh.Base.{
  ℕ, zero, suc, ◌+◌, ◌-◌, ◌*◌, ◌/◌, ◌%◌, ◌≤◌, ◌<◌, ◌≡◌, refl, sym, ap, ◌∙◌, ◌≢◌, ◌↔◌, ◌⊎◌, inl, inr,
  Bool, true, false, not, ◌&&◌, ◌||◌, Option, none, some, List, [], ◌∷◌, ◌++◌, map, arith, ltb, leb,
  ◌==◌, if◌then◌else◌, ltb→lt, lt→ltb, leb→le, ==_iff, Bool-cases, Option-cases, length, get_or,
  take, drop, drop_last, replicate, All, length-append, drop_last-append,
}
use hopssh.Base.Text.{Bytes, codes, is_empty, bytes_eq, bytes_eq_iff, bytes_eq_refl, contains}
use hopssh.Base.Int.{ℤ, pos, negsuc}
use hopssh.Base.Dict.{lookup, insert, delete_key}

pub data Scalar : Type 0 where
  flag : Bool → Scalar
  number : ℤ → Scalar
  string : Bytes → Scalar
  other : Bytes → Scalar

pub data Value : Type 0 where
  scalar : Scalar → Value
  items : List Scalar → Value
  interfaces : Bytes → Value
  tree : Bytes → Value

pub data Entry : Type 0 where
  value : Value → Entry
  section : List (Bytes × Value) → Entry

abbrev pub Config : Type 0
Config = List (Bytes × Entry)

abbrev same_bool : Bool → Bool → Bool
same_bool true b = b
same_bool false b = not b

abbrev pub sameℤ : ℤ → ℤ → Bool
sameℤ (pos a) (pos b) = a == b
sameℤ (negsuc a) (negsuc b) = a == b
sameℤ _ _ = false

pub same_scalar : Scalar → Scalar → Bool
same_scalar (flag a) (flag b) = same_bool a b
same_scalar (number a) (number b) = sameℤ a b
same_scalar (string a) (string b) = bytes_eq a b
same_scalar _ _ = false

-- `v == want` on what a map has under a key.
abbrev pub holds : Scalar → Option Value → Bool
holds want (some (scalar s)) = same_scalar s want
holds want _ = false

abbrev section_of : Option Entry → List (Bytes × Value)
section_of (some (section m)) = m
section_of _ = []

-- yamlMap: the map under a key, or an empty one in its place.
unfoldable pub yaml_map : Config → Bytes → List (Bytes × Value)
yaml_map cfg key = section_of (lookup key cfg)

-- What a statement of the source does with the value under a key.
pub data Decision : Type 0 where
  keep remove : Decision
  put : Value → Decision

pub record Edit : Type 0 where
  pub name : Bytes
  pub key : Bytes
  pub decide : Option Value → Decision

abbrev decided : Decision → Bytes → List (Bytes × Value) → List (Bytes × Value)
decided keep key m = m
decided remove key m = delete_key key m
decided (put v) key m = insert key v m

abbrev changes : Decision → Bool
changes keep = false
changes _ = true

-- An edit of one key of a section. The maps are shared, so the section is that of the document.
unfoldable pub edit : Edit → Config → Config
edit e cfg =
    let m = yaml_map cfg e.name in
    insert e.name (section (decided (e.decide (lookup e.key m)) e.key m)) cfg

unfoldable pub edits : Edit → Config → Bool
edits e cfg = changes (e.decide (lookup e.key (yaml_map cfg e.name)))

-- Edits in order, with the flag `changed`.
unfoldable pub edit_all : List Edit → Config × Bool → Config × Bool
edit_all [] (cfg, changed) = (cfg, changed)
edit_all (e ∷ es) (cfg, changed) = edit_all es (edit e cfg, changed || edits e cfg)

-- `if m[key] != want { m[key] = want }`
abbrev pub require : Scalar → Option Value → Decision
require want current = if holds want current then keep else put (scalar want)

abbrev pub drop_key : Option Value → Decision
drop_key none = keep
drop_key (some v) = remove

abbrev pub default_to : Value → Option Value → Decision
default_to v none = put v
default_to v (some old) = keep

-- The `mtu` of the tun section, only where it is an integer.
abbrev pub correct_number : ℤ → Option Value → Decision
correct_number want (some (scalar (number n))) = require (number want) (some (scalar (number n)))
correct_number want _ = keep

-- The `dev` of the tun section, only where there is one.
abbrev pub correct : Scalar → Option Value → Decision
correct want none = keep
correct want (some v) = require want (some v)

-- `cur, _ := m[key].(bool)`
abbrev flag_of : Option Value → Bool
flag_of (some (scalar (flag b))) = b
flag_of _ = false

abbrev pub require_flag : Bool → Option Value → Decision
require_flag want current =
    if same_bool (flag_of current) want then keep else put (scalar (flag want))

abbrev pub overwrite : Value → Option Value → Decision
overwrite v current = put v

-- relayListAsStrings of a list.
unfoldable pub as_strings : List Scalar → List Bytes
as_strings [] = []
as_strings (string s ∷ rest) = s ∷ as_strings rest
as_strings (_ ∷ rest) = as_strings rest

abbrev relay_list_as_strings : Option Value → List Bytes
relay_list_as_strings (some (items xs)) = as_strings xs
relay_list_as_strings _ = []

-- A loop of mergeRelayList: the strings that are not empty and not seen before.
unfoldable pub add_unseen : List Bytes → List Bytes → List Bytes
add_unseen seen [] = []
add_unseen seen (s ∷ ss) =
    let skip = is_empty s || contains seen s in
    let rest = add_unseen (if skip then seen else s ∷ seen) ss in if skip then rest else s ∷ rest

-- The two loops of mergeRelayList share the set of the seen strings, so they are one.
unfoldable pub merge_relay_list : Option Value → List Bytes → List Bytes
merge_relay_list existing peer_relays =
    add_unseen [] (relay_list_as_strings existing ++ peer_relays)

unfoldable pub same_strings : List Bytes → List Bytes → Bool
same_strings [] [] = true
same_strings (a ∷ xs) (b ∷ ys) = bytes_eq a b && same_strings xs ys
same_strings _ _ = false

abbrev merged_unless_same : List Bytes → Option Value → Decision
merged_unless_same merged current =
    if same_strings (relay_list_as_strings current) merged
    then keep
    else put (items (map string merged))

abbrev pub add_relays : List Bytes → Option Value → Decision
add_relays [] current = keep
add_relays (r ∷ rs) current = merged_unless_same (merge_relay_list current (r ∷ rs)) current

-- The name of the tunnel device: "hop-" and the enrollment's name, at most 15 bytes.
unfoldable pub mesh_iface_name : Bytes → Bytes
mesh_iface_name name =
    if leb (4 + length name) 15 then codes "hop-" ++ name else codes "hop-" ++ take (15 - 4) name
