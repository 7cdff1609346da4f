-- ===== src/Mesh/Dns.antt =====
-- The DNS of a network (internal/mesh/dns.go) and the records that it is given
-- (internal/mesh/network_manager.go: RefreshDNS). `lower` is strings.ToLower, `parse` is
-- net.ParseIP, whose nil is `none`; an address is its bytes, of which nil has none.
pub mod Answer
use hopssh.Base.{
  ℕ, zero, suc, ◌+◌, ◌-◌, ◌*◌, ◌/◌, ◌%◌, ◌≤◌, ◌<◌, ◌≡◌, refl, sym, ap, ◌∙◌, ◌≢◌, ◌↔◌, ◌⊎◌, inl, inr,
  Bool, true, false, not, ◌&&◌, ◌||◌, Option, none, some, List, [], ◌∷◌, ◌++◌, map, arith, ltb, leb,
  ◌==◌, if◌then◌else◌, ltb→lt, lt→ltb, leb→le, ==_iff, Bool-cases, Option-cases, length, get_or,
  take, drop, drop_last, replicate, All, length-append, drop_last-append,
}
use hopssh.Base.Text.{Bytes, codes, is_empty, bytes_eq, bytes_eq_iff, bytes_eq_refl, contains}
use hopssh.Base.Dict.{lookup, insert, delete_key}
use hopssh.Base.Int.{ℤ}
use hopssh.Db.Nodes.{Row}
use hopssh.Db.Nodes
use hopssh.Db.Nodes.Sweep.{same_status}

pub record DnsRecord : Type 0 where
  pub name : Bytes
  pub ip : Bytes

pub record MeshDns : Type 0 where
  pub domain : Bytes
  pub port : ℤ
  pub records : List (Bytes × Bytes)

-- The types of a question that matter: an A record, or another one.
pub data QuestionType : Type 0 where
  type_a other_type : QuestionType

pub record Question : Type 0 where
  pub name : Bytes
  pub qtype : QuestionType

-- An A record of the answer, of class IN.
pub record ARecord : Type 0 where
  pub name : Bytes
  pub ttl : ℕ
  pub a : Bytes

abbrev nil_ip : Bytes
nil_ip = []

-- net.IP.To4: the four bytes of an IPv4 address in either form.
unfoldable pub to4 : Bytes → Option Bytes
to4 ip =
    if length ip == 4
    then some ip
    else if length ip == 16 && bytes_eq (take 12 ip) (replicate 10 0 ++ 255 ∷ 255 ∷ [])
    then some (drop 12 ip)
    else none

-- strings.HasSuffix
unfoldable pub has_suffix : Bytes → Bytes → Bool
has_suffix s suffix =
    leb (length suffix) (length s) && bytes_eq (drop (length s - length suffix) s) suffix

-- strings.TrimSuffix
unfoldable pub trim_suffix : Bytes → Bytes → Bytes
trim_suffix s suffix = if has_suffix s suffix then take (length s - length suffix) s else s

abbrev pub found : Option Bytes → Bytes
found none = nil_ip
found (some ip) = ip

-- The part before the first slash.
unfoldable pub cut_mask : Bytes → Bytes
cut_mask [] = []
cut_mask (c ∷ cs) = if c == b'/' then [] else c ∷ cut_mask cs

abbrev pub suffix : MeshDns → Bytes
suffix d = b'.' ∷ d.domain ++ b'.' ∷ []

-- `ip.To4()` is nil of a nil address also, so the test before it is not needed here.
abbrev a_record : Bytes → Option Bytes → Option ARecord
a_record qname none = none
a_record qname (some four) = some (record { name = qname; ttl = 60; a = four })

abbrev append_answer : Option ARecord → List ARecord → List ARecord
append_answer none rest = rest
append_answer (some a) rest = a ∷ rest

module _ (lower : Bytes → Bytes) where
  abbrev pub new_mesh_dns : ℤ → Bytes → MeshDns
  new_mesh_dns port domain = record { domain = lower domain; port = port; records = [] }

  -- The loop of SetRecords.
  unfoldable pub put_records : List DnsRecord → List (Bytes × Bytes) → List (Bytes × Bytes)
  put_records [] m = m
  put_records (r ∷ rs) m = put_records rs (insert (lower r.name) r.ip m)

  unfoldable pub set_records : List DnsRecord → MeshDns → MeshDns
  set_records rs d = record d { records = put_records rs [] }

  unfoldable add_record : Bytes → Bytes → MeshDns → MeshDns
  add_record name ip d = record d { records = insert (lower name) ip d.records }

  unfoldable remove_record : Bytes → MeshDns → MeshDns
  remove_record name d = record d { records = delete_key (lower name) d.records }

  unfoldable pub resolve : Bytes → MeshDns → Bytes
  resolve name d = found (lookup (lower name) d.records)

  -- What the body of the loop appends for a question.
  unfoldable pub answer_to : MeshDns → QuestionType → Bytes → Option ARecord
  answer_to d other_type qname = none
  answer_to d type_a qname =
      let fqdn = lower qname in
      if has_suffix fqdn (suffix d)
      then a_record qname (to4 (resolve (trim_suffix fqdn (suffix d)) d))
      else none

  -- The answers to the questions of a message.
  unfoldable pub handle_query : MeshDns → List Question → List ARecord
  handle_query d [] = []
  handle_query d (q ∷ qs) = append_answer (answer_to d q.qtype q.name) (handle_query d qs)

-- A row of dns_records.
pub record CustomRecord : Type 0 where
  pub name : Bytes
  pub nebula_ip : Bytes

abbrev text_or : Option Bytes → Bytes → Bytes
text_or none other = other
text_or (some []) other = other
text_or (some (c ∷ cs)) other = c ∷ cs

-- The name of a node: the DNS name if it has one, else the host name.
unfoldable pub node_name : Row → Bytes
node_name n = text_or n.dns_name n.hostname

-- What a listing gives to the loop over it: nothing where it fails or has no store.
abbrev pub listed_rows {ℓ} : {A : Type ℓ} → Option (List A) → List A
listed_rows none = []
listed_rows (some xs) = xs

module _ (parse : Bytes → Option Bytes) where
  unfoldable pub parse_node_ip : Bytes → Option Bytes
  parse_node_ip nebula_ip = parse (cut_mask nebula_ip)

  abbrev named : Bytes → Option Bytes → List DnsRecord → List DnsRecord
  named name none rest = rest
  named [] (some ip) rest = rest
  named (c ∷ cs) (some ip) rest = record { name = c ∷ cs; ip = ip } ∷ rest

  unfoldable pub is_served : Row → Bool
  is_served n = not (is_empty (text_or n.nebula_ip [])) && not (same_status n.status Nodes.pending)

  unfoldable pub node_records : List Row → List DnsRecord
  node_records [] = []
  node_records (n ∷ ns) =
      let rest = node_records ns in
      if is_served n
      then named (node_name n) (parse_node_ip (text_or n.nebula_ip [])) rest
      else rest

  abbrev with_ip : Bytes → Option Bytes → List DnsRecord → List DnsRecord
  with_ip name none rest = rest
  with_ip name (some ip) rest = record { name = name; ip = ip } ∷ rest

  unfoldable pub custom_records : List CustomRecord → List DnsRecord
  custom_records [] = []
  custom_records (r ∷ rs) = with_ip r.name (parse_node_ip r.nebula_ip) (custom_records rs)

  -- RefreshDNS of an instance with DNS; the arguments are what the two listings return.
  unfoldable pub refresh_dns :
      (Bytes → Bytes) → Option (List Row) → Option (List CustomRecord) → MeshDns → MeshDns
  refresh_dns lower nodes customs d =
      set_records lower (node_records (listed_rows nodes) ++ custom_records (listed_rows customs)) d
