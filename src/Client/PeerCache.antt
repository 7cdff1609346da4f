-- ===== src/Client/PeerCache.antt =====
-- The peer-endpoint cache (internal/client/peer_cache.go) and the filter in front of Nebula's host
-- map (acceptPeerEndpoint of internal/client/renew.go). `valid_addr` and `valid_addr_port` say what
-- net/netip parses; a time is in seconds.
pub mod Keep
use hopssh.Base.{
  ℕ, zero, suc, ◌+◌, ◌-◌, ◌*◌, ◌/◌, ◌%◌, ◌≤◌, ◌<◌, ◌≡◌, refl, sym, ap, ◌∙◌, ◌≢◌, ◌↔◌, ◌⊎◌, inl, inr,
  Bool, true, false, not, ◌&&◌, ◌||◌, Option, none, some, List, [], ◌∷◌, ◌++◌, map, arith, ltb, leb,
  ◌==◌, if◌then◌else◌, ltb→lt, lt→ltb, leb→le, ==_iff, Bool-cases, Option-cases, length, get_or,
  take, drop, drop_last, replicate, All, length-append, drop_last-append,
}
use hopssh.Base.Text.{Bytes, codes, is_empty, bytes_eq, bytes_eq_iff, bytes_eq_refl, contains}
use hopssh.Base.StringSet.{normalize}
use hopssh.Base.Dict.{lookup, insert, filter_entries}
use hopssh.Client.RelayState.{string_slice_equal}

pub record Entry : Type 0 where
  pub endpoints : List Bytes
  pub seen_at : ℕ

pub record PeerCache : Type 0 where
  pub schema_version : ℕ
  pub updated_at : ℕ
  pub peers : List (Bytes × Entry)

pub data CacheFile : Type 0 where
  absent unreadable malformed : CacheFile
  stored : PeerCache → CacheFile

pub data Error : Type 0 where
  read_error parse_error bad_schema write_error : Error

pub data Loaded : Type 0 where
  nothing : Loaded
  loaded : PeerCache → Loaded
  load_error : Error → Loaded

abbrev peer_cache_schema_version : ℕ
peer_cache_schema_version = 1

-- 24 hours.
abbrev peer_cache_ttl : ℕ
peer_cache_ttl = 86400

unfoldable load_peer_cache_raw : CacheFile → Loaded
load_peer_cache_raw absent = nothing
load_peer_cache_raw unreadable = load_error read_error
load_peer_cache_raw malformed = load_error parse_error
load_peer_cache_raw (stored c) =
    if c.schema_version == peer_cache_schema_version then loaded c else load_error bad_schema

unfoldable pub normalize_endpoints : (Bytes → Bool) → List Bytes → List Bytes
normalize_endpoints valid_addr_port eps = normalize valid_addr_port eps

abbrev no_entries : List Bytes → Bool
no_entries [] = true
no_entries (_ ∷ _) = false

-- The entry that one round of the loop writes: the endpoints of before if they have not changed.
pub merged_entry : Option Entry → List Bytes → ℕ → Entry
merged_entry none eps now = record { endpoints = eps; seen_at = now }
merged_entry (some prev) eps now =
    if string_slice_equal prev.endpoints eps
    then record prev { seen_at = now }
    else record { endpoints = eps; seen_at = now }

-- One round of the loop over `peerEndpoints`: the peers, and `changed`.
pub merge_peer :
    (Bytes → Bool)
    → (Bytes → Bool)
    → ℕ
    → Bytes
    → List Bytes
    → List (Bytes × Entry) × Bool
    → List (Bytes × Entry) × Bool
merge_peer valid_addr valid_addr_port now ip eps (peers, changed) =
    let eps' = normalize_endpoints valid_addr_port eps in
    if no_entries eps'
    then (peers, changed)
    else if not (valid_addr ip)
    then (peers, changed)
    else (insert ip (merged_entry (lookup ip peers) eps' now) peers, true)

pub merge_peers :
    (Bytes → Bool)
    → (Bytes → Bool)
    → ℕ
    → List (Bytes × List Bytes)
    → List (Bytes × Entry) × Bool
    → List (Bytes × Entry) × Bool
merge_peers valid_addr valid_addr_port now [] acc = acc
merge_peers valid_addr valid_addr_port now ((ip, eps) ∷ rest) acc =
    merge_peers valid_addr valid_addr_port now rest
      (merge_peer valid_addr valid_addr_port now ip eps acc)

-- The cache to start from: a file that cannot be used counts as empty.
abbrev usable_peers : Loaded → List (Bytes × Entry)
usable_peers nothing = []
usable_peers (loaded c) = c.peers
usable_peers (load_error e) = []

-- What `savePeerCache` finds when it comes to write: the bytes of the new document already, or a
-- file system that takes the write or refuses it.
pub data WriteOutcome : Type 0 where
  identical written refused : WriteOutcome

unfoldable save_peer_cache :
    (Bytes → Bool)
    → (Bytes → Bool)
    → WriteOutcome
    → ℕ
    → CacheFile
    → List (Bytes × List Bytes)
    → CacheFile × Option Error
save_peer_cache valid_addr valid_addr_port w now f [] = (f, none)
save_peer_cache valid_addr valid_addr_port w now f (p ∷ ps) =
    let start = usable_peers (load_peer_cache_raw f) in
    let (peers, changed) = merge_peers valid_addr valid_addr_port now (p ∷ ps) (start, false) in
    if changed
    then elim w [
      | identical ↦ (f, none)
      | written ↦ (
        stored (record {
          schema_version = peer_cache_schema_version;
          updated_at = now;
          peers = peers;
        }),
        none,
      )
      | refused ↦ (f, some write_error)
    ]
    else (f, none)

-- An entry is dropped if `seenAt < now - ttl`.
abbrev is_stale : ℕ → Entry → Bool
is_stale now e = ltb (e.seen_at + peer_cache_ttl) now

abbrev keep_peers : PeerCache → List (Bytes × Entry) → Loaded
keep_peers c [] = nothing
keep_peers c (p ∷ ps) = loaded (record c { peers = p ∷ ps })

unfoldable load_peer_cache : ℕ → CacheFile → Loaded
load_peer_cache now f = elim (load_peer_cache_raw f) [
  | nothing ↦ nothing
  | load_error e ↦ load_error e
  | loaded c ↦ keep_peers c (filter_entries (λ _ e. not (is_stale now e)) c.peers)
]

-- `acceptPeerEndpoint`. `parse` is netip.ParseAddr, `subnet` the test of a valid mesh subnet.
module _ {ℓ} {Addr : Type ℓ} (parse : Bytes → Option Addr) where
  pub accept_peer_endpoint : Bytes → Bytes → Option (Addr → Bool) → Option Addr
  accept_peer_endpoint ip self_ip subnet =
      if not (is_empty self_ip) && bytes_eq ip self_ip then none else elim (parse ip) [
        | none ↦ none
        | some vpn ↦ elim subnet [
          | none ↦ some vpn
          | some inside ↦ if inside vpn then some vpn else none
        ]
      ]

  -- The loop of `injectCachedPeerEndpoints`: what is handed to ReplaceStaticHostMap, in order.
  -- `parse_port` is netip.ParseAddrPort together with IsValid.
  module _ {κ} {AddrPort : Type κ} (parse_port : Bytes → Option AddrPort) where
    unfoldable pub parse_endpoints : List Bytes → List AddrPort
    parse_endpoints [] = []
    parse_endpoints (s ∷ ss) =
        let rest = parse_endpoints ss in elim (parse_port s) [ none ↦ rest | some ap ↦ ap ∷ rest ]

    abbrev inject_one : Option Addr → List AddrPort → List (Addr × List AddrPort)
    inject_one none aps = []
    inject_one (some vpn) [] = []
    inject_one (some vpn) (ap ∷ aps) = (vpn, ap ∷ aps) ∷ []

    pub inject_peers :
        Bytes → Option (Addr → Bool) → List (Bytes × Entry) → List (Addr × List AddrPort)
    inject_peers self_ip subnet [] = []
    inject_peers self_ip subnet ((ip, e) ∷ ps) =
        inject_one (accept_peer_endpoint ip self_ip subnet) (parse_endpoints e.endpoints)
        ++ inject_peers self_ip subnet ps
