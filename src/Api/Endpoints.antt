-- ===== src/Api/Endpoints.antt =====
-- The endpoints that heartbeats report and that peers are given (internal/api/renew.go: Heartbeat,
-- selfEndpointHint, mergePeerEndpoints). Times are in nanoseconds, but for the test of the time
-- that a peer was last seen, in seconds; `parse` is netip.ParseAddrPort followed by IsValid and
-- String.
pub mod Served
pub mod Lease
use hopssh.Base.{
  ℕ, zero, suc, ◌+◌, ◌-◌, ◌*◌, ◌/◌, ◌%◌, ◌≤◌, ◌<◌, ◌≡◌, refl, sym, ap, ◌∙◌, ◌≢◌, ◌↔◌, ◌⊎◌, inl, inr,
  Bool, true, false, not, ◌&&◌, ◌||◌, Option, none, some, List, [], ◌∷◌, ◌++◌, map, arith, ltb, leb,
  ◌==◌, if◌then◌else◌, ltb→lt, lt→ltb, leb→le, ==_iff, Bool-cases, Option-cases, length, get_or,
  take, drop, drop_last, replicate, All, length-append, drop_last-append,
}
use hopssh.Base.Text.{Bytes, codes, is_empty, bytes_eq, bytes_eq_iff, bytes_eq_refl, contains}
use hopssh.Base.Int.{ℤ, pos, pos_part}
use hopssh.Db.Nodes.{Row}
use hopssh.Mesh.Dns.{trim_suffix}
use hopssh.Base.Dict.{lookup, insert, filter_entries}

abbrev pub second : ℕ
second = 1000000000

-- 15 minutes.
abbrev pub self_endpoint_hint_ttl : ℕ
self_endpoint_hint_ttl = 900 * second

-- `endpointHint`; the zero time does not occur.
pub record EndpointHint : Type 0 where
  pub addr : Bytes
  pub expires_at : ℕ

-- The expiry of an endpoint with the lifetime that the heartbeat has for it, if it has one.
abbrev pub expiry : ℕ → Option ℤ → ℕ
expiry now none = now + self_endpoint_hint_ttl
expiry now (some l) =
    if ltb 0 (pos_part l) && ltb (pos_part l / 2 * second) self_endpoint_hint_ttl
    then now + pos_part l / 2 * second
    else now + self_endpoint_hint_ttl

-- The loop over the reported endpoints, in step with the lifetimes.
pub hints_of : ℕ → List Bytes → List ℤ → List EndpointHint
hints_of now [] ls = []
hints_of now (e ∷ es) [] = record { addr = e; expires_at = expiry now none } ∷ hints_of now es []
hints_of now (e ∷ es) (l ∷ ls) =
    record { addr = e; expires_at = expiry now (some l) } ∷ hints_of now es ls

-- The part of `Heartbeat` that keeps the endpoints; `none` is a body without the field.
pub keep_endpoints :
    ℕ
    → Bytes
    → Option (List Bytes) × List ℤ
    → List (Bytes × List EndpointHint)
    → List (Bytes × List EndpointHint)
keep_endpoints now id (none, ls) cache = cache
keep_endpoints now id (some [], ls) cache = filter_entries (λ k _. not (bytes_eq k id)) cache
keep_endpoints now id (some (e ∷ es), ls) cache = insert id (hints_of now (e ∷ es) ls) cache

-- What is listed is what was seen.
pub add_new : Option Bytes → List Bytes → List Bytes
add_new none out = out
add_new (some s) out = if contains out s then out else out ++ s ∷ []

pub merge_lighthouse : List (Option Bytes) → List Bytes → List Bytes
unfolding add_new
merge_lighthouse [] out = out
merge_lighthouse (ap ∷ aps) out = merge_lighthouse aps (add_new ap out)

pub merge_hints : (Bytes → Option Bytes) → ℕ → List EndpointHint → List Bytes → List Bytes
unfolding add_new
merge_hints parse now [] out = out
merge_hints parse now (h ∷ hs) out =
    merge_hints parse now hs (if ltb h.expires_at now then out else add_new (parse h.addr) out)

-- `mergePeerEndpoints`; an address of the lighthouse is its text, or `none` if it is not valid.
pub merge_peer_endpoints :
    (Bytes → Option Bytes) → List (Option Bytes) → Option (List EndpointHint) → ℕ → List Bytes
unfolding merge_lighthouse merge_hints
merge_peer_endpoints parse lighthouse none now = merge_lighthouse lighthouse []
merge_peer_endpoints parse lighthouse (some hint) now =
    merge_hints parse now hint (merge_lighthouse lighthouse [])

-- A missing list as an empty one, as of a NULL text or a missing key.
abbrev pub or_empty {ℓ} : {A : Type ℓ} → Option (List A) → List A
or_empty none = []
or_empty (some l) = l

-- strings.TrimSuffix(p.NebulaIP, "/24"), of no address for NULL
unfoldable pub peer_ip : Row → Bytes
peer_ip p = trim_suffix (or_empty p.nebula_ip) (codes "/24")

abbrev pub is_unseen : ℕ → Option ℕ → Bool
is_unseen checked none = true
is_unseen checked (some seen) = leb 600 (checked - seen)

-- The `continue`s of the loop of `Heartbeat` over the nodes of the network, for the node `self`.
pub is_skipped : Bytes → ℕ → Row → Bool
is_skipped self checked p =
    bytes_eq p.id self || (is_empty (or_empty p.nebula_ip) || is_unseen checked p.last_seen_at)

abbrev pub put_merged : Bytes → List Bytes → List (Bytes × List Bytes) → List (Bytes × List Bytes)
put_merged ip [] m = m
put_merged ip (e ∷ es) m = insert ip (e ∷ es) m

-- The loop of `Heartbeat`, as far as it makes `peerEndpoints`: `checked` is its clock of seconds,
-- `lighthouse` what the lighthouse has of an address, and `cache` the reported endpoints.
module _ (parse : Bytes → Option Bytes) (lighthouse : Bytes → List (Option Bytes)) (self : Bytes)
    (checked now : ℕ) (cache : List (Bytes × List EndpointHint)) where
  pub merged : Row → List Bytes
  merged p = merge_peer_endpoints parse (lighthouse (peer_ip p)) (lookup p.id cache) now

  pub peer_endpoints : List Row → List (Bytes × List Bytes) → List (Bytes × List Bytes)
  unfolding is_skipped merged
  peer_endpoints [] m = m
  peer_endpoints (p ∷ ps) m =
      peer_endpoints ps
        (if is_skipped self checked p then m else put_merged (peer_ip p) (merged p) m)
