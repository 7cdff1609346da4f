-- ===== src/Api/Endpoints/Lease.antt =====
-- How long an endpoint that an agent mapped at its router is given to its peers.
use hopssh.Base.{
  ℕ, ◌+◌, ◌*◌, ◌/◌, ◌-◌, ◌≤◌, ◌≡◌, refl, ap, ◌∙◌, inl, inr, Bool, true, false, ◌&&◌, ◌||◌, Option,
  none, some, List, [], ◌∷◌, ◌++◌, map, arith, ltb, leb, if◌then◌else◌, Bool-cases, All,
}
use hopssh.Base.Text.{Bytes, is_empty, bytes_eq, bytes_eq_refl, contains}
use hopssh.Base.Int.{pos}
use hopssh.Base.Dict.{lookup, lookup-insert}
use hopssh.Portmap.Manager.{Manager}
use hopssh.Client.SelfEndpoints.{self_endpoint_lifetimes, report}
use hopssh.Db.Nodes.{Row}
use hopssh.Api.Endpoints.{
  or_empty, peer_ip, is_skipped, put_merged, merged, peer_endpoints, second, self_endpoint_hint_ttl,
  EndpointHint, hints_of, keep_endpoints,
}
use hopssh.Api.Endpoints.Served.{known, merged_served}

abbrev IsElsewhere : Bytes → Row → Type 0
IsElsewhere ip r = bytes_eq (peer_ip r) ip ≡ false

module _ (parse : Bytes → Option Bytes) (lighthouse : Bytes → List (Option Bytes)) (self : Bytes)
    (checked now : ℕ) (cache : List (Bytes × List EndpointHint)) where
  peer_endpoints-others :
      (ip : Bytes) (ps : List Row) (m : List (Bytes × List Bytes))
      → All (IsElsewhere ip) ps
      → lookup ip (peer_endpoints parse lighthouse self checked now cache ps m) ≡ lookup ip m
  unfolding peer_endpoints
  peer_endpoints-others ip [] m h = refl
  peer_endpoints-others ip (p ∷ ps) m h =
      peer_endpoints-others ip ps
        (if is_skipped self checked p
          then m
          else put_merged (peer_ip p) (merged parse lighthouse self checked now cache p) m)
        h.1
      ∙ step (is_skipped self checked p) (merged parse lighthouse self checked now cache p)
    where
      step :
          (skipped : Bool) (es : List Bytes)
          → lookup ip (if skipped then m else put_merged (peer_ip p) es m) ≡ lookup ip m
      step true es = refl
      step false [] = refl
      step false (e ∷ es) = rw (lookup-insert (peer_ip p) ip (e ∷ es) m, h.0) refl

  peer_endpoints-append :
      (ps qs : List Row) (m : List (Bytes × List Bytes))
      → peer_endpoints parse lighthouse self checked now cache (ps ++ qs) m
        ≡ peer_endpoints parse lighthouse self checked now cache qs
            (peer_endpoints parse lighthouse self checked now cache ps m)
  unfolding peer_endpoints
  peer_endpoints-append [] qs m = refl
  peer_endpoints-append (p ∷ ps) qs m = peer_endpoints-append ps qs _

  given_to :
      (ip : Bytes) (es : List Bytes) (m : List (Bytes × List Bytes))
      → lookup ip m ≡ none
      → or_empty (lookup ip (put_merged ip es m)) ≡ es
  given_to ip [] m h = rw h refl
  given_to ip (e ∷ es) m h = rw (lookup-insert ip ip (e ∷ es) m, bytes_eq_refl ip) refl

  -- What the answer has for the address of a node: of the one row that has the address.
  peer_endpoints-one :
      (p : Row) (before after : List Row)
      → All (IsElsewhere (peer_ip p)) before
      → All (IsElsewhere (peer_ip p)) after
      → or_empty (
          lookup
            (peer_ip p)
            (peer_endpoints parse lighthouse self checked now cache (before ++ (p ∷ after)) []))
        ≡ (if is_skipped self checked p
            then []
            else merged parse lighthouse self checked now cache p)
  unfolding peer_endpoints
  peer_endpoints-one p before after b a =
      ap (λ m. or_empty (lookup (peer_ip p) m)) (peer_endpoints-append before (p ∷ after) [])
      ∙ ap or_empty (peer_endpoints-others (peer_ip p) after _ a)
      ∙ last (is_skipped self checked p) (merged parse lighthouse self checked now cache p)
    where
      m : List (Bytes × List Bytes)
      m = peer_endpoints parse lighthouse self checked now cache before []

      nothing : lookup (peer_ip p) m ≡ none
      nothing = peer_endpoints-others (peer_ip p) before [] b ∙ unfold lookup in refl

      last :
          (skipped : Bool) (es : List Bytes)
          → or_empty (lookup (peer_ip p) (if skipped then m else put_merged (peer_ip p) es m))
            ≡ (if skipped then [] else es)
      last true es = rw nothing refl
      last false es = given_to (peer_ip p) es m nothing

-- If the agent has a mapping of an address with a lifetime of a second or more, and the texts that
-- it reports are in the form that netip writes, then after a heartbeat that reports them, until its
-- next one, and if no other node of the network has its mesh address: what a heartbeat of another
-- node is answered for the mesh address has the mapped address exactly if the agent was seen less
-- than 600 seconds ago, and the lighthouse knows the address or it is among the reported and no
-- more than half of the whole seconds of the lifetime, and no more than 15 minutes, have passed
-- since its heartbeat.
pub lease_served :
    (parse : Bytes → Option Bytes) (m : Manager) (a e : Bytes) (es : List Bytes)
    (cache : List (Bytes × List EndpointHint)) (lighthouse : Bytes → List (Option Bytes))
    (self : Bytes) (checked t now seen : ℕ) (p : Row) (before after : List Row)
    → m.current ≡ some a
    → second ≤ m.ttl
    → All (λ x. parse x ≡ some x) (e ∷ es)
    → bytes_eq p.id self ≡ false
    → is_empty (or_empty p.nebula_ip) ≡ false
    → p.last_seen_at ≡ some seen
    → All (IsElsewhere (peer_ip p)) before
    → All (IsElsewhere (peer_ip p)) after
    → contains
        (or_empty (
          lookup (peer_ip p) (
            peer_endpoints parse lighthouse self checked now
              (keep_endpoints t p.id
                ((report (some m) (e ∷ es)).0, map pos (report (some m) (e ∷ es)).1)
                cache)
              (before ++ (p ∷ after))
              [])))
        a
      ≡ (ltb checked (seen + 600)
          && (known (lighthouse (peer_ip p)) a
              || (contains (e ∷ es) a
                  && (leb now (t + m.ttl / second / 2 * second)
                      && leb now (t + self_endpoint_hint_ttl)))))
unfolding contains is_skipped merged
lease_served parse m a e es cache lighthouse self checked t now seen p before after c l h other has
      s b f =
    let kept =
      keep_endpoints t p.id ((report (some m) (e ∷ es)).0, map pos (report (some m) (e ∷ es)).1)
        cache in
    ap (λ x. contains x a)
      (peer_endpoints-one parse lighthouse self checked now kept p before after b f)
    ∙ elim (Bool-cases (ltb checked (seen + 600))) [
      | inl recent ↦
          rw ((skipped recent), recent)
            (merged_served parse m a e es p.id cache (lighthouse (peer_ip p)) t now c l h)
      | inr old ↦ rw ((passed old), old) refl
    ]
  where
    by_time : is_skipped self checked p ≡ leb 600 (checked - seen)
    by_time = rw (other, has, s) refl

    skipped : ltb checked (seen + 600) ≡ true → is_skipped self checked p ≡ false
    skipped recent = by_time ∙ ground (arith, recent)

    passed : ltb checked (seen + 600) ≡ false → is_skipped self checked p ≡ true
    passed old = by_time ∙ ground (arith, old)

abbrev is_nil : List Bytes → Bool
is_nil [] = true
is_nil (e ∷ es) = false

-- After a heartbeat, what the control plane keeps of the endpoints of the agent is what it kept
-- before if the agent has none to report, and else the new ones with their expiry.
report_kept :
    (portmap : Option Manager) (es : List Bytes) (id : Bytes)
    (cache : List (Bytes × List EndpointHint)) (t : ℕ)
    → lookup id (keep_endpoints t id ((report portmap es).0, map pos (report portmap es).1) cache)
      ≡ (if is_nil es
          then lookup id cache
          else some (hints_of t es (map pos (self_endpoint_lifetimes portmap es))))
unfolding keep_endpoints report
report_kept portmap [] id cache t = refl
report_kept portmap (e ∷ es) id cache t =
    lookup-insert id id (hints_of t (e ∷ es) (map pos (self_endpoint_lifetimes portmap (e ∷ es))))
      cache
    ∙ rw (bytes_eq_refl id) refl
