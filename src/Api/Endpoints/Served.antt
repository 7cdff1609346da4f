-- ===== src/Api/Endpoints/Served.antt =====
-- What mergePeerEndpoints makes of a report (internal/api/renew.go).
use hopssh.Base.{
  ℕ, ◌+◌, ◌*◌, ◌/◌, ◌≤◌, ◌≡◌, refl, ap, ◌∙◌, inl, inr, Bool, false, not, ◌&&◌, ◌||◌, Option, none,
  some, List, [], ◌∷◌, ◌++◌, map, arith, ltb, leb, ◌==◌, if◌then◌else◌, Bool-cases, All,
}
use hopssh.Base.Text.{Bytes, bytes_eq, bytes_eq_iff, bytes_eq_refl, contains}
use hopssh.Base.Int.{pos}
use hopssh.Base.Dict.{lookup, lookup-insert}
use hopssh.Portmap.Manager.{Manager, lifetime_seconds}
use hopssh.Client.SelfEndpoints.{self_endpoint_lifetimes, report}
use hopssh.Api.Endpoints.{
  second, self_endpoint_hint_ttl, EndpointHint, expiry, hints_of, keep_endpoints, add_new,
  merge_lighthouse, merge_hints, merge_peer_endpoints,
}

abbrev names_addr : Option Bytes → Bytes → Bool
names_addr none a = false
names_addr (some s) a = bytes_eq s a

-- Whether the lighthouse knows the address.
abbrev pub known : List (Option Bytes) → Bytes → Bool
known [] a = false
known (ap ∷ aps) a = names_addr ap a || known aps a

contains-snoc :
    (out : List Bytes) (s a : Bytes) → contains (out ++ s ∷ []) a ≡ (contains out a || bytes_eq s a)
unfolding contains
contains-snoc [] s a = ground arith
contains-snoc (x ∷ out) s a = ground (arith, contains-snoc out s a)

contains-add_new :
    (o : Option Bytes) (out : List Bytes) (a : Bytes)
    → contains (add_new o out) a ≡ (contains out a || names_addr o a)
unfolding add_new
contains-add_new none out a = ground arith
contains-add_new (some s) out a = ground (arith, contains-snoc out s a, bytes_eq_iff s a)

contains-merge_lighthouse :
    (aps : List (Option Bytes)) (out : List Bytes) (a : Bytes)
    → contains (merge_lighthouse aps out) a ≡ (contains out a || known aps a)
unfolding merge_lighthouse
contains-merge_lighthouse [] out a = ground arith
contains-merge_lighthouse (ap ∷ aps) out a =
    ground (arith, contains-merge_lighthouse aps (add_new ap out) a, contains-add_new ap out a)

abbrev served : (Bytes → Option Bytes) → ℕ → List EndpointHint → Bytes → Bool
served parse now [] a = false
served parse now (h ∷ hs) a =
    not (ltb h.expires_at now) && names_addr (parse h.addr) a || served parse now hs a

contains-merge_hints :
    (parse : Bytes → Option Bytes) (now : ℕ) (hs : List EndpointHint) (out : List Bytes) (a : Bytes)
    → contains (merge_hints parse now hs out) a ≡ (contains out a || served parse now hs a)
unfolding merge_hints
contains-merge_hints parse now [] out a = ground arith
contains-merge_hints parse now (h ∷ hs) out a = ground (
  arith,
  contains-merge_hints parse now hs
      (if ltb h.expires_at now then out else add_new (parse h.addr) out) a,
  contains-add_new (parse h.addr) out a,
)

served-hints_of :
    (parse : Bytes → Option Bytes) (t now l : ℕ) (es : List Bytes) (a : Bytes)
    → All (λ e. parse e ≡ some e) es
    → served parse now (hints_of t es (map pos (map (λ e. if bytes_eq e a then l else 0) es))) a
      ≡ (contains es a && leb now (expiry t (some (pos l))))
unfolding hints_of contains
served-hints_of parse t now l [] a h = refl
served-hints_of parse t now l (e ∷ es) a h = elim (Bool-cases (bytes_eq e a)) [
  | inl b ↦ rw (h.0, b) (ground (arith, b, served-hints_of parse t now l es a h.1))
  | inr b ↦ rw (h.0, b) (ground (arith, b, served-hints_of parse t now l es a h.1))
]

-- The earlier of the two ends.
expiry_min :
    (t now l : ℕ)
    → 1 ≤ l
    → leb now (expiry t (some (pos l)))
      ≡ (leb now (t + l / 2 * second) && leb now (t + self_endpoint_hint_ttl))
expiry_min t now l h = ground (arith, h)

pub merged_served :
    (parse : Bytes → Option Bytes) (m : Manager) (a e : Bytes) (es : List Bytes) (id : Bytes)
    (cache : List (Bytes × List EndpointHint)) (lighthouse : List (Option Bytes)) (t now : ℕ)
    → m.current ≡ some a
    → second ≤ m.ttl
    → All (λ x. parse x ≡ some x) (e ∷ es)
    → contains
        (merge_peer_endpoints parse lighthouse
          (lookup id (
            keep_endpoints t id
              ((report (some m) (e ∷ es)).0, map pos (report (some m) (e ∷ es)).1)
              cache))
          now)
        a
      ≡ (known lighthouse a
          || (contains (e ∷ es) a
              && (leb now (t + m.ttl / second / 2 * second)
                  && leb now (t + self_endpoint_hint_ttl))))
unfolding merge_peer_endpoints keep_endpoints report self_endpoint_lifetimes lifetime_seconds
    contains
merged_served parse m a e es id cache lighthouse t now c l h =
    let whole : 1 ≤ m.ttl / second = omega (arith, l) in
    let lasting : (m.ttl / second == 0) ≡ false = ground (arith, whole) in
    rw
      (
        lasting,
        c,
        lookup-insert id id
            (hints_of t (e ∷ es)
              (map pos (map (λ x. if bytes_eq x a then m.ttl / second else 0) (e ∷ es))))
            cache,
        bytes_eq_refl id,
      )
      (contains-merge_hints parse now
          (hints_of t (e ∷ es)
            (map pos (map (λ x. if bytes_eq x a then m.ttl / second else 0) (e ∷ es))))
          (merge_lighthouse lighthouse []) a
        ∙ rw
            (
              contains-merge_lighthouse lighthouse [] a,
              served-hints_of parse t now (m.ttl / second) (e ∷ es) a h,
              expiry_min t now (m.ttl / second) whole,
            )
            refl)
