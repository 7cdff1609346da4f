-- ===== src/Api/Device/Members.antt =====
-- Who enrolls a node by the device flow, and what is recorded of it.
use hopssh.Base.{◌≡◌, refl, [], ◌∷◌, ◌++◌, sym, ap, ◌∙◌, inl, inr, true, some, List, arith, All}
use hopssh.Base.Text.{Bytes}
use hopssh.Auth.Access.{can_enroll_node}
use hopssh.Db.DeviceCodes.{DeviceCode, new_row, claim_authorized}
use hopssh.Db.DeviceCodes.Count.{count, count-claim_authorized, set_node_id_absent}
use mathlib.Core.Option.{some-injective}
use hopssh.Db.DeviceCodes.Claim.{claim_ok, claim_needs_authorized}
use hopssh.Db.DeviceCodes.Rows.{
  All-create, All-authorize, All-set_node_id, All-claim_authorized, All-find_authorized,
}
use hopssh.Db.Nodes.{Row}
use hopssh.Api.Device.{Services, State, NetworkRow, PollRequest, poll, enrolled}
use hopssh.Api.Device.Authorize.{
  Event, code_requested, authorization, polled, AuthorizeRequest, run, may_enroll,
}
use hopssh.Api.Device.Outcome.{IsPolled, poll-IsPolled}
use hopssh.Api.Device.Keeps.{IsKnown, Keeps-run}

-- Among the requests is an authorization for the network by a user who may enroll nodes in it.
pub IsAuthorized : Services → List Event → Bytes → Type 0
IsAuthorized e vs network =
    (before after : List Event) × (q : AuthorizeRequest) × (n : NetworkRow) × (vs
      ≡ before ++ (authorization q ∷ after))
    × (q.network_id ≡ network)
    × (e.networks network ≡ some n)
    × (can_enroll_node (some q.user) (some (record { user_id = n.owner }))
          (e.membership network q.user.id)
        ≡ true)

IsBacked : Services → List Event → DeviceCode → Type 0
IsBacked e vs r = (network : Bytes) → r.network_id ≡ some network → IsAuthorized e vs network

-- An authorization that is one of the requests.
abbrev IsAmong : List Event → AuthorizeRequest → Type 0
IsAmong vs q = (before after : List Event) × (vs ≡ before ++ (authorization q ∷ after))

snoc_append :
    (before after : List Event) (v : Event) → before ++ (v ∷ after) ≡ (before ++ (v ∷ [])) ++ after
snoc_append [] after v = refl
snoc_append (u ∷ before) after v = ap (λ l. u ∷ l) (snoc_append before after v)

All-IsAmong :
    (vs before after : List Event) → vs ≡ before ++ after → All (IsKnown (IsAmong vs)) after
All-IsAmong vs before [] h = tt
All-IsAmong vs before (code_requested q ∷ after) h =
    (tt, All-IsAmong vs (before ++ (code_requested q ∷ [])) after (h ∙ snoc_append before after _))
All-IsAmong vs before (authorization q ∷ after) h = (
  (before, after, h),
  All-IsAmong vs (before ++ (authorization q ∷ [])) after (h ∙ snoc_append before after _),
)
All-IsAmong vs before (polled q ∷ after) h =
    (tt, All-IsAmong vs (before ++ (polled q ∷ [])) after (h ∙ snoc_append before after _))

IsBacked-run :
    (e : Services) (vs : List Event) (s : State)
    → All (IsBacked e vs) s.device_codes
    → All (IsBacked e vs) (run e vs s).device_codes
unfolding IsBacked IsAuthorized may_enroll new_row
IsBacked-run e vs s =
    Keeps-run (All (IsBacked e vs)) (IsAmong vs) e
      (λ rows now c x y z h.
        All-create (IsBacked e vs) e.hash now c x y z rows
          (λ u network m. absurd (ground (arith, m))) h)
      (λ rows q n g m (before, after, among) h.
        All-authorize (IsBacked e vs) e.upper q.write q.now q.user_code q.user.id q.network_id rows
          (λ r b p network same.
            rw (← some-injective _ _ same) (before, after, q, n, among, refl, g, m))
          h)
      (λ rows q h.
        All-claim_authorized (IsBacked e vs) e.hash q.claim q.claim_now q.device_code rows
          (λ r b. b) h)
      (λ rows works c node h. All-set_node_id (IsBacked e vs) e.hash works c node rows (λ r b. b) h)
      vs s (All-IsAmong vs [] vs refl)

enrolled_injective : {a b c d : Bytes} → enrolled a b ≡ enrolled c d → (a ≡ c) × (b ≡ d)
enrolled_injective h = ground (arith, h)

-- From a table without device codes, after any requests: a poll that enrolls answers with the node
-- id that it drew, and with a network for which one of the requests is an authorization by a user
-- who, being its owner or by a role in it, may enroll nodes in it.
pub poll_enrolls_member :
    (e : Services) (vs : List Event) (nodes : List Row) (q : PollRequest) (id network : Bytes)
    → (poll e q (run e vs (record { device_codes = []; nodes = nodes }))).1 ≡ enrolled id network
    → (id ≡ q.node_id) × IsAuthorized e vs network
unfolding IsPolled IsBacked
poll_enrolls_member e vs nodes q id network r =
    elim (poll-IsPolled e q (run e vs (record { device_codes = []; nodes = nodes }))) [
      | inl (_, other) ↦ absurd (other id network r)
      | inr (inl (_, other)) ↦ absurd (other id network r)
      | inr (inr (dc, n, claimed, of, _, answer)) ↦
          let (row, found, copied, _) =
            claim_ok e.hash q.claim q.claim_now q.device_code
              (run e vs (record { device_codes = []; nodes = nodes })).device_codes dc claimed in
          let backed : IsBacked e vs row =
            All-find_authorized (IsBacked e vs) (e.hash q.device_code) q.claim_now _ row
              (IsBacked-run e vs (record { device_codes = []; nodes = nodes }) tt) found in
          let (same, here) = enrolled_injective (sym r ∙ answer) in
          (same, backed network (sym (ap (λ x. x.network_id) copied) ∙ of ∙ ap some (sym here)))
    ]

-- If no row is filed under the hash of the hash of its device code, a poll that enrolls records its
-- node at no row: the rows are those that the claim left.
pub node_id_unrecorded :
    (e : Services) (q : PollRequest) (s : State) (id network : Bytes)
    → count (e.hash (e.hash q.device_code)) s.device_codes ≡ 0
    → (poll e q s).1 ≡ enrolled id network
    → (poll e q s).0.device_codes
      ≡ (claim_authorized e.hash q.claim q.claim_now q.device_code s.device_codes).0
unfolding IsPolled
node_id_unrecorded e q s id network a r = elim (poll-IsPolled e q s) [
  | inl (_, other) ↦ absurd (other id network r)
  | inr (inl (_, other)) ↦ absurd (other id network r)
  | inr (inr (dc, n, claimed, of, set, answer)) ↦
      let (hashed, _, _, _) =
        claim_needs_authorized e.hash q.claim q.claim_now q.device_code s.device_codes dc claimed in
      set
      ∙ set_node_id_absent e.hash q.code_write dc.device_code q.node_id _ (
          rw hashed (
            count-claim_authorized (e.hash (e.hash q.device_code)) e.hash q.claim q.claim_now
              q.device_code s.device_codes
            ∙ a))
]
