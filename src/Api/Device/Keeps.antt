-- ===== src/Api/Device/Keeps.antt =====
-- What every query on the table of the device codes keeps, every request of the flow keeps.
use hopssh.Base.{
  ℕ, ◌≡◌, inl, inr, Bool, true, ◌||◌, some, List, [], ◌∷◌, All, Bool-cases, Option-cases,
}
use hopssh.Base.Text.{Bytes, is_empty}
use hopssh.Db.DeviceCodes
use hopssh.Db.DeviceCodes.{
  DeviceCode, completed, new_row, set_node_id, claim_authorized, update_where, claimable,
}
use hopssh.Api.Device.{Services, State, NetworkRow, PollRequest, poll}
use hopssh.Api.Device.Authorize.{
  Event, code_requested, authorization, polled, step, run, request_code, authorize,
  AuthorizeRequest, may_enroll, write_authorization,
}
use hopssh.Api.Device.Outcome.{IsPolled, poll-IsPolled}

-- What is known of the authorizations among the requests.
abbrev pub IsKnown : (AuthorizeRequest → Type 0) → Event → Type 0
IsKnown Known (authorization q) = Known q
IsKnown Known _ = Unit

-- What the tables hold after each request, if every query on them keeps it.
module _ {ℓ} (Keeps : List DeviceCode → Type ℓ) (Known : AuthorizeRequest → Type 0) (e : Services)
    (creates : (rows : List DeviceCode) (now : ℕ) (code : Bytes) (a b c : Bytes × Bool)
      → Keeps rows
      → Keeps (DeviceCodes.create e.hash now code a b c rows).0)
    (authorizes : (rows : List DeviceCode) (q : AuthorizeRequest) (n : NetworkRow)
      → e.networks q.network_id ≡ some n
      → may_enroll e q n ≡ true
      → Known q
      → Keeps rows
      → Keeps
          (DeviceCodes.authorize e.upper q.write q.now q.user_code q.user.id q.network_id rows).0)
    (claims : (rows : List DeviceCode) (q : PollRequest)
      → Keeps rows
      → Keeps (claim_authorized e.hash q.claim q.claim_now q.device_code rows).0)
    (records : (rows : List DeviceCode) (works : Bool) (code node : Bytes)
      → Keeps rows
      → Keeps (set_node_id e.hash works code node rows).0) where
  Keeps-authorize :
      (q : AuthorizeRequest) (s : State)
      → Known q
      → Keeps s.device_codes
      → Keeps (authorize e q s).0.device_codes
  unfolding authorize write_authorization
  Keeps-authorize q s known k = elim (Bool-cases (is_empty q.user_code || is_empty q.network_id)) [
    | inl h ↦ rw (h, authorize) k
    | inr h ↦ elim (Option-cases (e.networks q.network_id)) [
      | inl g ↦ rw (h, g, authorize) k
      | inr (n, g) ↦ elim (Bool-cases (may_enroll e q n)) [
        | inl m ↦ rw (h, g, m, authorize) (authorizes s.device_codes q n g m known k)
        | inr m ↦ rw (h, g, m, authorize) k
      ]
    ]
  ]

  Keeps-poll :
      (q : PollRequest) (s : State) → Keeps s.device_codes → Keeps (poll e q s).0.device_codes
  unfolding IsPolled
  Keeps-poll q s k = elim (poll-IsPolled e q s) [
    | inl (kept, _) ↦ rw kept k
    | inr (inl (claimed, _)) ↦ rw claimed (claims s.device_codes q k)
    | inr (inr (dc, n, _, _, set, _)) ↦
        rw set (records _ q.code_write dc.device_code q.node_id (claims s.device_codes q k))
  ]

  Keeps-step :
      (v : Event) (s : State)
      → IsKnown Known v
      → Keeps s.device_codes
      → Keeps (step e v s).device_codes
  unfolding step request_code
  Keeps-step (code_requested q) s known k =
      creates s.device_codes q.now q.device_code q.first q.second q.third k
  Keeps-step (authorization q) s known k = Keeps-authorize q s known k
  Keeps-step (polled q) s known k = Keeps-poll q s k

  pub Keeps-run :
      (vs : List Event) (s : State)
      → All (IsKnown Known) vs
      → Keeps s.device_codes
      → Keeps (run e vs s).device_codes
  unfolding run
  Keeps-run [] s known k = k
  Keeps-run (v ∷ vs) s known k = Keeps-run vs (step e v s) known.1 (Keeps-step v s known.0 k)
