-- ===== src/Api/Device/Authorize.antt =====
-- The other handlers of the device flow (internal/api/device.go): RequestCode, Authorize and
-- VerifyCode, and the requests of the flow as events on its state.
use hopssh.Base.{ℕ, Bool, ◌||◌, Option, none, some, List, [], ◌∷◌, if◌then◌else◌}
use hopssh.Base.Text.{Bytes, is_empty}
use hopssh.Auth.Access.{UserProfile, can_enroll_node}
use hopssh.Db.DeviceCodes
use hopssh.Db.DeviceCodes.{DeviceCode}
use hopssh.Api.Device.{Services, State, NetworkRow, PollRequest, poll}

-- The plain code and the user codes that `RequestCode` draws, with the clock.
pub record CodeRequest : Type 0 where
  pub now : ℕ
  pub device_code : Bytes
  pub first : Bytes × Bool
  pub second : Bytes × Bool
  pub third : Bytes × Bool

-- The answer of `RequestCode`: the plain device code and the user code.
unfoldable pub request_code :
    Services → CodeRequest → State → State × DeviceCodes.Result (Bytes × Bytes)
request_code e q s =
    let (rows, made) =
      DeviceCodes.create e.hash q.now q.device_code q.first q.second q.third s.device_codes in
    (
      record s { device_codes = rows },
      elim made [
        | DeviceCodes.err x ↦ DeviceCodes.err x
        | DeviceCodes.ok dc ↦ DeviceCodes.ok (dc.device_code, dc.user_code)
      ],
    )

pub record AuthorizeRequest : Type 0 where
  pub user : UserProfile
  pub user_code : Bytes
  pub network_id : Bytes
  pub now : ℕ
  pub write : Bool

pub data AuthorizeResponse : Type 0 where
  missing_fields network_not_found refused authorized : AuthorizeResponse

-- Whether the user of the request may enroll a node in the network.
unfoldable pub may_enroll : Services → AuthorizeRequest → NetworkRow → Bool
may_enroll e q n =
    can_enroll_node (some q.user) (some (record { user_id = n.owner }))
      (e.membership q.network_id q.user.id)

unfoldable pub write_authorization : Services → AuthorizeRequest → State → State × AuthorizeResponse
write_authorization e q s =
    let (rows, failure) =
      DeviceCodes.authorize e.upper q.write q.now q.user_code q.user.id q.network_id
        s.device_codes in
    (record s { device_codes = rows }, elim failure [ some _ ↦ refused | none ↦ authorized ])

-- `Authorize`
unfoldable pub authorize : Services → AuthorizeRequest → State → State × AuthorizeResponse
unfolding may_enroll write_authorization
authorize e q s =
    if is_empty q.user_code || is_empty q.network_id
    then (s, missing_fields)
    else elim (e.networks q.network_id) [
      | none ↦ (s, network_not_found)
      | some n ↦ if may_enroll e q n then write_authorization e q s else (s, network_not_found)
    ]

-- `VerifyCode`: the user code, the status and the time of expiry.
verify_code : Services → Bool → ℕ → Bytes → State → Option (Bytes × DeviceCodes.Status × ℕ)
verify_code e works now code s =
    elim (DeviceCodes.get_by_user_code e.upper works now code s.device_codes) [
      | DeviceCodes.err _ ↦ none
      | DeviceCodes.ok none ↦ none
      | DeviceCodes.ok (some dc) ↦ some (dc.user_code, dc.status, dc.expires_at)
    ]

-- A request of the flow that can change the state.
pub data Event : Type 0 where
  code_requested : CodeRequest → Event
  authorization : AuthorizeRequest → Event
  polled : PollRequest → Event

unfoldable pub step : Services → Event → State → State
unfolding request_code authorize
step e (code_requested q) s = (request_code e q s).0
step e (authorization q) s = (authorize e q s).0
step e (polled q) s = (poll e q s).0

unfoldable pub run : Services → List Event → State → State
run e [] s = s
run e (v ∷ vs) s = run e vs (step e v s)
