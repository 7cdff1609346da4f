-- ===== src/Api/Device/Outcome.antt =====
-- What Poll does to the rows of the device codes.
use hopssh.Base.{
  ◌≡◌, refl, ◌≢◌, ◌⊎◌, inl, inr, Option, none, some, arith, ltb, Bool-cases, Option-cases,
}
use hopssh.Base.Text.{Bytes, is_empty, contains}
use hopssh.Db.DeviceCodes
use hopssh.Db.DeviceCodes.{DeviceCode, set_node_id, claim_authorized}
use hopssh.Db.Nodes
use hopssh.Db.Nodes.Index.{next_node_index}
use hopssh.Db.Nodes.Updates.{complete_enrollment}
use hopssh.Pki
use hopssh.Pki.{Prefix, node_address}
use hopssh.Registry.Name.{ca_fingerprint}
use hopssh.Api.Device.{
  pos, is_pending, bad_request, server_error, Services, State, NetworkRow, PollRequest, Response,
  poll, finish, issue, create_node, allocate, enroll, claim_and_enroll, check_status, is_completed,
  enrolled, polled_node,
}

-- The answer does not enroll and leaves the rows of the codes, or it enrolls into the network of
-- the code and records the node.
IsOutcome : Services → PollRequest → DeviceCode → Option Bytes → State → State × Response → Type 0
IsOutcome e q dc network s r =
    ((r.0.device_codes ≡ s.device_codes) × ((id n : Bytes) → r.1 ≢ enrolled id n))
    ⊎ ((n : Bytes) × (network ≡ some n)
        × (r.0.device_codes
            ≡ (set_node_id e.hash q.code_write dc.device_code q.node_id s.device_codes).0)
        × (r.1 ≡ enrolled q.node_id n))

issue-IsOutcome :
    (e : Services) (q : PollRequest) (dc : DeviceCode) (network : Bytes) (s : State)
    → IsOutcome e q dc (some network) s (issue e q dc network s)
unfolding IsOutcome issue finish
issue-IsOutcome e q dc network s = elim (Option-cases q.cert) [
  | inl n ↦ inl (ground (arith, n), λ id m. ground (arith, n))
  | inr (c, h) ↦
      elim (Option-cases
        (complete_enrollment e.encrypt q.complete_write q.node_id c.0 c.1 (q.hostname, q.os, q.arch)
          s.nodes).1) [
            | inl n ↦ inr (network, refl, ground (arith, h, n), ground (arith, h, n))
            | inr (x, n) ↦ inl (ground (arith, h, n), λ id m. ground (arith, h, n))
          ]
]

create_node-IsOutcome :
    (e : Services) (q : PollRequest) (dc : DeviceCode) (network : Bytes) (ip : Prefix) (s : State)
    → IsOutcome e q dc (some network) s (create_node e q dc network ip s)
unfolding create_node IsOutcome Nodes.create set_node_id
create_node-IsOutcome e q dc network ip s =
    elim (Option-cases
      (Nodes.create e.hash e.encrypt q.node_write (polled_node q network (e.show ip)) s.nodes).1) [
        | inl n ↦ rw n (
            issue-IsOutcome e q dc network (record s {
              nodes =
                  (Nodes.create e.hash e.encrypt q.node_write (polled_node q network (e.show ip))
                    s.nodes).0;
            }))
        | inr (x, n) ↦ inl (ground (arith, n), λ id m. ground (arith, n))
      ]

-- Everything but an enrollment leaves the rows.
fails-IsOutcome :
    (e : Services) (q : PollRequest) (dc : DeviceCode) (network : Option Bytes) (s : State)
    (x : Response)
    → ((id n : Bytes) → x ≢ enrolled id n)
    → IsOutcome e q dc network s (s, x)
unfolding IsOutcome
fails-IsOutcome e q dc network s x other = inl (refl, other)

allocate-IsOutcome :
    (e : Services) (q : PollRequest) (dc : DeviceCode) (n : NetworkRow) (network : Bytes)
    (s : State)
    → IsOutcome e q dc (some network) s (allocate e q dc n network s)
unfolding allocate
allocate-IsOutcome e q dc n network s =
    elim (Option-cases (next_node_index e.atoi q.index_read network s.nodes)) [
      | inl h ↦ rw (h, allocate) (fails-IsOutcome e q dc _ s _ (λ id m. ground (arith)))
      | inr (i, h) ↦ rw (h, allocate) (addressed (node_address e.parse n.nebula_subnet (pos i)))
    ]
  where
    addressed :
        (a : Pki.Result Prefix)
        → IsOutcome e q dc (some network) s (elim a as (λ _. State × Response) [
          | Pki.ok ip ↦ create_node e q dc network ip s
          | _ ↦ (s, server_error)
        ])
    addressed (Pki.ok ip) = create_node-IsOutcome e q dc network ip s
    addressed Pki.parse_error = fails-IsOutcome e q dc _ s _ (λ id m. ground (arith))
    addressed Pki.out_of_range = fails-IsOutcome e q dc _ s _ (λ id m. ground (arith))
    addressed Pki.panic = fails-IsOutcome e q dc _ s _ (λ id m. ground (arith))

enroll-IsOutcome :
    (e : Services) (q : PollRequest) (dc : DeviceCode) (s : State)
    → IsOutcome e q dc dc.network_id s (enroll e q dc s)
unfolding enroll IsOutcome
enroll-IsOutcome e q dc s = elim (Option-cases dc.network_id) [
  | inl h ↦ rw (h, enroll) (fails-IsOutcome e q dc _ s _ (λ id m. ground (arith)))
  | inr (network, h) ↦ elim (Option-cases (e.networks network)) [
    | inl g ↦ rw (h, g, enroll) (fails-IsOutcome e q dc _ s _ (λ id m. ground (arith)))
    | inr (n, g) ↦
        elim (Bool-cases
          (contains q.existing_network_cas (ca_fingerprint e.sha256 n.nebula_ca_cert))) [
            | inl c ↦ rw (h, g, c, enroll) (fails-IsOutcome e q dc _ s _ (λ id m. ground (arith)))
            | inr c ↦ rw (h, g, c, enroll) (allocate-IsOutcome e q dc n network s)
          ]
  ]
]

-- A poll leaves the rows of the codes, or does to them what the claim does, and maybe records the
-- node of the claimed code, in which case it enrolls into the network of the code.
unfoldable pub IsPolled : Services → PollRequest → State → State × Response → Type 0
IsPolled e q s r =
    ((r.0.device_codes ≡ s.device_codes) × ((id n : Bytes) → r.1 ≢ enrolled id n))
    ⊎ ((r.0.device_codes
          ≡ (claim_authorized e.hash q.claim q.claim_now q.device_code s.device_codes).0)
        × ((id n : Bytes) → r.1 ≢ enrolled id n))
    ⊎ ((dc : DeviceCode) × (n : Bytes) × ((claim_authorized e.hash q.claim q.claim_now q.device_code
            s.device_codes).1
          ≡ DeviceCodes.ok (some dc))
        × (dc.network_id ≡ some n)
        × (r.0.device_codes
            ≡ (set_node_id e.hash q.code_write dc.device_code q.node_id
                (claim_authorized e.hash q.claim q.claim_now q.device_code s.device_codes).0).0)
        × (r.1 ≡ enrolled q.node_id n))

claimed-IsPolled :
    (e : Services) (q : PollRequest) (dc : DeviceCode) (s : State) (r : State × Response)
    → (claim_authorized e.hash q.claim q.claim_now q.device_code s.device_codes).1
      ≡ DeviceCodes.ok (some dc)
    → IsOutcome e q dc dc.network_id
        (record s {
          device_codes =
              (claim_authorized e.hash q.claim q.claim_now q.device_code s.device_codes).0;
        })
        r
    → IsPolled e q s r
unfolding IsPolled IsOutcome
claimed-IsPolled e q dc s r h (inl (kept, other)) = inr (inl (kept, other))
claimed-IsPolled e q dc s r h (inr (n, network, set, answer)) =
    inr (inr (dc, n, h, network, set, answer))

-- Without a code the poll only claims.
unclaimed-IsPolled :
    (e : Services) (q : PollRequest) (s : State) (x : Response)
    → ((id n : Bytes) → x ≢ enrolled id n)
    → IsPolled e q s (
      record s {
        device_codes = (claim_authorized e.hash q.claim q.claim_now q.device_code s.device_codes).0;
      },
      x,
    )
unfolding IsPolled
unclaimed-IsPolled e q s x other = inr (inl (refl, other))

-- Before the claim the poll changes nothing.
fails-IsPolled :
    (e : Services) (q : PollRequest) (s : State) (x : Response)
    → ((id n : Bytes) → x ≢ enrolled id n)
    → IsPolled e q s (s, x)
unfolding IsPolled
fails-IsPolled e q s x other = inl (refl, other)

claim_and_enroll-IsPolled :
    (e : Services) (q : PollRequest) (s : State) → IsPolled e q s (claim_and_enroll e q s)
unfolding claim_and_enroll
claim_and_enroll-IsPolled e q s =
    claimed (claim_authorized e.hash q.claim q.claim_now q.device_code s.device_codes).1 refl
  where
    claimed :
        (c : DeviceCodes.Result (Option DeviceCode))
        → (claim_authorized e.hash q.claim q.claim_now q.device_code s.device_codes).1 ≡ c
        → IsPolled e q s (claim_and_enroll e q s)
    claimed (DeviceCodes.err x) h =
        rw (h, claim_and_enroll) (unclaimed-IsPolled e q s _ (λ id m. ground (arith)))
    claimed (DeviceCodes.ok none) h =
        rw (h, claim_and_enroll) (unclaimed-IsPolled e q s _ (λ id m. ground (arith)))
    claimed (DeviceCodes.ok (some dc)) h =
        rw (h, claim_and_enroll) (claimed-IsPolled e q dc s _ h (enroll-IsOutcome e q dc _))

pub poll-IsPolled : (e : Services) (q : PollRequest) (s : State) → IsPolled e q s (poll e q s)
unfolding poll check_status
poll-IsPolled e q s = elim (Bool-cases (is_empty q.device_code)) [
  | inl h ↦ rw (h, poll) (fails-IsPolled e q s _ (λ id m. ground (arith)))
  | inr h ↦
      rw (h, poll)
        (read (DeviceCodes.get_by_device_code e.hash q.code_read q.device_code s.device_codes))
]
  where
    read :
        (g : DeviceCodes.Result (Option DeviceCode))
        → IsPolled e q s (elim g as (λ _. State × Response) [
          | DeviceCodes.err _ ↦ (s, bad_request)
          | DeviceCodes.ok none ↦ (s, bad_request)
          | DeviceCodes.ok (some dc) ↦ check_status e q dc s
        ])
    read (DeviceCodes.err x) = fails-IsPolled e q s _ (λ id m. ground (arith))
    read (DeviceCodes.ok none) = fails-IsPolled e q s _ (λ id m. ground (arith))
    read (DeviceCodes.ok (some dc)) = elim (Bool-cases (ltb dc.expires_at q.now)) [
      | inl a ↦ rw (a, check_status) (fails-IsPolled e q s _ (λ id m. ground (arith)))
      | inr a ↦ elim (Bool-cases (is_pending dc.status)) [
        | inl b ↦ rw (a, b, check_status) (fails-IsPolled e q s _ (λ id m. ground (arith)))
        | inr b ↦ elim (Bool-cases (is_completed dc.status)) [
          | inl c ↦ rw (a, b, c, check_status) (fails-IsPolled e q s _ (λ id m. ground (arith)))
          | inr c ↦ rw (a, b, c, check_status) (claim_and_enroll-IsPolled e q s)
        ]
      ]
    ]
