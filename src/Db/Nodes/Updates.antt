-- ===== src/Db/Nodes/Updates.antt =====
-- Enrollment tokens and the single-row updates of the node store (internal/db/nodes.go).
pub mod Token
use hopssh.Base.{ℕ, Bool, ◌&&◌, Option, none, some, List, [], ◌∷◌, ◌==◌, if◌then◌else◌}
use hopssh.Base.Text.{Bytes, bytes_eq}
use hopssh.Db.DeviceCodes.{Transaction, begin_fails, select_fails, update_fails, commits}
use hopssh.Db.Nodes.{
  Row, Status, enrolled, Error, sql_error, crypto_error, Result, ok, err, update_where, same_option,
  find_token,
}

-- What `ClaimEnrollmentToken` returns of the node, with its decrypted token.
pub record ClaimedNode : Type 0 where
  pub id : Bytes
  pub network_id : Bytes
  pub hostname : Bytes
  pub os : Bytes
  pub arch : Bytes
  pub status : Status
  pub nebula_ip : Bytes
  pub agent_token : Bytes

abbrev text_of : Option Bytes → Bytes
text_of none = []
text_of (some s) = s

abbrev pub claimed : Row → Bytes → ClaimedNode
claimed r token = record {
  id = r.id;
  network_id = r.network_id;
  hostname = r.hostname;
  os = r.os;
  arch = r.arch;
  status = r.status;
  nebula_ip = text_of r.nebula_ip;
  agent_token = token;
}

abbrev decrypted : (Bytes → Option Bytes) → Bytes → Option Bytes
decrypted decrypt [] = some []
decrypted decrypt (c ∷ cs) = decrypt (c ∷ cs)

abbrev consumes : Bytes → Row → Row → Bool
consumes h row r = bytes_eq r.id row.id && same_option r.enrollment_token (some h)

abbrev consume : Row → Row
consume r = record r { enrollment_token = none; enrollment_expires_at = none }

-- Behind the commit, only the token is still to be decrypted.
abbrev after_commit : (Bytes → Option Bytes) → Row → Result (Option ClaimedNode)
after_commit decrypt row = elim (decrypted decrypt row.agent_token) [
  | none ↦ err crypto_error
  | some token ↦ ok (some (claimed row token))
]

consume_token :
    (Bytes → Option Bytes)
    → Transaction
    → Bytes
    → Row
    → List Row
    → List Row × Result (Option ClaimedNode)
consume_token decrypt t h row rows =
    let (rows', affected) = update_where (consumes h row) consume rows in
    if affected == 0
    then (rows, ok none)
    else elim t [ commits ↦ (rows', after_commit decrypt row) | _ ↦ (rows, err sql_error) ]

-- `ClaimEnrollmentToken`: the transaction, as far as `t` lets it get.
unfoldable pub claim_enrollment_token :
    (Bytes → Bytes)
    → (Bytes → Option Bytes)
    → Transaction
    → ℕ
    → Bytes
    → List Row
    → List Row × Result (Option ClaimedNode)
unfolding consume_token
claim_enrollment_token hash decrypt begin_fails now token rows = (rows, err sql_error)
claim_enrollment_token hash decrypt select_fails now token rows = (rows, err sql_error)
claim_enrollment_token hash decrypt t now token rows = elim (find_token (hash token) now rows) [
  | none ↦ (rows, ok none)
  | some row ↦ elim t [
    | update_fails ↦ (rows, err sql_error)
    | other ↦ consume_token decrypt other (hash token) row rows
  ]
]

abbrev by_id : Bytes → Row → Bool
by_id id r = bytes_eq r.id id

abbrev when : Bool → List Row → List Row → List Row × Option Error
when works changed rows = if works then (changed, none) else (rows, some sql_error)

unfoldable pub complete_enrollment :
    (Bytes → Option Bytes)
    → Bool
    → Bytes
    → Bytes
    → Bytes
    → Bytes × Bytes × Bytes
    → List Row
    → List Row × Option Error
complete_enrollment encrypt works id cert key (hostname, os, arch) rows = elim (encrypt key) [
  | none ↦ (rows, some crypto_error)
  | some k ↦
      when works
        (update_where (by_id id)
          (λ r. record r {
            nebula_cert = cert;
            nebula_key = k;
            hostname = hostname;
            os = os;
            arch = arch;
            status = enrolled;
          })
          rows).0
        rows
]

unfoldable update_cert :
    (Bytes → Option Bytes) → Bool → Bytes → Bytes → Bytes → List Row → List Row × Option Error
update_cert encrypt works id cert key rows = elim (encrypt key) [
  | none ↦ (rows, some crypto_error)
  | some k ↦
      when works
        (update_where (by_id id) (λ r. record r { nebula_cert = cert; nebula_key = k }) rows).0 rows
]

unfoldable pub update_dns_name : Bool → Bytes → Bytes → List Row → List Row × Option Error
update_dns_name works id name rows =
    when works (update_where (by_id id) (λ r. record r { dns_name = some name }) rows).0 rows

unfoldable pub update_agent_real_ip : Bool → Bytes → Bytes → List Row → List Row × Option Error
update_agent_real_ip works id ip rows =
    when works (update_where (by_id id) (λ r. record r { agent_real_ip = some ip }) rows).0 rows

unfoldable rename : Bool → Bytes → Bytes → Bytes → List Row → List Row × Option Error
rename works id hostname name rows =
    when works
      (update_where (by_id id) (λ r. record r { dns_name = some name; hostname = hostname }) rows).0
      rows

unfoldable set_client_type : Bool → Bytes → Bytes → List Row → List Row × Option Error
set_client_type works id [] rows = (rows, none)
set_client_type works id (c ∷ cs) rows =
    when works (update_where (by_id id) (λ r. record r { client_type = some (c ∷ cs) }) rows).0 rows

delete : Bool → Bytes → List Row → List Row × Option Error
delete works id rows = if works then (without rows, none) else (rows, some sql_error)
  where
    without : List Row → List Row
    without [] = []
    without (r ∷ rs) = let rest = without rs in if bytes_eq r.id id then rest else r ∷ rest
