-- ===== src/Client/Renewal.antt =====
-- The renewal of the agent's certificate (internal/client/renew.go: timeUntilRenewal, renewCert and
-- renewNow in runCertRenewal). Points of time and the time until the renewal are in nanoseconds,
-- the waits of the retries in seconds. `random n` is rand.Int63n. What the control plane answers,
-- whether the files can be written, and how long a request takes are arguments.
pub mod Due
pub mod Retries
use hopssh.Base.{
  ℕ, zero, suc, ◌+◌, ◌-◌, ◌*◌, ◌/◌, ◌%◌, ◌≤◌, ◌<◌, ◌≡◌, refl, sym, ap, ◌∙◌, ◌≢◌, ◌↔◌, ◌⊎◌, inl, inr,
  Bool, true, false, not, ◌&&◌, ◌||◌, Option, none, some, List, [], ◌∷◌, ◌++◌, map, arith, ltb, leb,
  ◌==◌, if◌then◌else◌, ltb→lt, lt→ltb, leb→le, ==_iff, Bool-cases, Option-cases, length, get_or,
  take, drop, drop_last, replicate, All, length-append, drop_last-append,
}
use hopssh.Base.Text.{Bytes, codes, is_empty, bytes_eq, bytes_eq_iff, bytes_eq_refl, contains}
use hopssh.Base.Int.{ℤ, pos, negsuc, sub_ℕ}

-- The certificate on disk, with the end of its validity.
pub data CertFile : Type 0 where
  unreadable malformed : CertFile
  valid_until : ℕ → CertFile

-- rand.Int63n panics on 0.
pub data RenewalTime : Type 0 where
  unknown panics : RenewalTime
  due_in : ℤ → RenewalTime

abbrev half_with_jitter : (ℕ → ℕ) → ℕ → ℤ
half_with_jitter random remaining = sub_ℕ (remaining / 2 + random (remaining / 5)) (remaining / 10)

pub time_until_renewal : (ℕ → ℕ) → CertFile → ℕ → RenewalTime
time_until_renewal random unreadable now = unknown
time_until_renewal random malformed now = unknown
time_until_renewal random (valid_until end) now =
    if leb end now
    then due_in (pos 0)
    else if (end - now) / 5 == 0
    then panics
    else due_in (half_with_jitter random (end - now))

-- Whether a pass of the loop begins a renewal: `renewAt <= 0`.
pub is_due : RenewalTime → Bool
is_due (due_in (pos zero)) = true
is_due (due_in (negsuc n)) = true
is_due _ = false

-- The answer to the request.
pub data Response : Type 0 where
  no_token request_failed unauthorized other_status undecodable : Response
  renewed : Bytes → Bytes → Response

pub record KeyPair : Type 0 where
  pub cert : Bytes
  pub key : Bytes

-- `reloaded` is nil, after Nebula was told to reload.
pub data Result : Type 0 where
  reloaded failed : Result

abbrev write_key : Bool → Bytes → KeyPair → KeyPair × Result
write_key false key files = (files, failed)
write_key true key files = (record files { key = key }, reloaded)

abbrev write_cert : Bool → Bool → Bytes → Bytes → KeyPair → KeyPair × Result
write_cert false key_writable cert key files = (files, failed)
write_cert true key_writable cert key files =
    write_key key_writable key (record files { cert = cert })

-- renewCert; the flags say whether the two files can be written.
unfoldable pub renew_cert : Response → Bool → Bool → KeyPair → KeyPair × Result
renew_cert (renewed cert key) cert_writable key_writable files =
    if is_empty cert || is_empty key
    then (files, failed)
    else write_cert cert_writable key_writable cert key files
renew_cert _ cert_writable key_writable files = (files, failed)

-- An attempt of the loop, and the seconds that it takes.
pub record Attempt : Type 0 where
  pub response : Response
  pub cert_writable : Bool
  pub key_writable : Bool
  pub seconds : ℕ

abbrev pub attempted : Attempt → KeyPair → KeyPair × Result
attempted a files = renew_cert a.response a.cert_writable a.key_writable files

abbrev pub max_backoff : ℕ
max_backoff = 1800

abbrev pub doubled : ℕ → ℕ
doubled backoff = if ltb max_backoff (backoff * 2) then max_backoff else backoff * 2

-- How renewNow ends: renewed, given up after the retries, or cancelled while it waits.
pub data End : Type 0 where
  done exhausted cancelled : End

-- What renewNow does: the seconds between the stamps of its activity, those since the last stamp
-- at its end, the files, and the end.
pub record Log : Type 0 where
  pub gaps : List ℕ
  pub pending : ℕ
  pub files : KeyPair
  pub end : End

abbrev stamped : ℕ → Log → Log
stamped gap log = record log { gaps = gap ∷ log.gaps }

-- A successful attempt is stamped and ends the renewal; a failed one is followed by the rest.
abbrev pub concluded : Result → ℕ → KeyPair → Log → Log
concluded reloaded seconds files rest = record {
  gaps = seconds ∷ [];
  pending = 0;
  files = files;
  end = done;
}
concluded failed seconds files rest = rest

-- The retries: `pending` is the time since the last stamp. The list holds the attempts that are
-- made; where it ends before the retries do, the context is cancelled in the wait.
pub retry_loop : ℕ → ℕ → ℕ → List Attempt → KeyPair → Log
retry_loop zero backoff pending attempts files = record {
  gaps = [];
  pending = pending;
  files = files;
  end = exhausted;
}
retry_loop (suc left) backoff pending [] files = record {
  gaps = [];
  pending = pending + backoff;
  files = files;
  end = cancelled;
}
retry_loop (suc left) backoff pending (a ∷ attempts) files =
    let (files', result) = attempted a files in
    let rest = retry_loop left (doubled backoff) a.seconds attempts files' in
    stamped (pending + backoff) (concluded result a.seconds files' rest)

-- renewNow, from a stamp of the activity.
pub renew_now : Attempt → List Attempt → KeyPair → Log
renew_now a attempts files =
    let (files', result) = attempted a files in
    concluded result a.seconds files' (stamped a.seconds (retry_loop 12 60 0 attempts files'))
