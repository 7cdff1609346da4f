-- ===== src/Client/Renewal/Retries.antt =====
-- The retries of a renewal (internal/client/renew.go: renewNow, renewCert).
use hopssh.Base.{
  ℕ, zero, suc, ◌+◌, ◌≤◌, ◌≡◌, refl, ◌∙◌, inl, inr, Bool, true, false, not, ◌||◌, ◌&&◌, List, [],
  ◌∷◌, arith, Bool-cases, All,
}
use hopssh.Base.Text.{Bytes, is_empty}
use hopssh.Client.Renewal.{
  End, concluded, Response, no_token, request_failed, unauthorized, other_status, undecodable,
  renewed, KeyPair, Result, reloaded, failed, write_cert, renew_cert, Attempt, attempted,
  max_backoff, doubled, Log, retry_loop, concluded, renew_now, stamped, End, done,
}

-- An answer with a certificate and a key has a pair that matches, and the key can be written
-- whenever the certificate can.
abbrev IsSound : (Bytes → Bytes → Type 0) → Attempt → Type 0
IsSound Matches a =
    ((cert key : Bytes)
      → a.response ≡ renewed cert key
      → is_empty cert ≡ false
      → is_empty key ≡ false
      → Matches cert key)
    × (a.cert_writable ≡ true → a.key_writable ≡ true)

-- The answer has a certificate and a key, and both files can be written.
abbrev pub is_good : Attempt → Bool
is_good a = elim a.response [
  | renewed cert key ↦
      not (is_empty cert) && (not (is_empty key) && (a.cert_writable && a.key_writable))
  | _ ↦ false
]

abbrev pub is_done : End → Bool
is_done done = true
is_done _ = false

abbrev pub has_good : ℕ → List Attempt → Bool
has_good zero attempts = false
has_good (suc n) [] = false
has_good (suc n) (a ∷ attempts) = is_good a || has_good n attempts

written-Matches :
    (Matches : Bytes → Bytes → Type 0) (cert key : Bytes) (c k : Bool) (files : KeyPair)
    → Matches files.cert files.key
    → Matches cert key
    → (c ≡ true → k ≡ true)
    → Matches (write_cert c k cert key files).0.cert (write_cert c k cert key files).0.key
written-Matches Matches cert key false k files h m w = h
written-Matches Matches cert key true true files h m w = m
written-Matches Matches cert key true false files h m w = absurd (ground (arith, w refl))

attempted-Matches :
    (Matches : Bytes → Bytes → Type 0) (r : Response) (c k : Bool) (seconds : ℕ) (files : KeyPair)
    → Matches files.cert files.key
    → IsSound Matches
        (record { response = r; cert_writable = c; key_writable = k; seconds = seconds })
    → Matches (renew_cert r c k files).0.cert (renew_cert r c k files).0.key
unfolding renew_cert
attempted-Matches Matches (renewed cert key) c k seconds files h s =
    elim (Bool-cases (is_empty cert)) [
      | inl e ↦ rw e h
      | inr e ↦ elim (Bool-cases (is_empty key)) [
        | inl f ↦ rw (e, f) h
        | inr f ↦
            rw (e, f) (written-Matches Matches cert key c k files h (s.0 cert key refl e f) s.1)
      ]
    ]
attempted-Matches Matches no_token c k seconds files h s = h
attempted-Matches Matches request_failed c k seconds files h s = h
attempted-Matches Matches unauthorized c k seconds files h s = h
attempted-Matches Matches other_status c k seconds files h s = h
attempted-Matches Matches undecodable c k seconds files h s = h

concluded-Matches :
    (Matches : Bytes → Bytes → Type 0) (r : Result) (seconds : ℕ) (files : KeyPair) (rest : Log)
    → Matches files.cert files.key
    → Matches rest.files.cert rest.files.key
    → Matches (concluded r seconds files rest).files.cert (concluded r seconds files rest).files.key
concluded-Matches Matches reloaded seconds files rest h t = h
concluded-Matches Matches failed seconds files rest h t = t

retry_loop-Matches :
    (Matches : Bytes → Bytes → Type 0) (left backoff pending : ℕ) (attempts : List Attempt)
    (files : KeyPair)
    → Matches files.cert files.key
    → All (IsSound Matches) attempts
    → Matches
        (retry_loop left backoff pending attempts files).files.cert
        (retry_loop left backoff pending attempts files).files.key
unfolding retry_loop
retry_loop-Matches Matches zero backoff pending attempts files h s = h
retry_loop-Matches Matches (suc left) backoff pending [] files h s = h
retry_loop-Matches Matches (suc left) backoff pending (a ∷ attempts) files h s =
    let m =
      attempted-Matches Matches a.response a.cert_writable a.key_writable a.seconds files h s.0 in
    concluded-Matches Matches (attempted a files).1 a.seconds (attempted a files).0
      (retry_loop left (doubled backoff) a.seconds attempts (attempted a files).0) m
      (retry_loop-Matches Matches left (doubled backoff) a.seconds attempts (attempted a files).0 m
        s.1)

abbrev is_reloaded : Result → Bool
is_reloaded reloaded = true
is_reloaded failed = false

attempted-good :
    (r : Response) (c k : Bool) (seconds : ℕ) (files : KeyPair)
    → is_reloaded (renew_cert r c k files).1
      ≡ is_good (record { response = r; cert_writable = c; key_writable = k; seconds = seconds })
unfolding renew_cert
attempted-good (renewed cert key) c k seconds files = ground arith
attempted-good no_token c k seconds files = refl
attempted-good request_failed c k seconds files = refl
attempted-good unauthorized c k seconds files = refl
attempted-good other_status c k seconds files = refl
attempted-good undecodable c k seconds files = refl

concluded_done :
    (r : Result) (seconds : ℕ) (files : KeyPair) (rest : Log)
    → is_done (concluded r seconds files rest).end ≡ is_reloaded r || is_done rest.end
concluded_done reloaded seconds files rest = refl
concluded_done failed seconds files rest = refl

retry_loop_done :
    (left backoff pending : ℕ) (attempts : List Attempt) (files : KeyPair)
    → is_done (retry_loop left backoff pending attempts files).end ≡ has_good left attempts
unfolding retry_loop
retry_loop_done zero backoff pending attempts files = refl
retry_loop_done (suc left) backoff pending [] files = refl
retry_loop_done (suc left) backoff pending (a ∷ attempts) files =
    concluded_done (attempted a files).1 a.seconds (attempted a files).0
      (retry_loop left (doubled backoff) a.seconds attempts (attempted a files).0)
    ∙ rw
        (
          attempted-good a.response a.cert_writable a.key_writable a.seconds files,
          retry_loop_done left (doubled backoff) a.seconds attempts (attempted a files).0,
        )
        refl

-- An attempt that is answered and can write the certificate but not the key.
abbrev pub half_writable : ℕ → ℕ → Bytes → Bytes → ℕ → Attempt
half_writable x y xs ys seconds = record {
  response = renewed (x ∷ xs) (y ∷ ys);
  cert_writable = true;
  key_writable = false;
  seconds = seconds;
}

-- Whatever the attempts of a renewal are: it ends with a renewed certificate exactly if one of the
-- first thirteen attempts that are made is answered with a certificate and a key and can write both
-- files. If the files matched, each answered pair that is not empty matches, and the key can be
-- written whenever the certificate can, the files match afterwards. A renewal whose one attempt can
-- write the certificate but not the key leaves the new certificate beside the old key.
pub renew_now_files :
    (Matches : Bytes → Bytes → Type 0) (a : Attempt) (attempts : List Attempt) (files : KeyPair)
    (x y seconds : ℕ) (xs ys : Bytes)
    → Matches files.cert files.key
    → All (IsSound Matches) (a ∷ attempts)
    → Matches (renew_now a attempts files).files.cert (renew_now a attempts files).files.key
      × (is_done (renew_now a attempts files).end ≡ has_good 13 (a ∷ attempts))
      × ((renew_now (half_writable x y xs ys seconds) [] files).files
          ≡ record { cert = x ∷ xs; key = files.key })
unfolding renew_now renew_cert retry_loop
renew_now_files Matches a attempts files x y seconds xs ys h s =
    let m =
      attempted-Matches Matches a.response a.cert_writable a.key_writable a.seconds files h s.0 in
    let rest = stamped a.seconds (retry_loop 12 60 0 attempts (attempted a files).0) in
    (
      concluded-Matches Matches (attempted a files).1 a.seconds (attempted a files).0 rest m
          (retry_loop-Matches Matches 12 60 0 attempts (attempted a files).0 m s.1),
      concluded_done (attempted a files).1 a.seconds (attempted a files).0 rest
          ∙ rw
              (
                attempted-good a.response a.cert_writable a.key_writable a.seconds files,
                retry_loop_done 12 60 0 attempts (attempted a files).0,
              )
              refl,
      refl,
    )

-- At most the backoff of half an hour and the time of one attempt pass between stamps.
Brief : ℕ → Log → Type 0
Brief d log = All (λ gap. gap ≤ max_backoff + d) log.gaps × (log.pending ≤ max_backoff + d)

stamped-Brief :
    (d gap : ℕ) (log : Log) → gap ≤ max_backoff + d → Brief d log → Brief d (stamped gap log)
unfolding Brief
stamped-Brief d gap log g h = ((g, h.0), h.1)

concluded-Brief :
    (d : ℕ) (r : Result) (seconds : ℕ) (files : KeyPair) (rest : Log)
    → seconds ≤ d
    → Brief d rest
    → Brief d (concluded r seconds files rest)
unfolding Brief
concluded-Brief d reloaded seconds files rest s h = ((omega arith, tt), omega arith)
concluded-Brief d failed seconds files rest s h = h

retry_loop-Brief :
    (d left backoff pending : ℕ) (attempts : List Attempt) (files : KeyPair)
    → backoff ≤ max_backoff
    → pending ≤ d
    → All (λ a. a.seconds ≤ d) attempts
    → Brief d (retry_loop left backoff pending attempts files)
unfolding retry_loop Brief
retry_loop-Brief d zero backoff pending attempts files b p h = (tt, omega arith)
retry_loop-Brief d (suc left) backoff pending [] files b p h = (tt, omega arith)
retry_loop-Brief d (suc left) backoff pending (a ∷ attempts) files b p h =
    stamped-Brief d (pending + backoff)
      (concluded (attempted a files).1 a.seconds (attempted a files).0 rest) (omega arith)
      (concluded-Brief d (attempted a files).1 a.seconds (attempted a files).0 rest h.0 (
        retry_loop-Brief d left (doubled backoff) a.seconds attempts (attempted a files).0
          (ground arith) h.0 h.1))
  where
    rest : Log
    rest = retry_loop left (doubled backoff) a.seconds attempts (attempted a files).0

-- Whatever the attempts of a renewal come to, if none takes longer than `d` seconds: no more than
-- half an hour and `d` seconds pass from one stamp of the activity to the next, and from the last
-- stamp to the end.
pub renew_now-Brief :
    (d : ℕ) (a : Attempt) (attempts : List Attempt) (files : KeyPair)
    → All (λ b. b.seconds ≤ d) (a ∷ attempts)
    → All (λ gap. gap ≤ max_backoff + d) (renew_now a attempts files).gaps
      × ((renew_now a attempts files).pending ≤ max_backoff + d)
unfolding renew_now Brief
renew_now-Brief d a attempts files h =
    concluded-Brief d (attempted a files).1 a.seconds (attempted a files).0 (stamped a.seconds rest)
      h.0
      (stamped-Brief d a.seconds rest (omega (arith, h.0)) (
        retry_loop-Brief d 12 60 0 attempts (attempted a files).0 (ground arith) (ground arith)
          h.1))
  where
    rest : Log
    rest = retry_loop 12 60 0 attempts (attempted a files).0
