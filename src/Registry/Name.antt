-- ===== src/Registry/Name.antt =====
-- Enrollment names (validateEnrollmentName, caFingerprint and defaultEnrollmentName of
-- internal/client/enrollments.go). A name becomes a directory below the configuration directory.
use hopssh.Base.{
  ℕ, zero, suc, ◌+◌, ◌*◌, ◌/◌, ◌%◌, ◌≤◌, ◌<◌, ◌≡◌, refl, ap, ◌≢◌, inl, inr, Bool, true, false, not,
  ◌&&◌, ◌||◌, Option, none, some, List, [], ◌∷◌, arith, leb, ◌==◌, if◌then◌else◌, Bool-cases,
  Option-cases, length, take, All,
}
use hopssh.Base.Text.{Bytes, codes, is_empty, bytes_eq, bytes_eq_iff, contains}

pub data NameError : Type 0 where
  empty_name invalid_name reserved_name : NameError

abbrev is_alnum : ℕ → Bool
is_alnum c = (leb b'a' c && leb c b'z') || (leb b'0' c && leb c b'9')

abbrev is_name_char : ℕ → Bool
is_name_char c = is_alnum c || c == b'-'

all_chars : (ℕ → Bool) → Bytes → Bool
all_chars p [] = true
all_chars p (c ∷ cs) = p c && all_chars p cs

-- `^[a-z0-9][a-z0-9-]{0,31}$`
unfoldable pub matches_name_regex : Bytes → Bool
unfolding all_chars
matches_name_regex [] = false
matches_name_regex (c ∷ cs) = is_alnum c && (all_chars is_name_char cs && leb (length cs) 31)

unfoldable pub reserved_names : List Bytes
reserved_names =
    codes "enrollments.json"
    ∷ codes "con"
    ∷ codes "prn"
    ∷ codes "aux"
    ∷ codes "nul"
    ∷ codes "com1"
    ∷ codes "com2"
    ∷ codes "com3"
    ∷ codes "com4"
    ∷ codes "com5"
    ∷ codes "com6"
    ∷ codes "com7"
    ∷ codes "com8"
    ∷ codes "com9"
    ∷ codes "lpt1"
    ∷ codes "lpt2"
    ∷ codes "lpt3"
    ∷ codes "lpt4"
    ∷ codes "lpt5"
    ∷ codes "lpt6"
    ∷ codes "lpt7"
    ∷ codes "lpt8"
    ∷ codes "lpt9"
    ∷ []

unfoldable pub validate_enrollment_name : Bytes → Option NameError
validate_enrollment_name name =
    if is_empty name
    then some empty_name
    else if not (matches_name_regex name)
    then some invalid_name
    else if contains reserved_names name
    then some reserved_name
    else none

-- Lower-case hexadecimal digits, as `hex.EncodeToString` writes them.
abbrev hex_digit : ℕ → ℕ
hex_digit n = if leb n 9 then b'0' + n else 87 + n

hex_encode : Bytes → Bytes
hex_encode [] = []
hex_encode (b ∷ bs) = hex_digit (b / 16) ∷ hex_digit (b % 16) ∷ hex_encode bs

default_enrollment_name : Bytes → Bytes → Bytes
default_enrollment_name dns_domain fingerprint = elim (validate_enrollment_name dns_domain) [
  | none ↦ dns_domain
  | some _ ↦ fingerprint
]

-- What makes a name harmless as the name of a directory.
abbrev IsPathSafe : Bytes → Type 0
IsPathSafe name =
    (0 < length name)
    × (length name ≤ 32)
    × All (λ c. (c ≢ b'/') × (c ≢ b'\\') × (c ≢ b'.') × (0 < c)) name

all_chars-All :
    (cs : Bytes)
    → all_chars is_name_char cs ≡ true
    → All (λ c. (c ≢ b'/') × (c ≢ b'\\') × (c ≢ b'.') × (0 < c)) cs
unfolding all_chars
all_chars-All [] h = tt
all_chars-All (c ∷ cs) h = (ground arith, all_chars-All cs (ground arith))

-- A name that `validateEnrollmentName` accepts has 1 to 32 bytes, none of which is a slash, a
-- backslash, a dot or 0, and is not reserved.
validate_enrollment_name-IsPathSafe :
    (name : Bytes)
    → validate_enrollment_name name ≡ none
    → IsPathSafe name × (contains reserved_names name ≡ false)
unfolding validate_enrollment_name matches_name_regex
validate_enrollment_name-IsPathSafe [] h = ground arith
validate_enrollment_name-IsPathSafe (c ∷ cs) h =
    ((ground arith, ground arith, (ground arith, all_chars-All cs (ground arith))), ground arith)

-- `caFingerprint`; `sha256` is the hash of crypto/sha256.
unfoldable pub ca_fingerprint : (Bytes → Bytes) → Bytes → Bytes
unfolding hex_encode
ca_fingerprint sha256 pem = take 12 (hex_encode (sha256 pem))

abbrev AlnumChars : Bytes → Type 0
AlnumChars = All (λ c. is_alnum c ≡ true)

hex_digit-alnum : (n : ℕ) → n < 16 → is_alnum (hex_digit n) ≡ true
hex_digit-alnum n h = ground arith

AlnumChars-hex_encode : (bs : Bytes) → All (λ b. b < 256) bs → AlnumChars (hex_encode bs)
unfolding hex_encode
AlnumChars-hex_encode [] h = tt
AlnumChars-hex_encode (b ∷ bs) h = (
  hex_digit-alnum (b / 16) (omega (arith, h.0)),
  (hex_digit-alnum (b % 16) (omega arith), AlnumChars-hex_encode bs h.1),
)

length-hex_encode : (bs : Bytes) → length (hex_encode bs) ≡ 2 * length bs
unfolding hex_encode
length-hex_encode [] = omega arith
length-hex_encode (b ∷ bs) = omega (arith, length-hex_encode bs)

AlnumChars-take : (n : ℕ) (cs : Bytes) → AlnumChars cs → AlnumChars (take n cs)
AlnumChars-take zero cs h = tt
AlnumChars-take (suc n) [] h = tt
AlnumChars-take (suc n) (c ∷ cs) h = (h.0, AlnumChars-take n cs h.1)

length-take : (n : ℕ) (cs : Bytes) → n ≤ length cs → length (take n cs) ≡ n
length-take zero cs h = refl
length-take (suc n) [] h = omega arith
length-take (suc n) (c ∷ cs) h = omega (arith, length-take n cs (omega arith))

all_chars-AlnumChars : (cs : Bytes) → AlnumChars cs → all_chars is_name_char cs ≡ true
unfolding all_chars
all_chars-AlnumChars [] h = refl
all_chars-AlnumChars (c ∷ cs) h = ground (arith, h.0, all_chars-AlnumChars cs h.1)

matches_of_alnum :
    (cs : Bytes) → AlnumChars cs → 0 < length cs → length cs ≤ 32 → matches_name_regex cs ≡ true
unfolding matches_name_regex
matches_of_alnum [] h p q = absurd (omega arith)
matches_of_alnum (c ∷ cs) h p q = ground (arith, h.0, all_chars-AlnumChars cs h.1)

bytes_eq_of_lengths : (a b : Bytes) → length a ≢ length b → bytes_eq a b ≡ false
bytes_eq_of_lengths a b h = elim (Bool-cases (bytes_eq a b)) [
  | inl e ↦ absurd (h (ap length ((bytes_eq_iff a b).0 e)))
  | inr n ↦ n
]

contains_of_lengths :
    (rs : List Bytes) (a : Bytes) → All (λ r. length r ≢ length a) rs → contains rs a ≡ false
unfolding contains
contains_of_lengths [] a h = refl
contains_of_lengths (r ∷ rs) a h =
    ground (arith, bytes_eq_of_lengths r a h.0, contains_of_lengths rs a h.1)

twelve-not_reserved : (a : Bytes) → length a ≡ 12 → contains reserved_names a ≡ false
unfolding reserved_names
twelve-not_reserved a h = contains_of_lengths reserved_names a (omega arith)

ca_fingerprint_valid :
    (fp : Bytes) → AlnumChars fp → length fp ≡ 12 → validate_enrollment_name fp ≡ none
unfolding validate_enrollment_name
ca_fingerprint_valid [] h l = absurd (omega arith)
ca_fingerprint_valid (c ∷ cs) h l =
    ground (
      arith,
      matches_of_alnum (c ∷ cs) h (omega arith) (omega arith),
      twelve-not_reserved (c ∷ cs) l,
    )

-- The default name made of any DNS domain and the fingerprint of any certificate is accepted by
-- `validateEnrollmentName`, if SHA-256 gives 32 bytes.
default_enrollment_name_valid :
    (sha256 : Bytes → Bytes) (dns_domain pem : Bytes)
    → length (sha256 pem) ≡ 32
    → All (λ b. b < 256) (sha256 pem)
    → validate_enrollment_name (default_enrollment_name dns_domain (ca_fingerprint sha256 pem))
      ≡ none
unfolding default_enrollment_name ca_fingerprint
default_enrollment_name_valid sha256 dns_domain pem l h =
    elim (Option-cases (validate_enrollment_name dns_domain)) [
      | inl e ↦ rw (e, default_enrollment_name) e
      | inr (err, e) ↦
          rw (e, default_enrollment_name)
            (ca_fingerprint_valid (take 12 (hex_encode (sha256 pem)))
              (AlnumChars-take 12 (hex_encode (sha256 pem)) (AlnumChars-hex_encode (sha256 pem) h))
              (length-take 12 (hex_encode (sha256 pem))
                (omega (arith, length-hex_encode (sha256 pem)))))
    ]
