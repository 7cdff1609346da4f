-- ===== src/Mesh/Dns/Answer.antt =====
-- What a query of the mesh DNS is answered (internal/mesh/dns.go, internal/mesh/network_manager.go).
use hopssh.Base.{
  ℕ, zero, suc, ◌-◌, ◌≡◌, refl, sym, ap, ◌∙◌, ◌↔◌, inl, inr, true, false, Option, none, some, List,
  [], ◌∷◌, ◌++◌, arith, if◌then◌else◌, Bool-cases, length, take, drop, length-append,
}
use hopssh.Base.Text.{Bytes, bytes_eq, bytes_eq_iff, bytes_eq_refl}
use hopssh.Base.Dict.{lookup, insert, lookup-insert}
use hopssh.Db.Nodes.{Row}
use hopssh.Mesh.Dns.{
  DnsRecord, MeshDns, Question, ARecord, CustomRecord, QuestionType, type_a, other_type, to4,
  has_suffix, trim_suffix, found, put_records, set_records, resolve, suffix, a_record, answer_to,
  append_answer, handle_query, node_records, custom_records, listed_rows, refresh_dns,
}

length-drop_append : (a b : Bytes) → drop (length a) (a ++ b) ≡ b
length-drop_append [] b = refl
length-drop_append (x ∷ a) b = length-drop_append a b

take-length_append : (a b : Bytes) → take (length a) (a ++ b) ≡ a
take-length_append [] b = refl
take-length_append (x ∷ a) b = ap (◌∷◌ x) (take-length_append a b)

take-drop_append : (n : ℕ) (s : Bytes) → take n s ++ drop n s ≡ s
take-drop_append zero s = refl
take-drop_append (suc n) [] = refl
take-drop_append (suc n) (x ∷ s) = ap (◌∷◌ x) (take-drop_append n s)

length-prefix : (a b : Bytes) → length (a ++ b) - length b ≡ length a
length-prefix a b = omega (arith, length-append a b)

has_suffix-append : (a b : Bytes) → has_suffix (a ++ b) b ≡ true
unfolding has_suffix
has_suffix-append a b =
    rw (length-prefix a b, length-drop_append a b) ground
      (arith, length-append a b, bytes_eq_refl b)

trim_suffix-append : (a b : Bytes) → trim_suffix (a ++ b) b ≡ a
unfolding trim_suffix
trim_suffix-append a b = rw (has_suffix-append a b, length-prefix a b) (take-length_append a b)

trim_suffix_restores : (s b : Bytes) → has_suffix s b ≡ true → trim_suffix s b ++ b ≡ s
unfolding trim_suffix has_suffix
trim_suffix_restores s b h =
    rw h cc (take-drop_append n s, (bytes_eq_iff (drop n s) b).0 (ground arith))
  where
    n : ℕ
    n = length s - length b

-- The address of the last record of a name.
abbrev or_else : Option Bytes → Option Bytes → Option Bytes
or_else none other = other
or_else (some ip) other = some ip

abbrev last_named : (Bytes → Bytes) → Bytes → List DnsRecord → Option Bytes
last_named lower k [] = none
last_named lower k (r ∷ rs) =
    or_else (last_named lower k rs) (if bytes_eq (lower r.name) k then some r.ip else none)

lookup-put_records :
    (lower : Bytes → Bytes) (k : Bytes) (rs : List DnsRecord) (m : List (Bytes × Bytes))
    → lookup k (put_records lower rs m) ≡ or_else (last_named lower k rs) (lookup k m)
unfolding put_records
lookup-put_records lower k [] m = refl
lookup-put_records lower k (r ∷ rs) m = ground (
  arith,
  lookup-put_records lower k rs (insert (lower r.name) r.ip m),
  lookup-insert (lower r.name) k r.ip m,
)

last_named-append :
    (lower : Bytes → Bytes) (k : Bytes) (rs ss : List DnsRecord)
    → last_named lower k (rs ++ ss) ≡ or_else (last_named lower k ss) (last_named lower k rs)
last_named-append lower k [] ss = ground (arith)
last_named-append lower k (r ∷ rs) ss = ground (arith, last_named-append lower k rs ss)

-- The address that a refresh gives a name: that of the last custom record of the name, else that of
-- the last node of the name.
abbrev pub served_ip :
    (Bytes → Bytes)
    → (Bytes → Option Bytes)
    → Option (List Row)
    → Option (List CustomRecord)
    → Bytes
    → Option Bytes
served_ip lower parse nodes customs k =
    or_else (last_named lower k (custom_records parse (listed_rows customs)))
      (last_named lower k (node_records parse (listed_rows nodes)))

a_record-only :
    (qname : Bytes) (a : ARecord) (four : Option Bytes)
    → append_answer (a_record qname four) [] ≡ a ∷ []
    → (four ≡ some a.a) × (a ≡ record { name = qname; ttl = 60; a = a.a })
a_record-only qname a none h = absurd (ground arith)
a_record-only qname a (some four) h = ground arith

module _ (lower : Bytes → Bytes) (parse : Bytes → Option Bytes) (nodes : Option (List Row))
    (customs : Option (List CustomRecord)) (d : MeshDns) where
  refreshed : MeshDns
  refreshed = refresh_dns parse lower nodes customs d

  resolve-refreshed :
      (name : Bytes)
      → resolve lower name refreshed ≡ found (served_ip lower parse nodes customs (lower name))
  unfolding resolve refresh_dns set_records refreshed lookup
  resolve-refreshed name =
      rw (lookup-put_records lower (lower name) records [], split)
        (plain (served_ip lower parse nodes customs (lower name)))
    where
      records : List DnsRecord
      records = node_records parse (listed_rows nodes) ++ custom_records parse (listed_rows customs)

      split :
          last_named lower (lower name) records ≡ served_ip lower parse nodes customs (lower name)
      split =
          last_named-append lower (lower name) (node_records parse (listed_rows nodes))
            (custom_records parse (listed_rows customs))

      plain : (o : Option Bytes) → found (or_else o none) ≡ found o
      plain none = refl
      plain (some ip) = refl

  answer-matched :
      (qname host : Bytes)
      → lower qname ≡ host ++ suffix d
      → answer_to lower refreshed type_a qname
        ≡ a_record qname (to4 (found (served_ip lower parse nodes customs (lower host))))
  unfolding answer_to refresh_dns set_records refreshed
  answer-matched qname host n =
      rw (n, has_suffix-append host (suffix d), trim_suffix-append host (suffix d))
        (ap (λ ip. a_record qname (to4 ip)) (resolve-refreshed host))

  answer-unmatched :
      (qname : Bytes)
      → has_suffix (lower qname) (suffix d) ≡ false
      → answer_to lower refreshed type_a qname ≡ none
  unfolding answer_to refresh_dns set_records refreshed
  answer-unmatched qname n = rw (n) refl

  IsAnswer : QuestionType → Bytes → ARecord → Type 0
  IsAnswer t qname a =
      (host : Bytes) × (t ≡ type_a)
      × (lower qname ≡ host ++ suffix d)
      × (to4 (found (served_ip lower parse nodes customs (lower host))) ≡ some a.a)
      × (a ≡ record { name = qname; ttl = 60; a = a.a })

  IsAnswer-sound :
      (t : QuestionType) (qname : Bytes) (a : ARecord)
      → append_answer (answer_to lower refreshed t qname) [] ≡ a ∷ []
      → IsAnswer t qname a
  unfolding IsAnswer answer_to
  IsAnswer-sound other_type qname a h = absurd (ground arith)
  IsAnswer-sound type_a qname a h = elim (Bool-cases (has_suffix (lower qname) (suffix d))) [
    | inl e ↦
        let host = trim_suffix (lower qname) (suffix d) in
        let name = sym (trim_suffix_restores (lower qname) (suffix d) e) in
        let made =
          a_record-only qname a (to4 (found (served_ip lower parse nodes customs (lower host))))
            (ap (λ o. append_answer o []) (sym (answer-matched qname host name)) ∙ h) in
        (host, refl, name, made.0, made.1)
    | inr n ↦ absurd (ground (arith, answer-unmatched qname n, h))
  ]

  IsAnswer-complete :
      (t : QuestionType) (qname : Bytes) (a : ARecord)
      → IsAnswer t qname a
      → append_answer (answer_to lower refreshed t qname) [] ≡ a ∷ []
  unfolding IsAnswer answer_to
  IsAnswer-complete other_type qname a (host, t, n, i, e) = ground arith
  IsAnswer-complete type_a qname a (host, t, n, i, e) =
      rw (answer-matched qname host n, i) (ap (λ b. b ∷ []) (sym e))

  -- After a refresh, a query of one question is answered with an A record exactly if it asks for
  -- the A record of a host of the domain, in any case, and the address is the IPv4 address, with a
  -- TTL of 60, of the last custom record of the host, or, where there is none, of the last record
  -- of a node of that name.
  pub query_answered :
      (q : Question) (a : ARecord)
      → (handle_query lower (refresh_dns parse lower nodes customs d) (q ∷ []) ≡ a ∷ []) ↔ (
          (host : Bytes) × (q.qtype ≡ type_a)
          × (lower q.name ≡ host ++ suffix d)
          × (to4 (found (served_ip lower parse nodes customs (lower host))) ≡ some a.a)
          × (a ≡ record { name = q.name; ttl = 60; a = a.a }))
  unfolding handle_query refreshed IsAnswer
  query_answered q a = (IsAnswer-sound q.qtype q.name a, IsAnswer-complete q.qtype q.name a)
