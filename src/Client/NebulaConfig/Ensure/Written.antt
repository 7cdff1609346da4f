-- ===== src/Client/NebulaConfig/Ensure/Written.antt =====
-- What the settings are after the edits (internal/client/renew.go: ensureP2PConfig).
use hopssh.Base.{
  ℕ, ◌≡◌, refl, ap, ◌∙◌, inl, inr, true, false, Option, none, some, List, [], ◌∷◌, arith,
  Bool-cases, All,
}
use hopssh.Base.Text.{Bytes, codes, bytes_eq, bytes_eq_iff, contains}
use hopssh.Base.Int.{ℤ, pos, negsuc}
use hopssh.Client.RelayState.{RelayState}
use hopssh.Client.NebulaConfig.{
  Scalar, flag, number, string, Value, scalar, Config, Edit, sameℤ, same_scalar, require,
  correct_number,
}
use hopssh.Client.NebulaConfig.Ensure.{
  Setup, tun_mtu, listen_edits, pki_and_listen, timers_to_handshakes, tun, lighthouse_and_relay,
  ensured,
}
use hopssh.Client.NebulaConfig.Ensure.Settings.{setting, outcome, effect, setting-ensured}

-- The sections that are edited, and the keys of the document that are.
abbrev pub touched : List Bytes
touched =
    codes "pki"
    ∷ codes "listen"
    ∷ codes "cipher"
    ∷ codes "timers"
    ∷ codes "punchy"
    ∷ codes "handshakes"
    ∷ codes "tun"
    ∷ codes "routines"
    ∷ codes "lighthouse"
    ∷ codes "relay"
    ∷ []

sameℤ-eq : (a b : ℤ) → sameℤ a b ≡ true → a ≡ b
sameℤ-eq (pos a) (pos b) h = ground (arith, h)
sameℤ-eq (negsuc a) (negsuc b) h = ground (arith, h)
sameℤ-eq _ _ h = absurd (ground arith)

same_scalar-eq : (a b : Scalar) → same_scalar a b ≡ true → a ≡ b
unfolding same_scalar
same_scalar-eq (flag true) (flag true) h = refl
same_scalar-eq (flag false) (flag false) h = refl
same_scalar-eq (number a) (number b) h = ap number (sameℤ-eq a b h)
same_scalar-eq (string a) (string b) h = ap string ((bytes_eq_iff a b).0 h)
same_scalar-eq _ _ h = absurd (ground arith)

require-sets :
    (want : Scalar) (current : Option Value)
    → outcome (require want current) current ≡ some (scalar want)
require-sets want none = refl
require-sets want (some (scalar x)) = elim (Bool-cases (same_scalar x want)) [
  | inl y ↦ rw y (rw (same_scalar-eq x want y) refl)
  | inr n ↦ rw n refl
]
require-sets want (some v) = refl

correct_number-sets :
    (current : Option Value) (n : ℤ)
    → current ≡ some (scalar (number n))
    → outcome (correct_number (pos tun_mtu) current) current ≡ some (scalar (number (pos tun_mtu)))
correct_number-sets current n e =
    rw e (require-sets (number (pos tun_mtu)) (some (scalar (number n))))

Elsewhere : Bytes → List Edit → Type 0
Elsewhere s es = All (λ e. bytes_eq e.name s ≡ false) es

effect-Elsewhere :
    (es : List Edit) (s k : Bytes) (current : Option Value)
    → Elsewhere s es
    → effect es s k current ≡ current
unfolding Elsewhere
effect-Elsewhere [] s k current h = refl
effect-Elsewhere (e ∷ es) s k current h = rw (h.0) (effect-Elsewhere es s k current h.1)

Elsewhere-last :
    (setup : Setup) (s : Bytes) (i : Option Bytes) (r : Option RelayState)
    → bytes_eq (codes "lighthouse") s ≡ false
    → bytes_eq (codes "relay") s ≡ false
    → Elsewhere s (lighthouse_and_relay (record setup { interface = i; relay_state = r }))
unfolding Elsewhere
Elsewhere-last setup s none none l r = (l, tt)
Elsewhere-last setup s (some i) none l r = (l, (l, tt))
Elsewhere-last setup s none (some x) l r = (l, (r, (r, tt)))
Elsewhere-last setup s (some i) (some x) l r = (l, (l, (r, (r, tt))))

Elsewhere-listen :
    (s : Bytes) (port : Option ℕ)
    → bytes_eq (codes "listen") s ≡ false
    → Elsewhere s (listen_edits port)
unfolding Elsewhere
Elsewhere-listen s none l = (l, (l, tt))
Elsewhere-listen s (some p) l = (l, (l, (l, tt)))

module _ (setup : Setup) (cfg : Config) where
  after : Bytes → Bytes → Option Value
  after s k = setting s k (ensured setup cfg).0

  abbrev text : Bytes → Option Value
  text b = some (scalar (string b))

  last-Elsewhere :
      (s k : Bytes) (current : Option Value)
      → bytes_eq (codes "lighthouse") s ≡ false
      → bytes_eq (codes "relay") s ≡ false
      → effect (lighthouse_and_relay setup) s k current ≡ current
  last-Elsewhere s k current l r =
      effect-Elsewhere (lighthouse_and_relay setup) s k current
        (Elsewhere-last setup s setup.interface setup.relay_state l r)

  listen-Elsewhere :
      (s k : Bytes) (current : Option Value)
      → bytes_eq (codes "listen") s ≡ false
      → effect (listen_edits setup.listen_port) s k current ≡ current
  listen-Elsewhere s k current l =
      effect-Elsewhere (listen_edits setup.listen_port) s k current
        (Elsewhere-listen s setup.listen_port l)

  pki_set :
      (after (codes "pki") (codes "ca") ≡ text setup.ca_path)
      × (after (codes "pki") (codes "cert") ≡ text setup.cert_path)
      × (after (codes "pki") (codes "key") ≡ text setup.key_path)
  unfolding after bytes_eq
  pki_set = (
    setting-ensured setup (codes "pki") (codes "ca") cfg refl refl
        ∙ last-Elsewhere (codes "pki") (codes "ca") _ refl refl
        ∙ listen-Elsewhere (codes "pki") (codes "ca") _ refl
        ∙ require-sets (string setup.ca_path) (setting (codes "pki") (codes "ca") cfg),
    setting-ensured setup (codes "pki") (codes "cert") cfg refl refl
        ∙ last-Elsewhere (codes "pki") (codes "cert") _ refl refl
        ∙ listen-Elsewhere (codes "pki") (codes "cert") _ refl
        ∙ require-sets (string setup.cert_path) (setting (codes "pki") (codes "cert") cfg),
    setting-ensured setup (codes "pki") (codes "key") cfg refl refl
        ∙ last-Elsewhere (codes "pki") (codes "key") _ refl refl
        ∙ listen-Elsewhere (codes "pki") (codes "key") _ refl
        ∙ require-sets (string setup.key_path) (setting (codes "pki") (codes "key") cfg),
  )

  port_set :
      (port : ℕ)
      → setup.listen_port ≡ some port
      → after (codes "listen") (codes "port") ≡ some (scalar (number (pos port)))
  unfolding after bytes_eq
  port_set port e =
      setting-ensured setup (codes "listen") (codes "port") cfg refl refl
      ∙ last-Elsewhere (codes "listen") (codes "port") _ refl refl
      ∙ rw e (require-sets (number (pos port)) (setting (codes "listen") (codes "port") cfg))

  mtu_set :
      (n : ℤ)
      → setting (codes "tun") (codes "mtu") cfg ≡ some (scalar (number n))
      → after (codes "tun") (codes "mtu") ≡ some (scalar (number (pos tun_mtu)))
  unfolding after bytes_eq
  mtu_set n e =
      setting-ensured setup (codes "tun") (codes "mtu") cfg refl refl
      ∙ last-Elsewhere (codes "tun") (codes "mtu") _ refl refl
      ∙ correct_number-sets _ n (listen-Elsewhere (codes "tun") (codes "mtu") _ refl ∙ e)

  unchanged : (s k : Bytes) → contains touched s ≡ false → after s k ≡ setting s k cfg
  unfolding after contains Elsewhere
  unchanged s k h =
      setting-ensured setup s k cfg (ground (arith, h)) (ground (arith, h))
      ∙ last-Elsewhere s k _ (ground (arith, h)) (ground (arith, h))
      ∙ effect-Elsewhere (tun setup) s k _ (is_tun, (is_tun, tt))
      ∙ effect-Elsewhere timers_to_handshakes s k _
          (is_timers, (is_timers, (is_punchy, (is_punchy, (is_punchy, (ground (arith, h), tt))))))
      ∙ effect-Elsewhere (pki_and_listen setup) s k _
          (is_pki, (is_pki, (is_pki, Elsewhere-listen s setup.listen_port (ground (arith, h)))))
    where
      is_tun : bytes_eq (codes "tun") s ≡ false
      is_tun = ground (arith, h)

      is_timers : bytes_eq (codes "timers") s ≡ false
      is_timers = ground (arith, h)

      is_punchy : bytes_eq (codes "punchy") s ≡ false
      is_punchy = ground (arith, h)

      is_pki : bytes_eq (codes "pki") s ≡ false
      is_pki = ground (arith, h)

-- After the edits of a document, whatever it was, of an enrollment with a listen port: the listen
-- port is the port of the enrollment, the paths of the keys are those below its directory, an
-- integer mtu of the tunnel is 1420, and the keys of every section that is not one of the ten names
-- that are edited are as they were.
pub ensured_settings :
    (setup : Setup) (cfg : Config) (port : ℕ)
    → setup.listen_port ≡ some port
    → (setting (codes "listen") (codes "port") (ensured setup cfg).0
        ≡ some (scalar (number (pos port))))
      × (setting (codes "pki") (codes "ca") (ensured setup cfg).0
          ≡ some (scalar (string setup.ca_path)))
      × (setting (codes "pki") (codes "cert") (ensured setup cfg).0
          ≡ some (scalar (string setup.cert_path)))
      × (setting (codes "pki") (codes "key") (ensured setup cfg).0
          ≡ some (scalar (string setup.key_path)))
      × ((n : ℤ)
          → setting (codes "tun") (codes "mtu") cfg ≡ some (scalar (number n))
          → setting (codes "tun") (codes "mtu") (ensured setup cfg).0
            ≡ some (scalar (number (pos tun_mtu))))
      × ((s k : Bytes)
          → contains touched s ≡ false
          → setting s k (ensured setup cfg).0 ≡ setting s k cfg)
unfolding after
ensured_settings setup cfg port e = (
  port_set setup cfg port e,
  (pki_set setup cfg).0,
  (pki_set setup cfg).1,
  (pki_set setup cfg).2,
  mtu_set setup cfg,
  unchanged setup cfg,
)
