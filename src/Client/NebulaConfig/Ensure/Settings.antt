-- ===== src/Client/NebulaConfig/Ensure/Settings.antt =====
-- What edits make of a setting (internal/client/renew.go: ensureP2PConfig).
use hopssh.Base.{
  ◌≡◌, refl, sym, ap, ◌∙◌, ◌⊎◌, inl, inr, Bool, true, false, ◌&&◌, ◌||◌, Option, none, some, List,
  [], ◌∷◌, arith, if◌then◌else◌, Bool-cases,
}
use hopssh.Base.Text.{Bytes, codes, bytes_eq, bytes_eq_iff, bytes_eq_refl}
use hopssh.Base.Int.{pos}
use hopssh.Base.Dict.{lookup, lookup-insert, lookup-delete_key}
use hopssh.Client.NebulaConfig.{
  Scalar, number, string, Value, scalar, Entry, value, section, Config, Edit, Decision, keep,
  remove, put, decided, edit, edits, edit_all, yaml_map, section_of,
}
use hopssh.Client.NebulaConfig.Ensure.{
  Setup, pki_and_listen, timers_to_handshakes, tun, lighthouse_and_relay, holds_top, require_top,
  is_section, edit_tun, ensured,
}

-- The value of a key of a section.
abbrev pub setting : Bytes → Bytes → Config → Option Value
setting s k cfg = lookup k (yaml_map cfg s)

abbrev pub outcome : Decision → Option Value → Option Value
outcome keep current = current
outcome remove current = none
outcome (put v) current = some v

-- What an edit makes of the value of a key of a section.
abbrev pub effect : List Edit → Bytes → Bytes → Option Value → Option Value
effect [] s k current = current
effect (e ∷ es) s k current =
    effect es s k (
      if bytes_eq e.name s && bytes_eq e.key k then outcome (e.decide current) current else current)

lookup-decided :
    (d : Decision) (key k : Bytes) (m : List (Bytes × Value))
    → lookup k (decided d key m) ≡ (if bytes_eq key k then outcome d (lookup key m) else lookup k m)
lookup-decided keep key k m = ground (arith, bytes_eq_iff key k)
lookup-decided remove key k m = lookup-delete_key key k m
lookup-decided (put v) key k m = lookup-insert key k v m

setting-edit :
    (e : Edit) (s k : Bytes) (cfg : Config)
    → setting s k (edit e cfg) ≡ (
        if bytes_eq e.name s && bytes_eq e.key k
        then outcome (e.decide (setting s k cfg)) (setting s k cfg)
        else setting s k cfg)
unfolding edit yaml_map
setting-edit e s k cfg = elim (Bool-cases (bytes_eq e.name s)) [
  | inl y ↦ rw (← (bytes_eq_iff e.name s).0 y) (
      rw
        (
          lookup-insert e.name e.name
              (section (
                decided (e.decide (lookup e.key (yaml_map cfg e.name))) e.key
                  (yaml_map cfg e.name)))
              cfg,
          bytes_eq_refl e.name,
        )
        (lookup-decided (e.decide (lookup e.key (yaml_map cfg e.name))) e.key k
            (yaml_map cfg e.name)
          ∙ at_key (yaml_map cfg e.name)))
  | inr n ↦
      rw
        (
          lookup-insert e.name s
              (section (
                decided (e.decide (lookup e.key (yaml_map cfg e.name))) e.key
                  (yaml_map cfg e.name)))
              cfg,
          n,
        )
        refl
]
  where
    at_key :
        (m : List (Bytes × Value))
        → (if bytes_eq e.key k
            then outcome (e.decide (lookup e.key m)) (lookup e.key m)
            else lookup k m)
          ≡ (if bytes_eq e.key k then outcome (e.decide (lookup k m)) (lookup k m) else lookup k m)
    at_key m = elim (Bool-cases (bytes_eq e.key k)) [
      | inl y ↦ rw ((bytes_eq_iff e.key k).0 y) refl
      | inr n ↦ rw n refl
    ]

pub setting-edit_all :
    (es : List Edit) (s k : Bytes) (cfg : Config) (changed : Bool)
    → setting s k (edit_all es (cfg, changed)).0 ≡ effect es s k (setting s k cfg)
unfolding edit_all
setting-edit_all [] s k cfg changed = refl
setting-edit_all (e ∷ es) s k cfg changed =
    setting-edit_all es s k (edit e cfg) (changed || edits e cfg)
    ∙ ap (effect es s k) (setting-edit e s k cfg)

setting-require_top :
    (key : Bytes) (want : Scalar) (s k : Bytes) (cfg : Config) (changed : Bool)
    → bytes_eq key s ≡ false
    → setting s k (require_top key want (cfg, changed)).0 ≡ setting s k cfg
unfolding require_top yaml_map
setting-require_top key want s k cfg changed n =
    elim (Bool-cases (holds_top want (lookup key cfg))) [
      | inl h ↦ rw h refl
      | inr h ↦ rw h (rw (lookup-insert key s (value (scalar want)) cfg, n) refl)
    ]

setting-no_section :
    (s k : Bytes) (cfg : Config) → is_section (lookup s cfg) ≡ false → setting s k cfg ≡ none
unfolding yaml_map lookup
setting-no_section s k cfg h = by_entry (lookup s cfg) h
  where
    by_entry : (e : Option Entry) → is_section e ≡ false → lookup k (section_of e) ≡ none
    by_entry none h = refl
    by_entry (some (value v)) h = refl
    by_entry (some (section m)) h = absurd (ground arith)

effect-tun : (setup : Setup) (s k : Bytes) → effect (tun setup) s k none ≡ none
effect-tun setup s k = elim (Bool-cases (bytes_eq (codes "tun") s && bytes_eq (codes "mtu") k)) [
  | inl y ↦ rw y (both_none (bytes_eq (codes "tun") s && bytes_eq (codes "dev") k))
  | inr n ↦ rw n (both_none (bytes_eq (codes "tun") s && bytes_eq (codes "dev") k))
]
  where
    same : Bool → Option Value
    same b = if b then none else none

    both_none : (b : Bool) → same b ≡ none
    both_none true = refl
    both_none false = refl

setting-edit_tun :
    (setup : Setup) (s k : Bytes) (cfg : Config) (changed : Bool)
    → setting s k (edit_tun setup (cfg, changed)).0 ≡ effect (tun setup) s k (setting s k cfg)
unfolding edit_tun
setting-edit_tun setup s k cfg changed = elim (Bool-cases (is_section (lookup (codes "tun") cfg))) [
  | inl y ↦ rw y (setting-edit_all (tun setup) s k cfg changed)
  | inr n ↦ rw n (skipped n (Bool-cases (bytes_eq (codes "tun") s)))
]
  where
    skipped :
        is_section (lookup (codes "tun") cfg) ≡ false
        → (bytes_eq (codes "tun") s ≡ true) ⊎ (bytes_eq (codes "tun") s ≡ false)
        → setting s k cfg ≡ effect (tun setup) s k (setting s k cfg)
    skipped absent (inl y) =
        let e : setting s k cfg ≡ none =
          setting-no_section s k cfg (rw (← (bytes_eq_iff (codes "tun") s).0 y) absent) in
        e ∙ sym (effect-tun setup s k) ∙ sym (ap (effect (tun setup) s k) e)
    skipped absent (inr n) = rw n refl

pub setting-ensured :
    (setup : Setup) (s k : Bytes) (cfg : Config)
    → bytes_eq (codes "cipher") s ≡ false
    → bytes_eq (codes "routines") s ≡ false
    → setting s k (ensured setup cfg).0
      ≡ effect (lighthouse_and_relay setup) s k (
          effect
            (tun setup)
            s
            k
            (effect timers_to_handshakes s k (effect (pki_and_listen setup) s k (setting s k cfg))))
unfolding ensured
setting-ensured setup s k cfg c r =
    let d1 = edit_all (pki_and_listen setup) (cfg, false) in
    let d2 = require_top (codes "cipher") (string (codes "aes")) d1 in
    let d3 = edit_all timers_to_handshakes d2 in
    let d4 = edit_tun setup d3 in
    let d5 = require_top (codes "routines") (number (pos 1)) d4 in
    rw
      (
        setting-edit_all (lighthouse_and_relay setup) s k d5.0 d5.1,
        setting-require_top (codes "routines") (number (pos 1)) s k d4.0 d4.1 r,
        setting-edit_tun setup s k d3.0 d3.1,
        setting-edit_all timers_to_handshakes s k d2.0 d2.1,
        setting-require_top (codes "cipher") (string (codes "aes")) s k d1.0 d1.1 c,
        setting-edit_all (pki_and_listen setup) s k cfg false,
      )
      refl
