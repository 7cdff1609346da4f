-- ===== src/Client/NebulaConfig/Merge.antt =====
-- The settings that the control plane pushes with a renewal (internal/client/renew.go:
-- applyNebulaConfigUpdate, mergeNebulaConfig).
use hopssh.Base.{
  ℕ, ◌≡◌, refl, sym, ap, ◌∙◌, inl, inr, Bool, true, false, ◌&&◌, Option, none, some, List, [], ◌∷◌,
  ◌++◌, arith, if◌then◌else◌, Bool-cases,
}
use hopssh.Base.Text.{Bytes, codes, bytes_eq, bytes_eq_iff}
use hopssh.Base.Int.{ℤ, pos}
use hopssh.Client.NebulaConfig.{
  Scalar, flag, number, string, Value, scalar, Config, Edit, edit_all, overwrite, sameℤ,
}
use hopssh.Client.NebulaConfig.Ensure.{Parsed, malformed, nil_map, parsed}
use hopssh.Client.NebulaConfig.Ensure.Settings.{setting, effect, setting-edit_all}

pub record NebulaConfigUpdate : Type 0 where
  pub use_relays : Option Bool
  pub punch_back : Option Bool
  pub punch_delay : Bytes
  pub mtu : Option ℤ
  pub listen_port : Option ℤ

abbrev on_some {ℓ} : {A : Type ℓ} → Option A → (A → Edit) → List Edit
on_some none f = []
on_some (some a) f = f a ∷ []

abbrev set_to : Bytes → Bytes → Scalar → Edit
set_to name key s = record { name = name; key = key; decide = overwrite (scalar s) }

abbrev on_text : Bytes → List Edit
on_text [] = []
on_text (c ∷ cs) = set_to (codes "punchy") (codes "delay") (string (c ∷ cs)) ∷ []

-- The assignments that an update asks for.
unfoldable pub assignments : NebulaConfigUpdate → List Edit
assignments u =
    on_some u.use_relays (λ b. set_to (codes "relay") (codes "use_relays") (flag b))
    ++ (on_some u.punch_back (λ b. set_to (codes "punchy") (codes "punch_back") (flag b))
        ++ (on_text u.punch_delay
            ++ on_some u.listen_port (λ p. set_to (codes "listen") (codes "port") (number p))))

pub data Merged : Type 0 where
  parse_error unchanged panics : Merged
  changed : Config → Merged

abbrev merged : Config × Bool → Merged
merged (cfg, true) = changed cfg
merged (cfg, false) = unchanged

-- An assignment to a nil map panics.
abbrev merged_nil : List Edit → Merged
merged_nil [] = unchanged
merged_nil (e ∷ es) = panics

unfoldable pub merge_nebula_config : Parsed → NebulaConfigUpdate → Merged
merge_nebula_config malformed u = parse_error
merge_nebula_config nil_map u = merged_nil (assignments u)
merge_nebula_config (parsed cfg) u = merged (edit_all (assignments u) (cfg, false))

abbrev port_of : Option ℕ → Option ℤ → Option ℤ
port_of none pushed = pushed
port_of (some own) none = none
port_of (some own) (some p) = if sameℤ p (pos own) then some p else none

-- The pushed port is dropped if it is not that of the enrollment, where this has one.
unfoldable pub without_other_port : Option ℕ → NebulaConfigUpdate → NebulaConfigUpdate
without_other_port own u = record u { listen_port = port_of own u.listen_port }

pub data Applied : Type 0 where
  read_error merge_error write_error applied crashed : Applied

abbrev stored : Bool → Option Bytes → Bytes → Option Bytes × Applied
stored false file text = (file, write_error)
stored true file text = (some text, applied)

abbrev finish : (Config → Bytes) → Bool → Bytes → Merged → Option Bytes × Applied
finish marshal writable text parse_error = (some text, merge_error)
finish marshal writable text unchanged = (some text, applied)
finish marshal writable text panics = (some text, crashed)
finish marshal writable text (changed cfg) = stored writable (some text) (marshal cfg)

-- The file afterwards and what is returned; `none` is a file that cannot be read.
unfoldable apply_nebula_config_update :
    (Bytes → Parsed)
    → (Config → Bytes)
    → Bool
    → Option ℕ
    → NebulaConfigUpdate
    → Option Bytes
    → Option Bytes × Applied
apply_nebula_config_update unmarshal marshal writable own u none = (none, read_error)
apply_nebula_config_update unmarshal marshal writable own u (some text) =
    finish marshal writable text (merge_nebula_config (unmarshal text) (without_other_port own u))

sameℤ-pos : (p : ℤ) (own : ℕ) → sameℤ p (pos own) ≡ true → p ≡ pos own
sameℤ-pos (pos n) own h = ground (arith, h)
sameℤ-pos p own h = absurd (ground arith)

effect-append :
    (es fs : List Edit) (s k : Bytes) (current : Option Value)
    → effect (es ++ fs) s k current ≡ effect fs s k (effect es s k current)
effect-append [] fs s k current = refl
effect-append (e ∷ es) fs s k current = effect-append es fs s k _

module _ (s k : Bytes) (current : Option Value) where
  effect-on_some :
      {A : Type 0} (o : Option A) (name key : Bytes) (f : A → Scalar)
      → bytes_eq name s ≡ false
      → effect (on_some o (λ a. set_to name key (f a))) s k current ≡ current
  effect-on_some none name key f n = refl
  effect-on_some (some a) name key f n = rw n refl

  effect-on_text :
      (text : Bytes)
      → bytes_eq (codes "punchy") s ≡ false
      → effect (on_text text) s k current ≡ current
  effect-on_text [] n = refl
  effect-on_text (c ∷ cs) n = rw n refl

  effect-listen :
      (own : ℕ) (pushed : Option ℤ)
      → ((bytes_eq (codes "listen") s && bytes_eq (codes "port") k) ≡ true
          → current ≡ some (scalar (number (pos own))))
      → effect
          (on_some
            (port_of (some own) pushed)
            (λ p. set_to (codes "listen") (codes "port") (number p)))
          s
          k
          current
        ≡ current
  effect-listen own none h = refl
  effect-listen own (some p) h = elim (Bool-cases (sameℤ p (pos own))) [
    | inr n ↦ rw n refl
    | inl y ↦ rw y (elim (Bool-cases (bytes_eq (codes "listen") s && bytes_eq (codes "port") k)) [
      | inl t ↦ rw t (rw (sameℤ-pos p own y) (sym (h t)))
      | inr n ↦ rw n refl
    ])
  ]

  effect-assignments :
      (own : ℕ) (u : NebulaConfigUpdate)
      → bytes_eq (codes "relay") s ≡ false
      → bytes_eq (codes "punchy") s ≡ false
      → ((bytes_eq (codes "listen") s && bytes_eq (codes "port") k) ≡ true
          → current ≡ some (scalar (number (pos own))))
      → effect (assignments (without_other_port (some own) u)) s k current ≡ current
  unfolding assignments without_other_port
  effect-assignments own u r p h =
      let relays =
        on_some u.use_relays (λ b. set_to (codes "relay") (codes "use_relays") (flag b)) in
      let back =
        on_some u.punch_back (λ b. set_to (codes "punchy") (codes "punch_back") (flag b)) in
      let delay = on_text u.punch_delay in
      let port =
        on_some (port_of (some own) u.listen_port)
          (λ q. set_to (codes "listen") (codes "port") (number q)) in
      effect-append relays (back ++ (delay ++ port)) s k current
      ∙ ap (effect (back ++ (delay ++ port)) s k)
          (effect-on_some u.use_relays (codes "relay") (codes "use_relays") flag r)
      ∙ effect-append back (delay ++ port) s k current
      ∙ ap (effect (delay ++ port) s k)
          (effect-on_some u.punch_back (codes "punchy") (codes "punch_back") flag p)
      ∙ effect-append delay port s k current
      ∙ ap (effect port s k) (effect-on_text u.punch_delay p)
      ∙ effect-listen own u.listen_port h

merged-document : (x : Config × Bool) (cfg' : Config) → merged x ≡ changed cfg' → x.0 ≡ cfg'
merged-document (cfg, true) cfg' h = ground (arith, h)
merged-document (cfg, false) cfg' h = absurd (ground (arith, h))

-- In a document whose listen port is that of the enrollment, a merge of any pushed update that
-- writes a document leaves the listen port, and every key of every section but the relay and punchy
-- ones, as it was.
pub merge_keeps_port :
    (own : ℕ) (u : NebulaConfigUpdate) (cfg cfg' : Config)
    → setting (codes "listen") (codes "port") cfg ≡ some (scalar (number (pos own)))
    → merge_nebula_config (parsed cfg) (without_other_port (some own) u) ≡ changed cfg'
    → (s k : Bytes) → bytes_eq (codes "relay") s ≡ false
    → bytes_eq (codes "punchy") s ≡ false
    → setting s k cfg' ≡ setting s k cfg
unfolding merge_nebula_config
merge_keeps_port own u cfg cfg' e m s k r p =
    let es = assignments (without_other_port (some own) u) in
    rw (← merged-document (edit_all es (cfg, false)) cfg' m) (
      setting-edit_all es s k cfg false
      ∙ effect-assignments s k (setting s k cfg) own u r p own_port)
  where
    own_port :
        (bytes_eq (codes "listen") s && bytes_eq (codes "port") k) ≡ true
        → setting s k cfg ≡ some (scalar (number (pos own)))
    own_port t =
        rw
          (
            ← (bytes_eq_iff (codes "listen") s).0 (ground (arith, t)),
            ← (bytes_eq_iff (codes "port") k).0 (ground (arith, t)),
          )
          e
