-- ===== src/Client/RelayState.antt =====
-- The relay role cached on disk (internal/client/relay_state.go).
use hopssh.Base.{
  ◌≡◌, refl, ◌↔◌, Bool, true, false, not, ◌&&◌, Option, none, some, List, [], ◌∷◌, arith,
  if◌then◌else◌,
}
use hopssh.Base.Text.{Bytes, bytes_eq, bytes_eq_iff}
use hopssh.Base.StringSet.{normalize, normalize_canonical, normalize_idem, listed}

pub record RelayState : Type 0 where
  pub am_relay : Bool
  pub relays : List Bytes

-- What reading relay-state.json finds; `stored` is the decoded document.
pub data RelayFile : Type 0 where
  absent unreadable malformed : RelayFile
  stored : RelayState → RelayFile

pub data Error : Type 0 where
  read_error parse_error nil_instance write_error : Error

pub data Loaded : Type 0 where
  nothing : Loaded
  loaded : RelayState → Loaded
  load_error : Error → Loaded

unfoldable pub normalize_relays : List Bytes → List Bytes
normalize_relays relays = normalize (λ _. true) relays

pub string_slice_equal : List Bytes → List Bytes → Bool
string_slice_equal [] [] = true
string_slice_equal [] (b ∷ bs) = false
string_slice_equal (a ∷ as') [] = false
string_slice_equal (a ∷ as') (b ∷ bs) = bytes_eq a b && string_slice_equal as' bs

load_relay_state : RelayFile → Loaded
load_relay_state absent = nothing
load_relay_state unreadable = load_error read_error
load_relay_state malformed = load_error parse_error
load_relay_state (stored s) = loaded (record s { relays = normalize_relays s.relays })

abbrev same_bool : Bool → Bool → Bool
same_bool true b = b
same_bool false b = not b

-- Whether the state on file is the one to save.
up_to_date : Loaded → Bool → List Bytes → Bool
up_to_date nothing am rs = false
up_to_date (load_error e) am rs = false
up_to_date (loaded s) am rs = same_bool s.am_relay am && string_slice_equal s.relays rs

-- `saveRelayState`: `writable` is what the file system does to `atomicWrite`. The result is the
-- file afterwards, whether it was written, and the error.
save_relay_state : Bool → RelayFile → Bool → List Bytes → RelayFile × Bool × Option Error
save_relay_state writable f am relays =
    let rs = normalize_relays relays in
    if up_to_date (load_relay_state f) am rs
    then (f, false, none)
    else if writable
    then (stored (record { am_relay = am; relays = rs }), true, none)
    else (f, false, some write_error)

pub string_slice_equal_iff : (as' bs : List Bytes) → (string_slice_equal as' bs ≡ true) ↔ (as' ≡ bs)
unfolding string_slice_equal
string_slice_equal_iff [] [] = ground arith
string_slice_equal_iff [] (b ∷ bs) = ground arith
string_slice_equal_iff (a ∷ as') [] = ground arith
string_slice_equal_iff (a ∷ as') (b ∷ bs) =
    ground (arith, bytes_eq_iff a b, string_slice_equal_iff as' bs)

up_to_date_loaded :
    (l : Loaded) (am : Bool) (rs : List Bytes)
    → up_to_date l am rs ≡ true
    → l ≡ loaded (record { am_relay = am; relays = rs })
unfolding up_to_date
up_to_date_loaded nothing am rs h = cc
up_to_date_loaded (load_error e) am rs h = cc
up_to_date_loaded (loaded s) am rs h = ground (arith, string_slice_equal_iff s.relays rs)

up_to_date_self :
    (am : Bool) (rs : List Bytes)
    → up_to_date (loaded (record { am_relay = am; relays = rs })) am rs ≡ true
unfolding up_to_date
up_to_date_self true rs = (string_slice_equal_iff rs rs).1 refl
up_to_date_self false rs = (string_slice_equal_iff rs rs).1 refl

load_written :
    (am : Bool) (relays : List Bytes)
    → load_relay_state (stored (record { am_relay = am; relays = normalize_relays relays }))
      ≡ loaded (record { am_relay = am; relays = normalize_relays relays })
unfolding load_relay_state normalize_relays
load_written am relays = rw (normalize_idem (λ _. true) relays)

-- After a save of the relay state that returns nil, loading gives the flag and the relays in their
-- normal form.
load-save_relay_state :
    (writable : Bool) (f : RelayFile) (am : Bool) (relays : List Bytes)
    → (save_relay_state writable f am relays).2 ≡ none
    → load_relay_state (save_relay_state writable f am relays).0
      ≡ loaded (record { am_relay = am; relays = normalize_relays relays })
unfolding save_relay_state
load-save_relay_state writable f am relays h = ground (
  arith,
  up_to_date_loaded (load_relay_state f) am (normalize_relays relays),
  load_written am relays,
)

-- After a save that returned nil, a save of the same flag with the same set of relays, in any order
-- and with any repetitions, writes nothing and returns nil.
save_relay_state_settles :
    (w w' : Bool) (f : RelayFile) (am : Bool) (relays relays' : List Bytes)
    → (save_relay_state w f am relays).2 ≡ none
    → ((a : Bytes) → listed (λ _. true) relays a ≡ listed (λ _. true) relays' a)
    → save_relay_state w' (save_relay_state w f am relays).0 am relays'
      ≡ ((save_relay_state w f am relays).0, false, none)
save_relay_state_settles w w' f am relays relays' h same =
    unchanged (save_relay_state w f am relays).0 (load-save_relay_state w f am relays h)
  where
    same_form : normalize_relays relays ≡ normalize_relays relays'
    same_form = unfold normalize_relays in normalize_canonical (λ _. true) relays relays' same

    unchanged :
        (g : RelayFile)
        → load_relay_state g ≡ loaded (record { am_relay = am; relays = normalize_relays relays })
        → save_relay_state w' g am relays' ≡ (g, false, none)
    unchanged g e =
        unfold save_relay_state in
        rw (e, same_form) (rw (up_to_date_self am (normalize_relays relays')) refl)
