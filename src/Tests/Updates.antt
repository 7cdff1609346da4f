-- ===== src/Tests/Updates.antt =====
-- Invites and routes.
use hopssh.Base.{
  ◌≤◌, ◌≡◌, refl, Bool, true, false, none, some, List, [], ◌∷◌, arith, ◌==◌, if◌then◌else◌,
}
use hopssh.Base.Text.{Bytes, codes, bytes_eq, contains}
use hopssh.Db.Invites.{
  NetworkInvite, has_expired, err, get_by_code, atomic_claim_invite, explain, claim,
}
use hopssh.Db.Invites.Uses.{
  Event, claims, admits, admitted, after, uses_left, is_limited, admitted_bound,
}
use hopssh.Client.Routes.{
  State, normalise_routes, apply_routes_update, routes_equal, load_persisted_routes, persist_routes,
  rewrite_nebula_unsafe_routes,
}
use hopssh.Client.Routes.Apply.{failed_rewrite_lost}
use hopssh.Base.StringSet.{normalize, dedup_loop}
use hopssh.Base.Text.{bytes_lt, sort_strings}

abbrev invite : NetworkInvite
invite = record {
  id = codes "i1";
  network_id = codes "net";
  created_by = codes "u1";
  code = codes "abc";
  role = codes "member";
  max_uses = some 2;
  use_count = 0;
  expires_at = some 100;
  created_at = 0;
}

abbrev uses : List Event
uses =
    claims true true 10 (codes "abc")
    ∷ claims true true 20 (codes "xyz")
    ∷ claims true true 30 (codes "abc")
    ∷ claims true true 40 (codes "abc")
    ∷ []

-- The third claim of the code meets the maximum.
admitted_two : admitted (codes "abc") uses (invite ∷ []) ≡ 2
unfolding admitted admits after claim atomic_claim_invite get_by_code explain bytes_eq
admitted_two = refl

admitted_bound_example : admitted (codes "abc") uses (invite ∷ []) ≤ 2
unfolding uses_left is_limited bytes_eq
admitted_bound_example = admitted_bound (codes "abc") uses (invite ∷ []) refl

-- After its expiry the code is refused with the reason.
too_late : (claim true true 200 (codes "abc") (invite ∷ [])).1 ≡ err has_expired
unfolding claim atomic_claim_invite get_by_code explain bytes_eq
too_late = refl

drop_spaces : Bytes → Bytes
drop_spaces [] = []
drop_spaces (c ∷ cs) = let rest = drop_spaces cs in if c == 32 then rest else c ∷ cs

drop_spaces_idem : (s : Bytes) → drop_spaces (drop_spaces s) ≡ drop_spaces s
unfolding drop_spaces
drop_spaces_idem [] = refl
drop_spaces_idem (c ∷ cs) = ground (arith, drop_spaces_idem cs)

abbrev pushed : List Bytes
pushed = codes " 10.0.0.0/16" ∷ codes "192.168.50.0/24" ∷ []

abbrev before : State
before = record { file = none; unsafe_routes = []; reloads = 0 }

abbrev updated : Bool → State → State
updated rewrites s =
    apply_routes_update drop_spaces (record { reads = true; persists = true; rewrites = rewrites })
      pushed s

-- The first update installs the trimmed routes.
installed : (updated true before).unsafe_routes ≡ codes "10.0.0.0/16" ∷ codes "192.168.50.0/24" ∷ []
unfolding apply_routes_update normalise_routes normalize dedup_loop sort_strings bytes_lt contains
    bytes_eq drop_spaces routes_equal load_persisted_routes persist_routes
    rewrite_nebula_unsafe_routes
installed = refl

failed_rewrite_lost_example :
    ((updated true (updated false before)).unsafe_routes ≡ [])
    × ((updated true (updated false before)).reloads ≡ 0)
unfolding drop_spaces
failed_rewrite_lost_example =
    failed_rewrite_lost drop_spaces pushed before refl drop_spaces_idem (refl, (refl, tt))
