-- ===== src/Auth/Access.antt =====
-- Who may do what in a network (internal/authz/authz.go). Of a user, a network and a membership
-- only the fields that the decisions read are kept; a nil pointer is `none`.
use hopssh.Base.{◌≡◌, Bool, false, not, Option, none, some, [], arith, if◌then◌else◌}
use hopssh.Base.Text.{Bytes, codes, is_empty, bytes_eq}

pub record UserProfile : Type 0 where
  pub id : Bytes

pub record Network : Type 0 where
  pub user_id : Bytes

pub record NetworkMember : Type 0 where
  pub role : Bytes

pub record Access : Type 0 where
  pub role : Bytes

abbrev no_access : Access
no_access = record { role = [] }

abbrev admin : Bytes
admin = codes "admin"

abbrev member_access : Option NetworkMember → Access
member_access none = no_access
member_access (some m) = record { role = m.role }

check_access : Option UserProfile → Option Network → Option NetworkMember → Access
check_access none n m = no_access
check_access (some u) none m = no_access
check_access (some u) (some n) m =
    if bytes_eq n.user_id u.id then record { role = admin } else member_access m

can_view : Access → Bool
can_view a = not (is_empty a.role)

can_admin : Access → Bool
can_admin a = bytes_eq a.role admin

can_access_network : Option UserProfile → Option Network → Bool
can_access_network none n = false
can_access_network (some u) none = false
can_access_network (some u) (some n) = bytes_eq n.user_id u.id

unfoldable pub can_enroll_node : Option UserProfile → Option Network → Option NetworkMember → Bool
unfolding check_access can_view
can_enroll_node u n m = can_view (check_access u n m)

-- For a user who does not own the network and has a membership, `CanEnrollNode` holds exactly if
-- the role is not empty, `CanAdmin` exactly if it is "admin", and `CanAccessNetwork` never.
member_enrolls :
    (u : UserProfile) (n : Network) (m : NetworkMember)
    → bytes_eq n.user_id u.id ≡ false
    → (can_enroll_node (some u) (some n) (some m) ≡ not (is_empty m.role))
      × (can_admin (check_access (some u) (some n) (some m)) ≡ bytes_eq m.role admin)
      × (can_access_network (some u) (some n) ≡ false)
unfolding can_enroll_node can_access_network can_admin
member_enrolls u n m h = ground (arith, h)
