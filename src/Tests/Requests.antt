-- ===== src/Tests/Requests.antt =====
-- Rate limits and access.
use hopssh.Base.{◌+◌, ◌*◌, ◌/◌, ◌≤◌, ◌≡◌, refl, false, List, [], ◌∷◌, arith}
use hopssh.Base.Text.{Bytes, codes, bytes_eq}
use hopssh.Base.Dict.{filter_entries, lookup, insert}
use hopssh.Auth.RateLimit.{cleanup, RateLimiter, new_rate_limiter, allow, client_ip}
use hopssh.Auth.RateLimit.Bound.{Event, request, clean, passed}
use hopssh.Auth.RateLimit.Window.{after, window_bound}
use hopssh.Auth.Access.{UserProfile, Network, NetworkMember}

abbrev ip : Bytes
ip = codes "1.2.3.4"

-- Two requests a second with a burst of two; a cleanup in between.
abbrev limiter : RateLimiter
limiter = new_rate_limiter 2 2 1000000000 false

abbrev traffic : List Event
traffic = request ip 10 10 ∷ request ip 20 20 ∷ request ip 30 30 ∷ clean 40 ∷ request ip 50 50 ∷ []

passed_two : passed ip limiter traffic ≡ 2
unfolding passed new_rate_limiter allow cleanup lookup insert filter_entries bytes_eq
passed_two = refl

-- The burst is spent, and two seconds later three more requests are made.
abbrev later_traffic : List Event
later_traffic =
    request ip 2000000050 2000000050
    ∷ request ip 2000000051 2000000051
    ∷ request ip 2000000052 2000000052
    ∷ []

window_bound_example :
    passed ip (after limiter traffic) later_traffic ≤ 2 + (1000 / 1000000000 + 1) * 2
unfolding new_rate_limiter
window_bound_example =
    window_bound ip 2 2 1000000000 0 2000000000 2000001000 false traffic later_traffic
      (record {
        interval_positive = omega arith;
        burst_positive = omega arith;
        refilled = omega arith;
      })
      (
        omega arith,
        omega arith,
        (
          omega arith,
          omega arith,
          (omega arith, omega arith, (omega arith, (omega arith, omega arith, omega arith))),
        ),
      )
      (
        omega arith,
        omega arith,
        (omega arith, omega arith, (omega arith, omega arith, omega arith)),
      )

-- Without a trusted proxy the header of the client is not read.
untrusted_header : client_ip (λ t. t) (λ a. a) (codes "6.6.6.6, 7.7.7.7") ip false ≡ ip
unfolding client_ip
untrusted_header = refl

abbrev owner : UserProfile
owner = record { id = codes "u1" }

abbrev network : Network
network = record { user_id = codes "u1" }

abbrev guest : UserProfile
guest = record { id = codes "u2" }

abbrev membership : NetworkMember
membership = record { role = codes "member" }
