-- ===== src/Tests/Mapping.antt =====
-- Port mappings and subnet addresses.
use hopssh.Base.{
  ℕ, ◌∙◌, ◌≡◌, refl, true, Option, some, arith, leb, take, ◌==◌, if◌then◌else◌, replicate,
}
use hopssh.Base.Text.{Bytes}
use hopssh.Portmap.Wire.{Ipv4, v4}
use hopssh.Portmap.NatPmp.{
  Net, Attempt, is_past, context_done, timed_out, datagram, ok, err, no_response, map_port,
  read_map, read_external_addr, round_trip, attempt_loop, exchange, max_attempts,
}
use hopssh.Portmap.NatPmp.Codec.{map_response, external_addr_response}
use hopssh.Portmap.NatPmp.Retry.{round_trip_outcome, reach, earlier, lesser}
use hopssh.Portmap.Pcp.{MapResponse, parsed, parse_map_response}
use hopssh.Portmap.Pcp.Codec
use hopssh.Portmap.Pcp.Codec.{parse-map_response, parse_map_response_sound}
use hopssh.Pki.{Prefix, v4_prefix}

abbrev public : Ipv4
public = record { a = 203; b = 0; c = 113; d = 9 }

abbrev gateway : Ipv4
gateway = record { a = 192; b = 168; c = 1; d = 1 }

-- A gateway that answers at the second attempt.
abbrev second_try : Bytes → Net
second_try b = record {
  dials = true;
  deadline = some 3000;
  attempt = λ n. if n == 1 then datagram b else timed_out;
}

mapped :
    map_port
      (v4 gateway)
      (second_try (external_addr_response 0 77 public))
      (second_try (map_response 0 77 4242 40000 0))
      4242
    ≡ ok (public, 40000, 3600)
unfolding map_port exchange round_trip read_external_addr read_map
mapped = refl

-- A gateway that answers the ninth attempt only, under the deadline of a probe.
abbrev late : ℕ → Attempt
late n = if n == 8 then datagram (external_addr_response 0 77 public) else timed_out

round_trip_outcome_example : attempt_loop (some 3000) late 12 max_attempts 0 250 0 ≡ (
    if is_past (some 3000) (reach (lesser 8 8) 250)
    then (err context_done, earlier (some 3000) (reach (lesser 8 8) 250))
    else if leb 8 8
    then (ok (take 12 (external_addr_response 0 77 public)), reach 8 250)
    else (err no_response, earlier (some 3000) 127750))
round_trip_outcome_example =
    round_trip_outcome (some 3000) late 12 8 (external_addr_response 0 77 public)
      (λ i q. ground (arith, q)) refl (omega arith)

probed : attempt_loop (some 3000) late 12 max_attempts 0 250 0 ≡ (err context_done, 3000)
probed = round_trip_outcome_example ∙ refl

abbrev granted : MapResponse
granted = record { external_ip = public; external_port = 40000; lifetime = 7200 }

parse-map_response_example :
    parse_map_response
      (Codec.map_response 0 7200 (replicate 16 0) (replicate 12 5) 4242 40000 public)
      (replicate 12 5)
    ≡ parsed granted
parse-map_response_example =
    parse-map_response 7200 4242 40000 (replicate 16 0) (replicate 12 5) public refl refl
      (omega arith) (omega arith) (omega arith) refl

abbrev pcp_response : Bytes
pcp_response = Codec.map_response 0 7200 (replicate 16 0) (replicate 12 5) 4242 40000 public

abbrev subnet : Ipv4
subnet = record { a = 10; b = 42; c = 1; d = 0 }

abbrev parse : Bytes → Option Prefix
parse _ = some (v4_prefix subnet 24)
