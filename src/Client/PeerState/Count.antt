-- ===== src/Client/PeerState/Count.antt =====
-- The counts of the summary, its list and the cap.
use mathlib.Core.Option.{some-injective}
use hopssh.Base.{
  ℕ, ◌+◌, ◌≤◌, ◌<◌, ◌≡◌, refl, ◌⊎◌, true, false, some, List, [], ◌∷◌, ◌++◌, arith, if◌then◌else◌,
  length, length-append,
}
use hopssh.Base.Text.{Bytes}
use hopssh.Client.PeerState.{
  HostInfo, Merged, Summary, max_peers_per_report, classify, report_loop, merge_hosts,
  collect_peer_state, no_peers, direct_detail, relayed_detail,
}

-- The counts agree with the list, and the list keeps within the cap.
pub record IsCounted (s : Summary) : Type 0 where
  pub counted : s.direct + s.relayed ≡ length s.peers
  pub capped : length s.peers ≤ max_peers_per_report

length-snoc {ℓ} : {A : Type ℓ} (xs : List A) (x : A) → length (xs ++ x ∷ []) ≡ length xs + 1
length-snoc xs x = omega (arith, length-append xs (x ∷ []))

-- How far one peer moves the counts.
classify_counts :
    (snapshot : Bytes → ℕ × ℕ) (a : Bytes) (e : Merged) (s : Summary)
    → let s' = classify snapshot a e s in
      ((e.direct ≡ true)
        × (s'.direct ≡ s.direct + 1)
        × (s'.relayed ≡ s.relayed)
        × (length s'.peers ≡ length s.peers + 1))
      ⊎ ((e.direct ≡ false)
          × (e.has_relay ≡ true)
          × (s'.direct ≡ s.direct)
          × (s'.relayed ≡ s.relayed + 1)
          × (length s'.peers ≡ length s.peers + 1))
      ⊎ ((e.direct ≡ false)
          × (e.has_relay ≡ false)
          × (s'.direct ≡ s.direct)
          × (s'.relayed ≡ s.relayed)
          × (length s'.peers ≡ length s.peers))
unfolding classify
classify_counts snapshot a e s = ground (
  arith,
  length-snoc s.peers (direct_detail snapshot a e),
  length-snoc s.peers (relayed_detail a),
)

report_loop-IsCounted :
    (snapshot : Bytes → ℕ × ℕ) (m : List (Bytes × Merged)) (s : Summary)
    → s.direct + s.relayed ≡ length s.peers
    → length s.peers < max_peers_per_report
    → IsCounted (report_loop snapshot m s)
unfolding report_loop
report_loop-IsCounted snapshot [] s h k = omega arith
report_loop-IsCounted snapshot ((a, e) ∷ m) s h k = ground (
  arith,
  classify_counts snapshot a e s,
  report_loop-IsCounted snapshot m (classify snapshot a e s),
)

-- The direct and relayed counts of a summary add up to the length of its list of peers, which is at
-- most 100.
pub collect_peer_state-IsCounted :
    (snapshot : Bytes → ℕ × ℕ) (hosts : List HostInfo) (s : Summary)
    → collect_peer_state snapshot (some hosts) ≡ some s
    → IsCounted s
unfolding collect_peer_state
collect_peer_state-IsCounted snapshot hosts s h =
    let e : report_loop snapshot (merge_hosts hosts []) no_peers ≡ s = some-injective _ _ h in
    rw (← e) (report_loop-IsCounted snapshot (merge_hosts hosts []) no_peers refl (omega arith))

abbrev count_direct : List (Bytes × Merged) → ℕ
count_direct [] = 0
count_direct ((a, e) ∷ m) = (if e.direct then 1 else 0) + count_direct m

abbrev count_relayed : List (Bytes × Merged) → ℕ
count_relayed [] = 0
count_relayed ((a, e) ∷ m) =
    (if e.direct then 0 else if e.has_relay then 1 else 0) + count_relayed m

-- While the peers stay below the cap of 100, the loop adds to the counts the number of all direct
-- and of all relayed-only peers of the merged map.
report_loop_exact :
    (snapshot : Bytes → ℕ × ℕ) (m : List (Bytes × Merged)) (s : Summary)
    → length s.peers + length m < max_peers_per_report
    → ((report_loop snapshot m s).direct ≡ s.direct + count_direct m)
      × ((report_loop snapshot m s).relayed ≡ s.relayed + count_relayed m)
unfolding report_loop
report_loop_exact snapshot [] s h = omega arith
report_loop_exact snapshot ((a, e) ∷ m) s h =
    ground (
      arith,
      classify_counts snapshot a e s,
      report_loop_exact snapshot m (classify snapshot a e s),
    )
