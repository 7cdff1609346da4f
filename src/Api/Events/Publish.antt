-- ===== src/Api/Events/Publish.antt =====
-- What the subscribers of a network receive (internal/api/events.go).
use hopssh.Base.{
  Option-cases, ◌↔◌, ℕ, ◌≤◌, ◌<◌, ◌≡◌, refl, ap, ◌∙◌, inl, inr, Bool, true, false, Option, none,
  some, arith, if◌then◌else◌, Bool-cases, length,
}
use hopssh.Base.Text.{Bytes, bytes_eq}
use hopssh.Api.Events.{Event, Channel, EventHub, capacity, subs_of, offered, send, publish}
use hopssh.Api.Events.Delivery.{count, owned_by, is_owned, given}
use hopssh.Api.Events.Calls.{
  Later, Reached, publish-run, publish-IsSound, Later-IsSound, Reached-IsSound, Later-next,
}

-- Whether a network is the one of a channel.
abbrev pub is_owner : Option Bytes → Bytes → Bool
is_owner none network = false
is_owner (some n) network = bytes_eq n network

given-owner :
    (e : Event) (o : Option Bytes) (network : Bytes) (c : Channel)
    → (given e (owned_by o network) c).buffer
      ≡ (if is_owner o network then offered e c.buffer else c.buffer)
given-owner e none network c = refl
given-owner e (some n) network c = elim (Bool-cases (bytes_eq n network)) [
  | inl y ↦ rw y refl
  | inr n ↦ rw n refl
]

-- From every state that calls of the hub reach, Publish without a call between its sends does not
-- panic: each channel that is subscribed to the network gets the event at its end, unless it holds
-- 16 events, the buffer of every other channel stays as it was, and no channel holds more than 16.
pub publish_delivers :
    {h : EventHub} {owner : ℕ → Option Bytes} (network : Bytes) (e : Event)
    → Reached h owner
    → (h' : EventHub) × (publish network e h ≡ some h')
      × ((ch : ℕ)
          → ((h'.channels ch).buffer ≡ (
              if is_owner (owner ch) network
              then offered e (h.channels ch).buffer
              else (h.channels ch).buffer))
            × (length (h'.channels ch).buffer ≤ capacity))
publish_delivers {h} {owner} network e r =
    let run = publish-run network e h owner (Reached-IsSound r) in
    (
      run.0,
      run.1,
      λ ch. (
        ap (λ c. c.buffer) (run.4 ch) ∙ given-owner e (owner ch) network (h.channels ch),
        (publish-IsSound network e h run.0 owner (Reached-IsSound r) run.1).room ch,
      ),
    )

-- If Publish, in a state that calls of the hub reach, comes to a channel in the set of its network,
-- and any calls and other sends follow before its send to the channel: the send panics exactly if
-- the channel has been unsubscribed by then.
pub send-after_unsubscribe :
    {h h' : EventHub} {owner owner' : ℕ → Option Bytes} (network : Bytes) (ch : ℕ) (e : Event)
    → Reached h owner
    → 0 < count ch (subs_of network h)
    → Later h owner h' owner'
    → (send e ch h' ≡ none) ↔ (owner' ch ≡ none)
unfolding send
send-after_unsubscribe {h} {h'} {owner} {owner'} network ch e r picked l =
    let s = Reached-IsSound r in
    let s' = Later-IsSound s l in
    let held : is_owned (owner ch) ≡ true = ground (arith, picked, s.once network ch) in
    let made : ch < h'.next = omega (arith, s.made ch held, Later-next s l) in
    elim (Option-cases (owner' ch)) [
      | inl gone ↦
          let closed : (h'.channels ch).closed ≡ true = s'.shut ch made (rw gone refl) in
          (λ _. gone, λ _. rw closed refl)
      | inr (n, held') ↦
          let open_still : (h'.channels ch).closed ≡ false = s'.is_open ch (rw held' refl) in
          (
            λ p. absurd (ground (arith, open_still, p)),
            λ gone. absurd (ground (arith, held', gone)),
          )
    ]
