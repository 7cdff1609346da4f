-- ===== src/Api/Events/Calls.antt =====
-- The states of the event hub under calls in any order (internal/api/events.go).
use hopssh.Base.{
  sym, ℕ, ◌≤◌, ◌<◌, ◌≡◌, refl, ap, ◌∙◌, inl, inr, true, Option, none, some, List, [], ◌∷◌, arith,
  ◌==◌, ==_iff, Bool-cases, length, length-append,
}
use hopssh.Base.Text.{Bytes}
use hopssh.Base.Dict.{lookup}
use hopssh.Api.Events.{
  set_channel, Event, Channel, EventHub, new_event_hub, capacity, or_empty, subs_of, subscribe,
  close, unsubscribe, offered, send, publish, received, receive,
}
use hopssh.Api.Events.Delivery.{
  count, owned_by, is_owned, IsSound, set_owner, subscribe-IsSound, unsubscribe-IsSound, given,
  publish_loop-run,
}

-- The hubs that calls lead to from a hub, with the network of each channel that is subscribed. A
-- channel is unsubscribed once, by the Connect that subscribed it. Publish runs in one piece, or as
-- single sends among the other calls.
pub data Later (h₀ : EventHub) (owner₀ : ℕ → Option Bytes)
    : EventHub → (ℕ → Option Bytes) → Type 0 where
  now : Later h₀ owner₀ h₀ owner₀
  subscribed :
      {h : EventHub} {owner : ℕ → Option Bytes} (network : Bytes)
      → Later h₀ owner₀ h owner
      → Later h₀ owner₀ (subscribe network h).0 (set_owner h.next (some network) owner)
  unsubscribed :
      {h h' : EventHub} {owner : ℕ → Option Bytes} (network : Bytes) (ch : ℕ)
      → Later h₀ owner₀ h owner
      → owner ch ≡ some network
      → unsubscribe network ch h ≡ some h'
      → Later h₀ owner₀ h' (set_owner ch none owner)
  published :
      {h h' : EventHub} {owner : ℕ → Option Bytes} (network : Bytes) (e : Event)
      → Later h₀ owner₀ h owner
      → publish network e h ≡ some h'
      → Later h₀ owner₀ h' owner
  sent :
      {h h' : EventHub} {owner : ℕ → Option Bytes} (e : Event) (ch : ℕ)
      → Later h₀ owner₀ h owner
      → send e ch h ≡ some h'
      → Later h₀ owner₀ h' owner
  taken :
      {h : EventHub} {owner : ℕ → Option Bytes} (ch : ℕ)
      → Later h₀ owner₀ h owner
      → Later h₀ owner₀ (receive ch h) owner

-- The hubs that calls reach from a new one.
abbrev pub Reached : EventHub → (ℕ → Option Bytes) → Type 0
Reached h owner = Later new_event_hub (λ _. none) h owner

pub publish-run :
    (network : Bytes) (e : Event) (h : EventHub) (owner : ℕ → Option Bytes)
    → IsSound h owner
    → (h' : EventHub) × (publish network e h ≡ some h')
      × (h'.subscribers ≡ h.subscribers)
      × (h'.next ≡ h.next)
      × ((ch : ℕ) → h'.channels ch ≡ given e (owned_by (owner ch) network) (h.channels ch))
unfolding publish
publish-run network e h owner s =
    let run =
      publish_loop-run e (subs_of network h) h (λ ch k. s.is_open ch (owned ch k))
        (λ ch. ground (arith, s.once network ch)) in
    (
      run.0,
      run.1,
      run.2,
      run.3,
      λ ch. run.4 ch ∙ ap (λ k. given e k (h.channels ch)) (s.once network ch),
    )
  where
    owned : (ch : ℕ) → 0 < count ch (subs_of network h) → is_owned (owner ch) ≡ true
    owned ch k = ground (arith, k, s.once network ch)

given-room :
    (e : Event) (k : ℕ) (c : Channel)
    → length c.buffer ≤ capacity
    → length (given e k c).buffer ≤ capacity
given-room e k c r = ground (arith, r, length-append c.buffer (e ∷ []))

given-IsSound :
    (network : Bytes) (e : Event) (h h' : EventHub) (owner : ℕ → Option Bytes)
    → IsSound h owner
    → (h'.subscribers ≡ h.subscribers)
    → (h'.next ≡ h.next)
    → ((ch : ℕ) → h'.channels ch ≡ given e (owned_by (owner ch) network) (h.channels ch))
    → IsSound h' owner
unfolding subs_of
given-IsSound network e h h' owner s subs next chans = record {
  once = λ n ch. ap (λ m. count ch (or_empty (lookup n m))) subs ∙ s.once n ch;
  is_open = λ ch o. ap (λ c. c.closed) (chans ch) ∙ s.is_open ch o;
  made = λ ch o. rw next (s.made ch o);
  shut = λ ch m o. ap (λ c. c.closed) (chans ch) ∙ s.shut ch (rw next at m) o;
  room =
      λ ch. rw (chans ch) (given-room e (owned_by (owner ch) network) (h.channels ch) (s.room ch));
}

pub publish-IsSound :
    (network : Bytes) (e : Event) (h h' : EventHub) (owner : ℕ → Option Bytes)
    → IsSound h owner
    → publish network e h ≡ some h'
    → IsSound h' owner
publish-IsSound network e h h' owner s p =
    let run = publish-run network e h owner s in
    let same : run.0 ≡ h' = ground (arith, run.1, p) in
    rw (← same) (given-IsSound network e h run.0 owner s run.2 run.3 run.4)

length-received : (es : List Event) → length (received es) ≤ length es
length-received [] = ground arith
length-received (e ∷ es) = ground arith

receive-IsSound :
    (ch : ℕ) (h : EventHub) (owner : ℕ → Option Bytes)
    → IsSound h owner
    → IsSound (receive ch h) owner
unfolding receive subs_of
receive-IsSound ch h owner s = record {
  once = s.once;
  is_open = λ c o. ground (arith, s.is_open c o, s.is_open ch, ==_iff c ch);
  made = s.made;
  shut = λ c m o. ground (arith, s.shut c m o, s.shut ch, ==_iff c ch);
  room = λ c. elim (Bool-cases (c == ch)) [
    | inl e ↦ rw e (omega (arith, length-received (h.channels ch).buffer, s.room ch))
    | inr n ↦ rw n (s.room c)
  ];
}

send-IsSound :
    (e : Event) (ch : ℕ) (h h' : EventHub) (owner : ℕ → Option Bytes)
    → IsSound h owner
    → send e ch h ≡ some h'
    → IsSound h' owner
unfolding send subs_of
send-IsSound e ch h h' owner s p = elim (Bool-cases (h.channels ch).closed) [
  | inl c ↦ absurd (ground (arith, c, p))
  | inr o ↦
      let same : given_one ≡ h' = ground (arith, o, p) in
      rw (← same) (record {
        once = s.once;
        is_open = λ c q. ground (arith, s.is_open c q, s.is_open ch, ==_iff c ch);
        made = s.made;
        shut = λ c m q. ground (arith, s.shut c m q, s.shut ch, ==_iff c ch);
        room =
            λ c. ground (arith, s.room c, s.room ch, length-append (h.channels ch).buffer (e ∷ []));
      })
]
  where
    given_one : EventHub
    given_one = record h {
      channels =
          set_channel ch (record (h.channels ch) { buffer = offered e (h.channels ch).buffer })
            h.channels;
    }

new-IsSound : IsSound new_event_hub (λ _. none)
unfolding subs_of lookup
new-IsSound = record {
  once = λ n ch. refl;
  is_open = λ ch o. refl;
  made = λ ch o. absurd (ground (arith, o));
  shut = λ ch m o. absurd (omega (arith, m));
  room = λ ch. ground arith;
}

pub Later-IsSound :
    {h₀ : EventHub} {owner₀ : ℕ → Option Bytes} {h : EventHub} {owner : ℕ → Option Bytes}
    → IsSound h₀ owner₀
    → Later h₀ owner₀ h owner
    → IsSound h owner
Later-IsSound s now = s
Later-IsSound s (subscribed {h} {owner} network r) =
    subscribe-IsSound network h owner (Later-IsSound s r)
Later-IsSound s (unsubscribed {h} {h'} {owner} network ch r o u) =
    let left = unsubscribe-IsSound network ch h owner o (Later-IsSound s r) in
    let same : left.0 ≡ h' = ground (arith, left.1, u) in rw (← same) left.2
Later-IsSound s (published {h} {h'} {owner} network e r p) =
    publish-IsSound network e h h' owner (Later-IsSound s r) p
Later-IsSound s (sent {h} {h'} {owner} e ch r p) =
    send-IsSound e ch h h' owner (Later-IsSound s r) p
Later-IsSound s (taken {h} {owner} ch r) = receive-IsSound ch h owner (Later-IsSound s r)

pub Reached-IsSound : {h : EventHub} {owner : ℕ → Option Bytes} → Reached h owner → IsSound h owner
Reached-IsSound r = Later-IsSound new-IsSound r

next-unsubscribe :
    (network : Bytes) (ch : ℕ) (h h' : EventHub)
    → unsubscribe network ch h ≡ some h'
    → h'.next ≡ h.next
unfolding unsubscribe close
next-unsubscribe network ch h h' u = ground (arith, u)

next-send : (e : Event) (ch : ℕ) (h h' : EventHub) → send e ch h ≡ some h' → h'.next ≡ h.next
unfolding send
next-send e ch h h' u = ground (arith, u)

next-publish :
    (network : Bytes) (e : Event) (h h' : EventHub) (owner : ℕ → Option Bytes)
    → IsSound h owner
    → publish network e h ≡ some h'
    → h'.next ≡ h.next
next-publish network e h h' owner s p =
    let run = publish-run network e h owner s in
    let same : run.0 ≡ h' = ground (arith, run.1, p) in ap (λ x. x.next) (sym same) ∙ run.3

pub Later-next :
    {h₀ : EventHub} {owner₀ : ℕ → Option Bytes} {h : EventHub} {owner : ℕ → Option Bytes}
    → IsSound h₀ owner₀
    → Later h₀ owner₀ h owner
    → h₀.next ≤ h.next
unfolding subscribe receive
Later-next s now = omega arith
Later-next s (subscribed network r) = omega (arith, Later-next s r)
Later-next s (unsubscribed {h} {h'} {owner} network ch r o u) =
    omega (arith, Later-next s r, next-unsubscribe network ch h h' u)
Later-next s (published {h} {h'} {owner} network e r p) =
    omega (arith, Later-next s r, next-publish network e h h' owner (Later-IsSound s r) p)
Later-next s (sent {h} {h'} {owner} e ch r p) = omega (arith, Later-next s r, next-send e ch h h' p)
Later-next s (taken ch r) = Later-next s r
