-- ===== src/Api/Events/Delivery.antt =====
-- The sets of channels under the calls of the event hub (internal/api/events.go).
use hopssh.Base.{
  ℕ, suc, ◌≤◌, ◌<◌, ◌≡◌, refl, ap, ◌∙◌, inl, inr, Bool, true, false, Option, none, some, List, [],
  ◌∷◌, arith, ◌==◌, if◌then◌else◌, ==_iff, Bool-cases, Option-cases, length,
}
use hopssh.Base.Text.{Bytes, bytes_eq, bytes_eq_iff}
use hopssh.Base.Dict.{lookup, lookup-insert, lookup-delete_key}
use hopssh.Api.Events.{
  Event, Channel, EventHub, capacity, set_channel, or_empty, subs_of, subscribe, remove, put_subs,
  without, close, unsubscribe, offered, send, and_then, publish_loop,
}

-- How often a channel stands in a set.
abbrev pub count : ℕ → List ℕ → ℕ
count ch [] = 0
count ch (c ∷ cs) = if c == ch then suc (count ch cs) else count ch cs

count-remove :
    (ch c : ℕ) (cs : List ℕ) → count c (remove ch cs) ≡ (if ch == c then 0 else count c cs)
unfolding remove
count-remove ch c [] = ground arith
count-remove ch c (x ∷ cs) = ground (arith, count-remove ch c cs)

-- `owner` is the network that a channel is subscribed to.
abbrev pub owned_by : Option Bytes → Bytes → ℕ
owned_by none network = 0
owned_by (some n) network = if bytes_eq n network then 1 else 0

abbrev pub is_owned : Option Bytes → Bool
is_owned none = false
is_owned (some n) = true

-- A channel stands once with its network and with no other, is open, and was made; one that was
-- made and is subscribed no more is closed.
pub record IsSound (h : EventHub) (owner : ℕ → Option Bytes) : Type 0 where
  pub once : (network : Bytes) (ch : ℕ) → count ch (subs_of network h) ≡ owned_by (owner ch) network
  pub is_open : (ch : ℕ) → is_owned (owner ch) ≡ true → (h.channels ch).closed ≡ false
  pub made : (ch : ℕ) → is_owned (owner ch) ≡ true → ch < h.next
  pub shut : (ch : ℕ) → ch < h.next → is_owned (owner ch) ≡ false → (h.channels ch).closed ≡ true
  pub room : (ch : ℕ) → length (h.channels ch).buffer ≤ capacity

subs_of-subscribe :
    (network n : Bytes) (h : EventHub)
    → subs_of n (subscribe network h).0
      ≡ (if bytes_eq network n then h.next ∷ subs_of network h else subs_of n h)
unfolding subs_of subscribe
subs_of-subscribe network n h = elim (Bool-cases (bytes_eq network n)) [
  | inl e ↦ rw (lookup-insert network n (h.next ∷ subs_of network h) h.subscribers, e) refl
  | inr e ↦ rw (lookup-insert network n (h.next ∷ subs_of network h) h.subscribers, e) refl
]

lookup-put_subs :
    (network n : Bytes) (subs : List ℕ) (m : List (Bytes × List ℕ))
    → or_empty (lookup n (put_subs network subs m))
      ≡ (if bytes_eq network n then subs else or_empty (lookup n m))
lookup-put_subs network n [] m = elim (Bool-cases (bytes_eq network n)) [
  | inl e ↦ rw (lookup-delete_key network n m, e) refl
  | inr e ↦ rw (lookup-delete_key network n m, e) refl
]
lookup-put_subs network n (c ∷ cs) m = elim (Bool-cases (bytes_eq network n)) [
  | inl e ↦ rw (lookup-insert network n (c ∷ cs) m, e) refl
  | inr e ↦ rw (lookup-insert network n (c ∷ cs) m, e) refl
]

abbrev pub set_owner : ℕ → Option Bytes → (ℕ → Option Bytes) → ℕ → Option Bytes
set_owner k o f j = if j == k then o else f j

count-subscribe :
    (network n : Bytes) (ch : ℕ) (h : EventHub) (owner : ℕ → Option Bytes)
    → IsSound h owner
    → count ch (subs_of n (subscribe network h).0)
      ≡ owned_by (set_owner h.next (some network) owner ch) n
count-subscribe network n ch h owner s = elim (Bool-cases (bytes_eq network n)) [
  | inl e ↦
      rw (subs_of-subscribe network n h, e) ground
        (arith, s.once network ch, s.made ch, e, (bytes_eq_iff network n).0 e)
  | inr e ↦ rw (subs_of-subscribe network n h, e) ground (arith, s.once n ch, s.made ch, e)
]

pub subscribe-IsSound :
    (network : Bytes) (h : EventHub) (owner : ℕ → Option Bytes)
    → IsSound h owner
    → IsSound (subscribe network h).0 (set_owner h.next (some network) owner)
unfolding subscribe
subscribe-IsSound network h owner s = record {
  once = λ n ch. count-subscribe network n ch h owner s;
  is_open = λ ch o. ground (arith, s.is_open ch, o);
  made = λ ch o. ground (arith, s.made ch, o);
  shut = λ ch m o. ground (arith, s.shut ch, m, o);
  room = λ ch. ground (arith, s.room ch);
}

subs_of-without :
    (network n : Bytes) (ch : ℕ) (h : EventHub) (next : ℕ) (channels : ℕ → Channel)
    → subs_of n (record {
      subscribers = without (lookup network h.subscribers) network ch h.subscribers;
      next = next;
      channels = channels;
    })
      ≡ (if bytes_eq network n then remove ch (subs_of network h) else subs_of n h)
unfolding subs_of remove
subs_of-without network n ch h next channels = elim (Option-cases (lookup network h.subscribers)) [
  | inr (subs, e) ↦ rw e (lookup-put_subs network n (remove ch subs) h.subscribers)
  | inl e ↦ rw e ground (arith, bytes_eq_iff network n, e)
]

count-without :
    (network n : Bytes) (ch c : ℕ) (h : EventHub) (owner : ℕ → Option Bytes)
    → owner ch ≡ some network
    → IsSound h owner
    → count c (if bytes_eq network n then remove ch (subs_of network h) else subs_of n h)
      ≡ owned_by (set_owner ch none owner c) n
count-without network n ch c h owner o s = elim (Bool-cases (bytes_eq network n)) [
  | inl e ↦
      rw e ground (
        arith,
        count-remove ch c (subs_of network h),
        s.once network c,
        (bytes_eq_iff network n).0 e,
      )
  | inr e ↦ rw e ground (arith, s.once n c, o, e)
]

pub unsubscribe-IsSound :
    (network : Bytes) (ch : ℕ) (h : EventHub) (owner : ℕ → Option Bytes)
    → owner ch ≡ some network
    → IsSound h owner
    → (h' : EventHub) × (unsubscribe network ch h ≡ some h') × IsSound h' (set_owner ch none owner)
unfolding unsubscribe close
unsubscribe-IsSound network ch h owner o s = (
  left,
  rw (s.is_open ch (rw o refl)) refl,
  record {
    once = λ n c.
        rw (subs_of-without network n ch h left.next left.channels)
          (count-without network n ch c h owner o s);
    is_open = λ c p. ground (arith, s.is_open c, p);
    made = λ c p. ground (arith, s.made c, p);
    shut = λ c m p. ground (arith, s.shut c, m, p);
    room = λ c. ground (arith, s.room c, s.room ch);
  },
)
  where
    left : EventHub
    left = record {
      subscribers = without (lookup network h.subscribers) network ch h.subscribers;
      next = h.next;
      channels =
          set_channel ch (record { buffer = (h.channels ch).buffer; closed = true }) h.channels;
    }

-- A channel after an event was sent to it, if at all.
abbrev pub given : Event → ℕ → Channel → Channel
given e k c = record { buffer = if k == 0 then c.buffer else offered e c.buffer; closed = c.closed }

-- What the sends of Publish leave of the buffer of a channel.
pub publish_loop-run :
    (e : Event) (chs : List ℕ) (h : EventHub)
    → ((ch : ℕ) → 0 < count ch chs → (h.channels ch).closed ≡ false)
    → ((ch : ℕ) → count ch chs ≤ 1)
    → (h' : EventHub) × (publish_loop e chs h ≡ some h')
      × (h'.subscribers ≡ h.subscribers)
      × (h'.next ≡ h.next)
      × ((ch : ℕ) → h'.channels ch ≡ given e (count ch chs) (h.channels ch))
unfolding publish_loop send
publish_loop-run e [] h o u = (h, refl, refl, refl, λ ch. refl)
publish_loop-run e (c ∷ chs) h o u =
    let rest = publish_loop-run e chs sent o-sent (λ ch. ground (arith, u ch)) in
    (
      rest.0,
      ap (and_then (publish_loop e chs)) sent_now ∙ rest.1,
      rest.2,
      rest.3,
      λ ch. rest.4 ch ∙ after ch,
    )
  where
    sent : EventHub
    sent = record h {
      channels =
          set_channel c (record (h.channels c) { buffer = offered e (h.channels c).buffer })
            h.channels;
    }

    o-sent : (ch : ℕ) → 0 < count ch chs → (sent.channels ch).closed ≡ false
    o-sent ch k = ground (arith, o ch, o c, k)

    sent_now : send e c h ≡ some sent
    sent_now = rw (o c (ground arith)) refl

    offered_to : Channel → Channel
    offered_to x = record { buffer = offered e x.buffer; closed = x.closed }

    sent_at : (ch : ℕ) → c ≡ ch → sent.channels ch ≡ offered_to (h.channels ch)
    sent_at ch same = rw (← same) (rw ((==_iff c c).1 refl) refl)

    flip : (ch : ℕ) → c == ch ≡ false → ch == c ≡ false
    flip ch n = ground (arith, n)

    none_left : (ch : ℕ) → c == ch ≡ true → count ch chs ≡ 0
    none_left ch y = ground (arith, u ch, y)

    sent_else : (ch : ℕ) → c == ch ≡ false → sent.channels ch ≡ h.channels ch
    sent_else ch n = rw (flip ch n) refl

    after :
        (ch : ℕ)
        → given e (count ch chs) (sent.channels ch) ≡ given e (count ch (c ∷ chs)) (h.channels ch)
    after ch = elim (Bool-cases (c == ch)) [
      | inl y ↦
          ap (given e (count ch chs)) (sent_at ch ((==_iff c ch).0 y))
          ∙ rw y (rw (none_left ch y) refl)
      | inr n ↦ ap (given e (count ch chs)) (sent_else ch n) ∙ rw n refl
    ]
