-- ===== src/Api/Events.antt =====
-- The events that the dashboard is sent (internal/api/events.go: EventHub) and the check of the
-- origin of its WebSocket. Channels are numbered in the order in which they are made; a send to a
-- closed channel, or a second close, panics, which is `none`.
pub mod Delivery
pub mod Calls
pub mod Publish
use hopssh.Base.{
  ℕ, zero, suc, ◌+◌, ◌-◌, ◌*◌, ◌/◌, ◌%◌, ◌≤◌, ◌<◌, ◌≡◌, refl, sym, ap, ◌∙◌, ◌≢◌, ◌↔◌, ◌⊎◌, inl, inr,
  Bool, true, false, not, ◌&&◌, ◌||◌, Option, none, some, List, [], ◌∷◌, ◌++◌, map, arith, ltb, leb,
  ◌==◌, if◌then◌else◌, ltb→lt, lt→ltb, leb→le, ==_iff, Bool-cases, Option-cases, length, get_or,
  take, drop, drop_last, replicate, All, length-append, drop_last-append,
}
use hopssh.Base.Text.{Bytes, codes, is_empty, bytes_eq, bytes_eq_iff, bytes_eq_refl, contains}
use hopssh.Base.Dict.{lookup, insert, delete_key}

pub record Event : Type 0 where
  pub event_type : Bytes
  pub payload : Bytes

pub record Channel : Type 0 where
  pub buffer : List Event
  pub closed : Bool

pub record EventHub : Type 0 where
  pub subscribers : List (Bytes × List ℕ)
  pub next : ℕ
  pub channels : ℕ → Channel

abbrev pub new_event_hub : EventHub
new_event_hub = record {
  subscribers = [];
  next = 0;
  channels = λ _. record { buffer = []; closed = false };
}

abbrev pub capacity : ℕ
capacity = 16

abbrev pub set_channel : ℕ → Channel → (ℕ → Channel) → ℕ → Channel
set_channel k c f j = if j == k then c else f j

abbrev pub or_empty : Option (List ℕ) → List ℕ
or_empty none = []
or_empty (some subs) = subs

-- The channels of a network.
unfoldable pub subs_of : Bytes → EventHub → List ℕ
subs_of network h = or_empty (lookup network h.subscribers)

unfoldable pub subscribe : Bytes → EventHub → EventHub × ℕ
subscribe network h = (
  record {
    subscribers = insert network (h.next ∷ subs_of network h) h.subscribers;
    next = suc h.next;
    channels = set_channel h.next (record { buffer = []; closed = false }) h.channels;
  },
  h.next,
)

pub remove : ℕ → List ℕ → List ℕ
remove ch [] = []
remove ch (c ∷ cs) = let rest = remove ch cs in if c == ch then rest else c ∷ rest

abbrev pub put_subs : Bytes → List ℕ → List (Bytes × List ℕ) → List (Bytes × List ℕ)
put_subs network [] m = delete_key network m
put_subs network (c ∷ cs) m = insert network (c ∷ cs) m

abbrev pub without : Option (List ℕ) → Bytes → ℕ → List (Bytes × List ℕ) → List (Bytes × List ℕ)
without none network ch m = m
without (some subs) network ch m = put_subs network (remove ch subs) m

unfoldable pub close : ℕ → EventHub → Option EventHub
close ch h =
    if (h.channels ch).closed
    then none
    else some (record h {
      channels = set_channel ch (record (h.channels ch) { closed = true }) h.channels;
    })

unfoldable pub unsubscribe : Bytes → ℕ → EventHub → Option EventHub
unsubscribe network ch h =
    close ch
      (record h { subscribers = without (lookup network h.subscribers) network ch h.subscribers })

-- The send of Publish to one channel, which drops the event where the channel is full.
abbrev pub offered : Event → List Event → List Event
offered e buffer = if ltb (length buffer) capacity then buffer ++ e ∷ [] else buffer

pub send : Event → ℕ → EventHub → Option EventHub
send e ch h =
    if (h.channels ch).closed
    then none
    else some (record h {
      channels =
          set_channel ch (record (h.channels ch) { buffer = offered e (h.channels ch).buffer })
            h.channels;
    })

abbrev pub and_then : (EventHub → Option EventHub) → Option EventHub → Option EventHub
and_then f none = none
and_then f (some h) = f h

pub publish_loop : Event → List ℕ → EventHub → Option EventHub
publish_loop e [] h = some h
publish_loop e (ch ∷ chs) h = and_then (publish_loop e chs) (send e ch h)

-- Publish without a call of another goroutine between its sends, so that nothing changes the set
-- that it ranges over. In general it sends, at each step, to a channel that is in the set then.
pub publish : Bytes → Event → EventHub → Option EventHub
publish network e h = publish_loop e (subs_of network h) h

abbrev received : List Event → List Event
received [] = []
received (e ∷ es) = es

-- The loop of Connect takes the next event.
pub receive : ℕ → EventHub → EventHub
receive ch h = record h {
  channels =
      set_channel ch (record (h.channels ch) { buffer = received (h.channels ch).buffer })
        h.channels;
}

unfoldable pub contains_origin : List Bytes → Bytes → Bool
contains_origin [] origin = false
contains_origin (o ∷ os) origin =
    bytes_eq o (codes "*") || bytes_eq o origin || contains_origin os origin

unfoldable pub check_web_socket_origin : List Bytes → Bytes → Bytes → Bool
check_web_socket_origin allowed_origins host origin =
    is_empty origin
    || bytes_eq origin (codes "http://" ++ host)
    || bytes_eq origin (codes "https://" ++ host)
    || contains_origin allowed_origins origin
