-- ===== src/Room/Laws/Quiet.antt =====
-- Messages change no room, and of the statistics' events only two reach a handler.
use uno_server.Common.{
  ℕ, ◌≡◌, refl, Bool, true, false, Option, none, some, List, [], ◌∷◌, ◌==◌, ℤ, length, Outcome, ok,
  Bool-cases, inl, inr,
}
use uno_server.Stater.Types.{DealReason, LeftReason, GameStater}
use uno_server.Stater.Events.{card_deal, card_play, player_left}
use uno_server.Stater.Dispatch.{RoomView, call_stat_event}
use uno_server.Room.Types.{Room, PlayerMap}
use uno_server.Room.Notify.{World, Event, send_event, broadcast_to, broadcast_event, stat_event}
use uno_server.Room.Cursor.{seat}
use uno_server.Room.Deal.{hand_of, tell_deal, broadcast_thinking}
use uno_server.Room.Play.{Play, tell_play}

-- A deal, a play and a departure leave the statistics as they were, whatever they hold.
pub call_stat_event_ignored :
    (b : Bool) (v : RoomView) (g : GameStater) (uid n m : ℕ) (cards : List ℤ) (reason : DealReason)
    (req_by : Option ℕ) (cursor c : ℤ) (need_uno with_uno ahead : Bool) (why : LeftReason)
    → (call_stat_event b v (card_deal uid n m cards reason req_by cursor) g ≡ ok g)
      × (call_stat_event b v (card_play uid c need_uno with_uno n cards ahead) g ≡ ok g)
      × (call_stat_event b v (player_left uid why) g ≡ ok g)
unfolding call_stat_event
call_stat_event_ignored true v g uid n m cards reason req_by cursor c need_uno with_uno ahead why =
    (refl, refl, refl)
call_stat_event_ignored false v g uid n m cards reason req_by cursor c need_uno with_uno ahead why =
    (refl, refl, refl)

pub stat_event-card_deal :
    (b : Bool) (w : World) (uid n m : ℕ) (cards : List ℤ) (reason : DealReason) (req_by : Option ℕ)
    (cursor : ℤ)
    → stat_event b (card_deal uid n m cards reason req_by cursor) w ≡ ok w
unfolding stat_event call_stat_event
stat_event-card_deal true w uid n m cards reason req_by cursor = refl
stat_event-card_deal false w uid n m cards reason req_by cursor = refl

pub stat_event-card_play :
    (b : Bool) (w : World) (uid n : ℕ) (c : ℤ) (need_uno with_uno : Bool) (cards : List ℤ)
    (ahead : Bool)
    → stat_event b (card_play uid c need_uno with_uno n cards ahead) w ≡ ok w
unfolding stat_event call_stat_event
stat_event-card_play true w uid n c need_uno with_uno cards ahead = refl
stat_event-card_play false w uid n c need_uno with_uno cards ahead = refl

pub stat_event-player_left :
    (b : Bool) (w : World) (uid : ℕ) (why : LeftReason)
    → stat_event b (player_left uid why) w ≡ ok w
unfolding stat_event call_stat_event
stat_event-player_left true w uid why = refl
stat_event-player_left false w uid why = refl

-- Two worlds that differ in their messages at most.
pub record Quiet (w w' : World) : Type 0 where
  pub same_room : w'.room ≡ w.room
  pub same_gen : w'.gen ≡ w.gen
  pub same_sessions : w'.has_session ≡ w.has_session

pub send_event-Quiet :
    (uid : ℕ) (sender : Option ℕ) (event : Event) (w : World)
    → Quiet w (send_event uid sender event w)
unfolding send_event
send_event-Quiet uid sender event w = elim (Bool-cases (w.has_session uid)) [
  | inl e ↦ rw e (record { same_room = refl; same_gen = refl; same_sessions = refl })
  | inr e ↦ rw e (record { same_room = refl; same_gen = refl; same_sessions = refl })
]

pub Quiet-trans : {u v w : World} → Quiet u v → Quiet v w → Quiet u w
Quiet-trans p q = record {
  same_room = cc (p.same_room, q.same_room);
  same_gen = cc (p.same_gen, q.same_gen);
  same_sessions = cc (p.same_sessions, q.same_sessions);
}

Quiet-refl : (w : World) → Quiet w w
Quiet-refl w = record { same_room = refl; same_gen = refl; same_sessions = refl }

broadcast_to-Quiet :
    (ps : PlayerMap) (sender : Option ℕ) (event : Event) (w : World)
    → Quiet w (broadcast_to ps sender event w)
unfolding broadcast_to
broadcast_to-Quiet [] sender event w = Quiet-refl w
broadcast_to-Quiet ((uid, p) ∷ ps) none event w =
    Quiet-trans (send_event-Quiet uid none event w)
      (broadcast_to-Quiet ps none event (send_event uid none event w))
broadcast_to-Quiet ((uid, p) ∷ ps) (some u) event w = elim (Bool-cases (u == uid)) [
  | inl e ↦ rw e (broadcast_to-Quiet ps (some u) event w)
  | inr e ↦ rw e (
      Quiet-trans (send_event-Quiet uid (some u) event w)
        (broadcast_to-Quiet ps (some u) event (send_event uid (some u) event w)))
]

pub broadcast_event-Quiet :
    (sender : Option ℕ) (event : Event) (w : World) → Quiet w (broadcast_event sender event w)
unfolding broadcast_event
broadcast_event-Quiet sender event w = broadcast_to-Quiet w.room.players sender event w

-- A call that returns, and changes nothing but the messages.
abbrev pub Tells : World → Outcome World → Type 0
Tells w m = (w' : World) × (m ≡ ok w') × Quiet w w'

pub tell_deal-Tells :
    (uid : ℕ) (arr : List ℤ) (reason : DealReason) (req_by : Option ℕ) (w : World)
    → Tells w (tell_deal uid arr reason req_by w)
unfolding tell_deal
tell_deal-Tells uid arr reason req_by w = (
  broadcast_event (some uid) event (send_event uid (some uid) event w),
  simp (stat_event-card_deal),
  Quiet-trans (send_event-Quiet uid (some uid) event w) (broadcast_event-Quiet (some uid) event _),
)
  where
    event : Event
    event =
        Event.card_deal (length (hand_of uid w.room.players)) (length arr) (some arr) reason req_by
          w.room.cursor

pub tell_play-Tells :
    (uid : ℕ) (c : ℤ) (with_uno : Bool) (p : Play) (w : World)
    → Tells w (tell_play uid c with_uno p w)
unfolding tell_play
tell_play-Tells uid c with_uno p w = (
  broadcast_event (some uid) (event none)
      (send_event uid (some uid) (event (some (hand_of uid w.room.players))) w),
  simp (stat_event-card_play),
  Quiet-trans (send_event-Quiet uid (some uid) _ w)
      (broadcast_event-Quiet (some uid) (event none) _),
)
  where
    event : Option (List ℤ) → Event
    event rest =
        Event.card_play c p.need_uno with_uno (length (hand_of uid w.room.players)) rest p.ahead

-- The event `thinking` goes out if the cursor is at a seat.
pub broadcast_thinking-Tells :
    (w : World) (uid : ℕ) → seat w.room ≡ ok uid → Tells w (broadcast_thinking w)
unfolding broadcast_thinking
broadcast_thinking-Tells w uid h = (
  broadcast_event none
      (Event.thinking uid r.timer r.last r.last_chg_color r.direction r.draw r.last_can_report
        r.can_play_ahead)
      w,
  rw h,
  broadcast_event-Quiet none _ w,
)
  where
    r : Room
    r = w.room
