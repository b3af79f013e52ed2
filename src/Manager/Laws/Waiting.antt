-- ===== src/Manager/Laws/Waiting.antt =====
-- The requests of a waiting room in src/game/room.cpp: they return, and keep the server proper.

use uno_server.Common.{
  ℕ, ◌≡◌, ◌≢◌, inl, inr, refl, sym, ◌∙◌, Bool, true, Option, none, some, arith, ◌==◌, ℤ, pos,
  negsuc, lookup, Bool-cases,
}
use mathlib.Core.Path.{subst}
use uno_server.Session.Ssmgr.{find_session}
use uno_server.Room.Types.{Room, Player}
use uno_server.Room.Random.{Random}
use uno_server.Room.Notify.{Event, broadcast_event}
use uno_server.Room.Laws.Piles.{IsMember, member_some}
use uno_server.Room.Laws.Quiet.{broadcast_event-Quiet}
use uno_server.Manager.Answers.{
  ErrCode, Reply, get_ready_rsp, shuffle_room_seats_rsp, room_use_voice_rsp,
}
use uno_server.Manager.Types.{Server, answer, world_of, put_back, run_room}
use uno_server.Manager.Guard.{Action, idle_only, any_state, room_request}
use uno_server.Manager.Seats.{
  with_player, get_ready, get_ready_req, tell_seats, reseat, is_seat_cooldown, shuffle_room_seats,
  shuffle_room_seats_req, is_voice_cooldown, room_use_voice, room_use_voice_req,
}
use uno_server.Manager.Laws.Guards.{
  Admitted, in_room-cases, room_request-none, room_request-Admitted,
}
use uno_server.Manager.Laws.Invariant.{IsServer, Returns, answer-IsServer, put_back-IsServer}
use uno_server.Manager.Laws.Rooms.{
  KeepsSeats, IsMember-insert, with_player-IsRoom, reseat-IsRoom, IsMember-reseat,
}

no_room : (id : ℕ) → pos id ≢ negsuc 0
no_room id = ground arith

-- The user of an admitted session is in its room.
Admitted-member :
    {allowed : Room → Bool} {s : Server} {sid id : ℕ} {r : Room} (uid : ℕ)
    → IsServer s
    → find_session uid s.ssmgr ≡ some sid
    → Admitted allowed s sid id r
    → (p : Player) × (lookup uid r.players ≡ some p)
Admitted-member {allowed} {s} {sid} {id} {r} uid i f a =
    let its = a.its_room in
    let found = a.found in
    elim (i.placed uid sid f a.gaming) [
      | inl out ↦ absurd (no_room id (sym its ∙ out))
      | inr (j, q, at, there, member) ↦
          let same_id : pos j ≡ pos id = cc in
          let same : q ≡ r = cc in
          member_some uid r.players (subst (λ (z : Room). IsMember uid z.players) same member)
    ]

room_request-Returns :
    {s : Server} (rsp : ErrCode → Reply) (allowed : Room → Bool) (act : Action) (sid uid : ℕ)
    (room_id : ℤ)
    → IsServer s
    → find_session uid s.ssmgr ≡ some sid
    → ((id : ℕ) (r : Room) (p : Player)
        → Admitted allowed s sid id r
        → lookup uid r.players ≡ some p
        → Returns IsServer (act id r p s))
    → Returns IsServer (room_request rsp allowed act s sid uid room_id)
room_request-Returns {s} rsp allowed act sid uid room_id i f go =
    elim (in_room-cases allowed s sid room_id) [
      | inl e ↦ (
        answer sid (rsp ErrCode.api_invalid_call) s,
        room_request-none rsp allowed act s sid uid room_id e,
        answer-IsServer sid (rsp ErrCode.api_invalid_call) i,
      )
      | inr (id, r, at, a) ↦
          let (p, found) = Admitted-member uid i f a in
          let (s', done, proper) = go id r p a found in
          (
            s',
            rw at (room_request-Admitted rsp allowed act s sid uid id r p a found ∙ done),
            proper,
          )
    ]

-- A broadcast after a write to one player.
pub told-IsServer :
    {s : Server} (id uid : ℕ) (r : Room) (p q : Player) (sender : Option ℕ) (event : Event)
    → IsServer s
    → lookup id s.m_rooms ≡ some r
    → lookup uid r.players ≡ some p
    → IsServer (put_back id (broadcast_event sender event (world_of s (with_player uid q r))) s)
unfolding with_player world_of
told-IsServer {s} id uid r p q sender event i there found =
    let w = world_of s (with_player uid q r) in
    put_back-IsServer id r (with_player uid q r) (broadcast_event sender event w) i there
      (broadcast_event-Quiet sender event w).same_room
      (with_player-IsRoom uid p q (i.rooms id r there) found)
      (λ u. IsMember-insert uid u q r.players)

get_ready-Returns :
    {s : Server} (sid uid id : ℕ) (r : Room) (p : Player)
    → IsServer s
    → lookup id s.m_rooms ≡ some r
    → lookup uid r.players ≡ some p
    → Returns IsServer (get_ready sid uid id r p s)
unfolding get_ready run_room
get_ready-Returns {s} sid uid id r p i there found = elim (Bool-cases p.ready) [
  | inl e ↦ (
    answer sid (get_ready_rsp ErrCode.ok) s,
    rw e refl,
    answer-IsServer sid (get_ready_rsp ErrCode.ok) i,
  )
  | inr e ↦ (
    _,
    rw e refl,
    answer-IsServer sid (get_ready_rsp ErrCode.ok) (
        told-IsServer id uid r p (record p { ready = true }) (some uid) Event.player_ready i there
          found),
  )
]

room_use_voice-Returns :
    {s : Server} (now : ℤ) (sid uid : ℕ) (voice_id : ℤ) (id : ℕ) (r : Room) (p : Player)
    → IsServer s
    → lookup id s.m_rooms ≡ some r
    → lookup uid r.players ≡ some p
    → Returns IsServer (room_use_voice now sid uid voice_id id r p s)
unfolding room_use_voice
room_use_voice-Returns {s} now sid uid voice_id id r p i there found =
    elim (Bool-cases (is_voice_cooldown now p)) [
      | inl e ↦ (
        answer sid (room_use_voice_rsp ErrCode.api_room_use_voice_cooldown) s,
        rw e refl,
        answer-IsServer sid (room_use_voice_rsp ErrCode.api_room_use_voice_cooldown) i,
      )
      | inr e ↦ (
        _,
        rw e refl,
        answer-IsServer sid (room_use_voice_rsp ErrCode.ok) (
            told-IsServer id uid r p (record p { last_use_voice_time = now }) none
              (Event.use_voice uid voice_id) i there found),
      )
    ]

reseated-IsServer :
    {R : Random} {s : Server} (now : ℤ) (id : ℕ) (r : Room)
    → KeepsSeats R
    → IsServer s
    → lookup id s.m_rooms ≡ some r
    → IsServer (put_back id (tell_seats (reseat R now (world_of s r))) s)
unfolding tell_seats world_of
reseated-IsServer {R} {s} now id r k i there =
    let w = world_of s r in
    let w1 = reseat R now w in
    put_back-IsServer id r w1.room (tell_seats w1) i there
      (broadcast_event-Quiet none (Event.update_seats w1.room.seq) w1).same_room
      (reseat-IsRoom now w k (i.rooms id r there)) (IsMember-reseat R now w)

shuffle_room_seats-Returns :
    {R : Random} {s : Server} (now : ℤ) (sid uid id : ℕ) (r : Room) (p : Player)
    → KeepsSeats R
    → IsServer s
    → lookup id s.m_rooms ≡ some r
    → Returns IsServer (shuffle_room_seats R now sid uid id r p s)
unfolding shuffle_room_seats
shuffle_room_seats-Returns {R} {s} now sid uid id r p k i there =
    elim (Bool-cases (r.owner == uid)) [
      | inr e ↦
          (_, rw e refl, answer-IsServer sid (shuffle_room_seats_rsp ErrCode.api_room_not_owner) i)
      | inl e ↦ elim (Bool-cases (is_seat_cooldown now r)) [
        | inl c ↦ (
          _,
          rw (e, c) refl,
          answer-IsServer sid (shuffle_room_seats_rsp ErrCode.api_room_update_seat_cooldown) i,
        )
        | inr c ↦ (
          _,
          rw (e, c) refl,
          answer-IsServer sid (shuffle_room_seats_rsp ErrCode.ok)
              (reseated-IsServer now id r k i there),
        )
      ]
    ]

-- The three requests that write to a room and its players only.
pub room_requests-Returns :
    {R : Random} {s : Server} (sid uid : ℕ) (room_id now voice_id : ℤ)
    → KeepsSeats R
    → IsServer s
    → find_session uid s.ssmgr ≡ some sid
    → Returns IsServer (get_ready_req s sid uid room_id)
      × Returns IsServer (shuffle_room_seats_req R now s sid uid room_id)
      × Returns IsServer (room_use_voice_req now s sid uid room_id voice_id)
unfolding get_ready_req shuffle_room_seats_req room_use_voice_req
room_requests-Returns {R} {s} sid uid room_id now voice_id k i f = (
  room_request-Returns get_ready_rsp idle_only (get_ready sid uid) sid uid room_id i f
      (λ id r p a found. get_ready-Returns sid uid id r p i a.found found),
  room_request-Returns shuffle_room_seats_rsp idle_only (shuffle_room_seats R now sid uid) sid uid
      room_id i f (λ id r p a found. shuffle_room_seats-Returns now sid uid id r p k i a.found),
  room_request-Returns room_use_voice_rsp any_state (room_use_voice now sid uid voice_id) sid uid
      room_id i f
      (λ id r p a found. room_use_voice-Returns now sid uid voice_id id r p i a.found found),
)
