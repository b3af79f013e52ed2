-- ===== src/Manager/Laws/Going.antt =====
-- `leave_room_req` and `room_kickout_player_req` of src/game/room.cpp: whenever they return, the
-- server is proper.
use uno_server.Common.{
  ℕ, ◌≡◌, inl, inr, refl, ap, ◌∙◌, false, Option, none, some, arith, ◌==◌, ℤ, pos, negsuc, lookup,
  Outcome, Option-cases,
}
use uno_server.Stater.Types.{LeftReason}
use uno_server.Session.Types.{Session, is_gaming, set_state, set_dirty}
use uno_server.Session.Ssmgr.{find_session}
use uno_server.Room.Types.{Room, Player}
use uno_server.Room.Random.{Random}
use uno_server.Room.Notify.{World, Event, send_event}
use uno_server.Room.Leave.{game_player_leave}
use uno_server.Room.Laws.Quiet.{send_event-Quiet}
use uno_server.Room.Laws.Kept.{Keeps-Quiet, Ends, returns, Ends-bind, Ends-if}
use uno_server.Room.Laws.Kept.Leaves.{game_player_leave-Left}
use uno_server.Manager.Answers.{ErrCode, leave_room_rsp, room_kickout_player_rsp}
use uno_server.Manager.Types.{Server, answer, on_session, find_room, world_of, put_back, run_room}
use uno_server.Manager.Guard.{idle_only, plays_in}
use uno_server.Manager.Leave.{
  clean_room, is_dealing, out_of_room, left, leave_found, leave_room, leave_room_req,
}
use uno_server.Manager.Enter.{forget_room}
use uno_server.Manager.Kick.{
  kicked_session, release, kick_out, room_kickout_player, room_kickout_player_req,
}
use uno_server.Manager.Laws.Invariant.{IsServer, answer-IsServer}
use uno_server.Manager.Laws.Games.{lookup-put_back}
use uno_server.Manager.Laws.Playing.{Keeps-IsServer, room_request-Ends}
use uno_server.Manager.Laws.Emptying.{IsOut, put_back-Left, clean_room-IsServer, on_session-IsOut}

out_of_room_lem :
    (ss : Session) → ((out_of_room ss).uid ≡ ss.uid) × (is_gaming (out_of_room ss).state ≡ false)
unfolding out_of_room set_state forget_room set_dirty is_gaming
out_of_room_lem ss = (refl, refl)

kicked_session_lem :
    (ss : Session)
    → ((kicked_session ss).uid ≡ ss.uid) × (is_gaming (kicked_session ss).state ≡ false)
unfolding kicked_session set_state set_dirty is_gaming
kicked_session_lem ss = (refl, refl)

run_room-Ends :
    {P : World → Type 0} {Q : Server → Type 0} (id : ℕ) (f : World → Outcome World) (r : Room)
    (s : Server)
    → Ends P (f (world_of s r))
    → ((w : World) → P w → Q (put_back id w s))
    → Ends Q (run_room id f r s)
unfolding run_room
run_room-Ends id f r s e k = Ends-bind (f (world_of s r)) _ e (λ w p. returns _ (k w p))

left-IsServer :
    {s : Server} (sid uid : ℕ)
    → IsServer s
    → find_session uid s.ssmgr ≡ some sid
    → IsServer (left sid s)
unfolding left
left-IsServer {s} sid uid i f =
    answer-IsServer sid (leave_room_rsp ErrCode.ok)
      (on_session-IsOut sid uid out_of_room i f (λ ss. (out_of_room_lem ss).0)
        (λ ss. (out_of_room_lem ss).1)).0

leave_found-Ends :
    {s : Server} (R : Random) (sid uid id : ℕ) (o : Option Room)
    → IsServer s
    → find_session uid s.ssmgr ≡ some sid
    → lookup id s.m_rooms ≡ o
    → Ends IsServer (leave_found R s sid uid id o)
unfolding leave_found left answer on_session clean_room put_back world_of
leave_found-Ends {s} R sid uid id none i f there = returns _ (left-IsServer sid uid i f)
leave_found-Ends {s} R sid uid id (some r) i f there =
    let leave : World → Outcome World = λ w. game_player_leave R w uid LeftReason.normal in
    Ends-if (is_dealing r.game_state) _ _
      (returns _
        (answer-IsServer sid (leave_room_rsp ErrCode.api_room_cannot_leave_at_this_time) i))
      (Ends-bind (run_room id leave r s) _
        (run_room-Ends {Q = λ s1. IsServer (left sid (clean_room id s1))} id leave r s
          (game_player_leave-Left R (world_of s r) uid LeftReason.normal)
          (λ w l.
            let (i1, out) =
              on_session-IsOut sid uid out_of_room i f (λ ss. (out_of_room_lem ss).0)
                (λ ss. (out_of_room_lem ss).1) in
            let i2 = put_back-Left id uid r w i1 there out l in
            answer-IsServer sid (leave_room_rsp ErrCode.ok) (clean_room-IsServer id i2)))
        (λ s1 q. returns _ q))

pub leave_room_req-Ends :
    {s : Server} (R : Random) (sid uid : ℕ) (room_id : ℤ)
    → IsServer s
    → find_session uid s.ssmgr ≡ some sid
    → Ends IsServer (leave_room_req R s sid uid room_id)
unfolding leave_room_req leave_room find_room
leave_room_req-Ends {s} R sid uid (pos id) i f =
    Ends-if (plays_in (s.ssmgr.store sid) (pos id)) _ _
      (leave_found-Ends R sid uid id (lookup id s.m_rooms) i f refl)
      (returns _ (answer-IsServer sid (leave_room_rsp ErrCode.api_invalid_call) i))
leave_room_req-Ends {s} R sid uid (negsuc k) i f =
    Ends-if (plays_in (s.ssmgr.store sid) (negsuc k)) _ _ (returns _ (left-IsServer sid uid i f))
      (returns _ (answer-IsServer sid (leave_room_rsp ErrCode.api_invalid_call) i))

released-IsServer :
    {s : Server} (uid : ℕ) (o : Option ℕ)
    → IsServer s
    → find_session uid s.ssmgr ≡ o
    → (let s1 : Server = elim o [ none ↦ s | some sid ↦ on_session sid kicked_session s ] in
        IsServer s1 × (s1.m_rooms ≡ s.m_rooms) × IsOut uid s1)
unfolding on_session
released-IsServer {s} uid none i e = (i, refl, λ sid f. absurd (ground arith))
released-IsServer {s} uid (some sid) i e =
    let (i1, out) =
      on_session-IsOut sid uid kicked_session i e (λ ss. (kicked_session_lem ss).0)
        (λ ss. (kicked_session_lem ss).1) in
    (i1, refl, out)

release-IsServer :
    {s : Server} (uid : ℕ)
    → IsServer s
    → IsServer (release uid s) × ((release uid s).m_rooms ≡ s.m_rooms) × IsOut uid (release uid s)
unfolding release
release-IsServer {s} uid i = released-IsServer uid (find_session uid s.ssmgr) i refl

kick_out-Ends :
    {s : Server} (R : Random) (sid uid be_kicked id : ℕ) (r : Room)
    → IsServer s
    → lookup id s.m_rooms ≡ some r
    → Ends IsServer (kick_out R sid uid be_kicked id r s)
unfolding kick_out world_of
kick_out-Ends {s} R sid uid be_kicked id r i there =
    let w = send_event be_kicked (some uid) Event.be_kicked (world_of s r) in
    let quiet = send_event-Quiet be_kicked (some uid) Event.be_kicked (world_of s r) in
    let s0 = put_back id w s in
    let (i1, same, out) =
      release-IsServer be_kicked (Keeps-IsServer id r w i there (Keeps-Quiet quiet)) in
    let s1 = release be_kicked s0 in
    let at : lookup id s1.m_rooms ≡ some w.room = ap (lookup id) same ∙ lookup-put_back id w s in
    let leave : World → Outcome World =
      λ w1. game_player_leave R w1 be_kicked LeftReason.kicked_by_owner in
    Ends-bind (run_room id leave w.room s1) _
      (run_room-Ends id leave w.room s1
        (game_player_leave-Left R (world_of s1 w.room) be_kicked LeftReason.kicked_by_owner)
        (λ w2 l. put_back-Left id be_kicked w.room w2 i1 at out l))
      (λ s2 i2.
        returns _
          (answer-IsServer sid (room_kickout_player_rsp ErrCode.ok) (clean_room-IsServer id i2)))

room_kickout_player-Ends :
    {s : Server} (R : Random) (sid uid be_kicked id : ℕ) (r : Room) (p : Player)
    → IsServer s
    → lookup id s.m_rooms ≡ some r
    → Ends IsServer (room_kickout_player R sid uid be_kicked id r p s)
unfolding room_kickout_player
room_kickout_player-Ends {s} R sid uid be_kicked id r p i there =
    Ends-if (r.owner == uid) _ _
      (elim (Option-cases (lookup be_kicked r.players)) [
        | inl e ↦ rw e (
            returns _
              (answer-IsServer sid (room_kickout_player_rsp ErrCode.api_room_player_not_found) i))
        | inr (q, e) ↦ rw e (kick_out-Ends R sid uid be_kicked id r i there)
      ])
      (returns _ (answer-IsServer sid (room_kickout_player_rsp ErrCode.api_room_not_owner) i))

pub room_kickout_player_req-Ends :
    {s : Server} (R : Random) (sid uid : ℕ) (room_id : ℤ) (be_kicked : ℕ)
    → IsServer s
    → Ends IsServer (room_kickout_player_req R s sid uid room_id be_kicked)
unfolding room_kickout_player_req
room_kickout_player_req-Ends {s} R sid uid room_id be_kicked i =
    room_request-Ends room_kickout_player_rsp idle_only (room_kickout_player R sid uid be_kicked)
      sid uid room_id i
      (λ id r p there. room_kickout_player-Ends R sid uid be_kicked id r p i there)
