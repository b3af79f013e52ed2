-- ===== src/Manager/Laws/Arriving.antt =====
-- `create_room_req` and `enter_room_req` of src/game/room.cpp: they return, and keep the server
-- proper.
use Prim.Native.String.{String}
use uno_server.Common.{
  ℕ, ◌<◌, ◌≡◌, inl, inr, refl, sym, Bool, true, false, ◌&&◌, Option, none, some, List, arith,
  ==_self, if◌then◌else◌, ℤ, pos, negsuc, leb_ℤ, ◌==ℤ◌, ==ℤ_iff, length, lookup, insert, contains,
  lookup-insert, Outcome, ok, ◌>>=◌, assert_some, Bool-cases,
}
use uno_server.Session.Types.{SessionState, is_logged, set_state, set_dirty}
use uno_server.Session.Ssmgr.{find_session}
use uno_server.Room.Types.{
  Room, Player, RoomSnapshot, PlayerSnapshot, cards_of, player_snapshot, get_snapshot,
  get_player_snapshot,
}
use uno_server.Room.Notify.{Event, broadcast_event}
use uno_server.Room.Leave.{is_playing}
use uno_server.Room.Laws.Piles.{IsMember, member_some}
use uno_server.Room.Laws.Quiet.{broadcast_event-Quiet}
use uno_server.Manager.Answers.{ErrCode, create_room_rsp, enter_room_rsp}
use uno_server.Manager.Types.{Server, answer, on_session, find_room, world_of, run_room}
use uno_server.Manager.Create.{
  Bytes, is_bad_title, is_bad_count, new_player, new_room, into_room, place_room, open_room,
  create_room_req,
}
use uno_server.Manager.Enter.{
  join, take_seat, first_enter, enter_room, refuse_enter, back_into, re_enter_room, forget_room,
  enter_room_req,
}
use uno_server.Manager.Laws.Ids.{FreshId, new_room_id-FreshId}
use uno_server.Manager.Laws.Invariant.{
  IsServer, Returns, answer-IsServer, put_back-IsServer, set_room-IsServer, add_room-IsServer,
}
use uno_server.Manager.Laws.Writes.{on_session-IsServer}
use uno_server.Manager.Laws.Rooms.{IsMember-insert, IsMember-inserted, new_room-IsRoom, join-IsRoom}

map_ok {ℓ κ} :
    {A : Type ℓ} {B : Type κ} (m : Outcome A) (a : A) (f : A → B)
    → m ≡ ok a
    → (b : B) × ((m >>= λ x. ok (f x)) ≡ ok b)
map_ok m a f e = (f a, rw e refl)

cards_of-some :
    (r : Room) (uid : ℕ) (p : Player)
    → lookup uid r.players ≡ some p
    → cards_of r (some uid) ≡ ok p.rest
unfolding cards_of
cards_of-some r uid p found = rw found refl

pub get_snapshot-member :
    (r : Room) (uid : ℕ)
    → IsMember uid r.players
    → (snapshot : RoomSnapshot) × (get_snapshot r (some uid) ≡ ok snapshot)
unfolding get_snapshot
get_snapshot-member r uid m =
    let (p, found) = member_some uid r.players m in
    map_ok (cards_of r (some uid)) p.rest _ (cards_of-some r uid p found)

get_player_snapshot-member :
    (r : Room) (uid : ℕ)
    → IsMember uid r.players
    → (snapshot : PlayerSnapshot) × (get_player_snapshot r uid ≡ ok snapshot)
unfolding get_player_snapshot
get_player_snapshot-member r uid m =
    let (p, found) = member_some uid r.players m in
    map_ok (assert_some (lookup uid r.players)) p player_snapshot (rw found refl)

-- A session that comes into a room where its user is.
into_room-IsServer :
    {s : Server} (sid uid id : ℕ) (r : Room)
    → IsServer s
    → find_session uid s.ssmgr ≡ some sid
    → lookup id s.m_rooms ≡ some r
    → IsMember uid r.players
    → IsServer (on_session sid (into_room id) s)
unfolding into_room set_state set_dirty
into_room-IsServer {s} sid uid id r i f there member =
    on_session-IsServer sid uid (into_room id) i f refl (λ _. inr (id, r, refl, there, member))

forget_room-IsServer :
    {s : Server} (sid uid : ℕ)
    → IsServer s
    → find_session uid s.ssmgr ≡ some sid
    → IsServer (on_session sid forget_room s)
unfolding forget_room set_dirty
forget_room-IsServer {s} sid uid i f =
    on_session-IsServer sid uid forget_room i f refl (λ _. inl refl)

refused-Returns :
    {s : Server} (sid : ℕ) (code : ErrCode)
    → IsServer s
    → Returns IsServer (refuse_enter code s sid)
unfolding refuse_enter
refused-Returns {s} sid code i = (_, refl, answer-IsServer sid (enter_room_rsp code none) i)

inserted : (id : ℕ) (r : Room) (rooms : List (ℕ × Room)) → lookup id (insert id r rooms) ≡ some r
inserted id r rooms = rw (lookup-insert id id r rooms, ==_self id) refl

take_seat-Returns :
    {s : Server} (sid uid id : ℕ) (r : Room)
    → IsServer s
    → find_session uid s.ssmgr ≡ some sid
    → lookup id s.m_rooms ≡ some r
    → contains uid r.players ≡ false
    → leb_ℤ r.max_players (pos r.curr_players) ≡ false
    → Returns IsServer (take_seat s sid uid id r)
unfolding take_seat join run_room find_session on_session answer world_of
take_seat-Returns {s} sid uid id r i f there out space =
    let ss = s.ssmgr.store sid in
    let r1 = join uid ss r in
    let room = join-IsRoom uid ss (i.rooms id r there) out space in
    let member : IsMember uid r1.players = IsMember-inserted uid (new_player ss) r.players in
    let s0 : Server = record s { m_rooms = insert id r1 s.m_rooms } in
    let i0 : IsServer s0 =
      set_room-IsServer id r r1 i there room
        (λ u. IsMember-insert uid u (new_player ss) r.players) in
    let at = inserted id r1 s.m_rooms in
    let i1 = into_room-IsServer sid uid id r1 i0 f at member in
    let (snapshot, e1) = get_snapshot-member r1 uid member in
    let (joined, e2) = get_player_snapshot-member r1 uid member in
    let reply = enter_room_rsp ErrCode.ok (some snapshot) in
    let i2 = answer-IsServer sid reply i1 in
    let s2 = answer sid reply (on_session sid (into_room id) s0) in
    let w = world_of s2 r1 in
    (
      _,
      rw e1 (rw e2 refl),
      put_back-IsServer id r1 r1 (broadcast_event (some uid) (Event.player_joined joined) w) i2 at
          (broadcast_event-Quiet (some uid) (Event.player_joined joined) w).same_room room
          (λ u m. m),
    )

first_enter-Returns :
    {s : Server} (sid uid id : ℕ) (o : Option Room)
    → IsServer s
    → find_session uid s.ssmgr ≡ some sid
    → lookup id s.m_rooms ≡ o
    → Returns IsServer (first_enter s sid uid id o)
unfolding first_enter
first_enter-Returns {s} sid uid id none i f there = refused-Returns sid ErrCode.api_room_not_found i
first_enter-Returns {s} sid uid id (some r) i f there = elim (Bool-cases (is_playing r.state)) [
  | inl e ↦ rw e (refused-Returns sid ErrCode.api_room_is_in_game i)
  | inr e ↦ elim (Bool-cases (leb_ℤ r.max_players (pos r.curr_players))) [
    | inl full ↦ rw (e, full) (refused-Returns sid ErrCode.api_room_is_full i)
    | inr space ↦ elim (Bool-cases (contains uid r.players)) [
      | inl in' ↦ rw (e, space, in') (refused-Returns sid ErrCode.api_invalid_call i)
      | inr out ↦ rw (e, space, out) (take_seat-Returns sid uid id r i f there out space)
    ]
  ]
]

enter_room-Returns :
    {s : Server} (sid uid : ℕ) (room_id : ℤ)
    → IsServer s
    → find_session uid s.ssmgr ≡ some sid
    → Returns IsServer (enter_room s sid uid room_id)
unfolding enter_room find_room
enter_room-Returns {s} sid uid (pos id) i f =
    first_enter-Returns sid uid id (lookup id s.m_rooms) i f refl
enter_room-Returns {s} sid uid (negsuc k) i f = refused-Returns sid ErrCode.api_room_not_found i

-- The user comes back, or the session forgets the room.
back_into-Returns :
    {s : Server} (sid uid : ℕ) (room_id : ℤ) (o : Option Room)
    → IsServer s
    → find_session uid s.ssmgr ≡ some sid
    → (s.ssmgr.store sid).room_id ≡ room_id
    → find_room room_id s.m_rooms ≡ o
    → Returns IsServer (back_into s sid uid o)
unfolding back_into find_room set_state
back_into-Returns {s} sid uid room_id none i f its there =
    refused-Returns sid ErrCode.api_cannot_reenter (forget_room-IsServer sid uid i f)
back_into-Returns {s} sid uid (negsuc k) (some r) i f its there = absurd (ground arith)
back_into-Returns {s} sid uid (pos id) (some r) i f its there =
    elim (Bool-cases (contains uid r.players)) [
      | inr out ↦
          rw out (refused-Returns sid ErrCode.api_cannot_reenter (forget_room-IsServer sid uid i f))
      | inl member ↦
          let (snapshot, e) = get_snapshot-member r uid member in
          (
            _,
            rw member (rw e refl),
            answer-IsServer sid (enter_room_rsp ErrCode.ok (some snapshot))
                {s = on_session sid (set_state SessionState.gaming) s}
                (on_session-IsServer sid uid (set_state SessionState.gaming) i f refl
                  (λ _. inr (id, r, its, there, member))),
          )
    ]

re_enter_room-Returns :
    {s : Server} (sid uid : ℕ) (room_id : ℤ)
    → IsServer s
    → find_session uid s.ssmgr ≡ some sid
    → Returns IsServer (re_enter_room s sid uid room_id)
unfolding re_enter_room
re_enter_room-Returns {s} sid uid room_id i f =
    elim (Bool-cases (room_id ==ℤ (s.ssmgr.store sid).room_id)) [
      | inr ne ↦ rw ne (refused-Returns sid ErrCode.api_invalid_call i)
      | inl e ↦
          let its = sym ((==ℤ_iff room_id (s.ssmgr.store sid).room_id).0 e) in
          rw e (back_into-Returns sid uid room_id (find_room room_id s.m_rooms) i f its refl)
    ]

refused_or_forgets :
    {s : Server} (sid uid : ℕ) (b : Bool)
    → IsServer s
    → find_session uid s.ssmgr ≡ some sid
    → Returns IsServer
        (refuse_enter ErrCode.api_invalid_call (if b then on_session sid forget_room s else s) sid)
refused_or_forgets {s} sid uid true i f =
    refused-Returns sid ErrCode.api_invalid_call (forget_room-IsServer sid uid i f)
refused_or_forgets {s} sid uid false i f = refused-Returns sid ErrCode.api_invalid_call i

-- A request to enter a room returns for an attached session, whatever its state, the room and the
-- flag are, and leaves the server proper: no room has more players than it takes, and every
-- session that plays names a room with its player in it, or none.
pub enter_room_req-Returns :
    {s : Server} (sid uid : ℕ) (room_id : ℤ) (re_enter : Bool)
    → IsServer s
    → find_session uid s.ssmgr ≡ some sid
    → Returns IsServer (enter_room_req s sid uid room_id re_enter)
unfolding enter_room_req
enter_room_req-Returns {s} sid uid room_id re_enter i f =
    elim (Bool-cases (is_logged (s.ssmgr.store sid).state)) [
      | inl e ↦ rw e (either re_enter)
      | inr e ↦
          rw e
            (refused_or_forgets sid uid (re_enter && ((s.ssmgr.store sid).room_id ==ℤ room_id)) i f)
    ]
  where
    either :
        (b : Bool)
        → Returns IsServer
            (if b then re_enter_room s sid uid room_id else enter_room s sid uid room_id)
    either true = re_enter_room-Returns sid uid room_id i f
    either false = enter_room-Returns sid uid room_id i f

place_room-Returns :
    {s : Server} (sid uid id next : ℕ) (title : String) (n : ℤ)
    → IsServer s
    → find_session uid s.ssmgr ≡ some sid
    → FreshId s.m_rooms id next
    → Returns IsServer (place_room s sid uid title n (some (id, next)))
unfolding place_room find_session on_session new_room
place_room-Returns {s} sid uid id next title n i f fresh =
    let r = new_room id uid title n (s.ssmgr.store sid) in
    let room = new_room-IsRoom id uid title n (s.ssmgr.store sid) in
    let s0 : Server = record s { m_rooms = insert id r s.m_rooms; m_next_room_id = next } in
    let i0 : IsServer s0 = add_room-IsServer id next r i fresh.fresh fresh.next_fits room in
    let member : IsMember uid r.players = room.seats.0 in
    let i1 = into_room-IsServer sid uid id r i0 f (inserted id r s.m_rooms) member in
    let (snapshot, e) = get_snapshot-member r uid member in
    (
      answer sid (create_room_rsp ErrCode.ok (some snapshot)) (on_session sid (into_room id) s0),
      rw e refl,
      answer-IsServer sid (create_room_rsp ErrCode.ok (some snapshot)) i1,
    )

open_room-Returns :
    {s : Server} (sid uid : ℕ) (title : String) (n : ℤ)
    → IsServer s
    → find_session uid s.ssmgr ≡ some sid
    → length s.m_rooms < 2147483647
    → Returns IsServer (open_room s sid uid title n)
unfolding open_room
open_room-Returns {s} sid uid title n i f few =
    elim (Bool-cases (is_logged (s.ssmgr.store sid).state)) [
      | inr e ↦ (
        answer sid (create_room_rsp ErrCode.api_invalid_call none) s,
        rw e refl,
        answer-IsServer sid (create_room_rsp ErrCode.api_invalid_call none) i,
      )
      | inl e ↦
          let (id, (next, (found, fresh))) = new_room_id-FreshId s i.next_fits few in
          rw (e, found) (place_room-Returns sid uid id next title n i f fresh)
    ]

-- With fewer rooms than there are ids, a request to create a room returns for an attached session,
-- whatever its title and number of players are, and leaves the server proper.
pub create_room_req-Returns :
    (size : Bytes) {s : Server} (sid uid : ℕ) (title : String) (n : ℤ)
    → IsServer s
    → find_session uid s.ssmgr ≡ some sid
    → length s.m_rooms < 2147483647
    → Returns IsServer (create_room_req size s sid uid title n)
unfolding create_room_req answer find_session
create_room_req-Returns size {s} sid uid title n i f few =
    let reply = create_room_rsp ErrCode.api_room_invalid_title none in
    elim (Bool-cases (is_bad_title size title)) [
      | inl e ↦ (answer sid reply s, rw e refl, answer-IsServer sid reply i)
      | inr e ↦ elim (Bool-cases (is_bad_count n)) [
        | inl bad ↦
            rw (e, bad) (open_room-Returns sid uid title n (answer-IsServer sid reply i) f few)
        | inr good ↦ rw (e, good) (open_room-Returns sid uid title n i f few)
      ]
    ]
