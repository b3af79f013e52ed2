-- ===== src/Manager/Types.antt =====
-- The state of the room manager, with the sessions and what is sent to the clients.
use uno_server.Common.{
  ℕ, Option, none, List, [], ◌∷◌, ◌++◌, ℤ, pos, negsuc, lookup, insert, Outcome, ok, ◌>>=◌,
}
use uno_server.Session.Types.{Session}
use uno_server.Session.Ssmgr.{Ssmgr, has_session, update_session_at}
use uno_server.Room.Types.{Room}
use uno_server.Room.Notify.{World, Message}
use uno_server.Manager.Answers.{Reply, Packet, from_room, reply_to}

pub record Server : Type 0 where
  pub m_rooms : List (ℕ × Room)
  pub m_next_room_id : ℕ
  pub gen : ℕ
  pub ssmgr : Ssmgr
  -- the oldest first
  pub sent : List Packet

-- `ss->call(...)`
unfoldable pub answer : ℕ → Reply → Server → Server
answer sid reply s = record s { sent = s.sent ++ reply_to sid reply ∷ [] }

-- A write through the session of the request.
unfoldable pub on_session : ℕ → (Session → Session) → Server → Server
on_session sid f s = record s { ssmgr = update_session_at sid f s.ssmgr }

-- `m_rooms.find(room_id)`: the ids of the rooms are not negative.
unfoldable pub find_room : ℤ → List (ℕ × Room) → Option Room
find_room (pos id) rooms = lookup id rooms
find_room (negsuc k) rooms = none

-- A room with what its code touches beside it.
unfoldable pub world_of : Server → Room → World
world_of s r = record {
  room = r;
  gen = s.gen;
  has_session = λ uid. has_session uid s.ssmgr;
  sent = [];
}

unfoldable pub packets : ℕ → List Message → List Packet
packets id [] = []
packets id (m ∷ ms) = from_room id m ∷ packets id ms

-- The room under its key after its code has run.
unfoldable pub put_back : ℕ → World → Server → Server
unfolding packets
put_back id w s = record s {
  m_rooms = insert id w.room s.m_rooms;
  gen = w.gen;
  sent = s.sent ++ packets w.room.id w.sent;
}

-- A room's code on the room with that key.
unfoldable pub run_room : ℕ → (World → Outcome World) → Room → Server → Outcome Server
run_room id f r s = do w ← f (world_of s r); ok (put_back id w s)
