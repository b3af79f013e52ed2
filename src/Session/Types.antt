-- ===== src/Session/Types.antt =====
-- `class Session` of src/core/session.h. The data of a session that a socket opens is an object with
-- an int `room_id` from the constructor on, so the tests of its type hold and only the number is
-- kept. The socket and the summary are left out: nothing modelled reads them.
use Prim.Native.String.{String}
use uno_server.Common.{
  ltb, if◌then◌else◌, pos, ◌%◌, ◌^◌, ◌-◌, ◌-ℤ◌, ℕ, Bool, true, false, Option, none, some, ℤ, negsuc,
  Outcome, ok, fault, assertion,
}

-- `Session::State`
pub data SessionState : Type 0 where
  connected authed create_role create_role_wait logged gaming : SessionState

pub record Session : Type 0 where
  pub uid : Option ℕ
  pub name : String
  pub email : String
  pub state : SessionState
  pub nick : String
  pub room_id : ℤ
  pub dirty : Bool
  pub last_save_time : ℤ

-- `time_point::min()`, in a clock of 64 bits.
abbrev pub time_min : ℤ
time_min = negsuc 9223372036854775807

-- A signed number of 64 bits.
unfoldable pub wrap_int64 : ℤ → ℤ
wrap_int64 (pos n) = let m = n % 2 ^ 64 in if ltb m (2 ^ 63) then pos m else negsuc (2 ^ 64 - m - 1)
wrap_int64 (negsuc n) =
    let m = n % 2 ^ 64 in if ltb m (2 ^ 63) then negsuc m else pos (2 ^ 64 - m - 1)

-- The difference of two time points wraps around, as compilers make it.
unfoldable pub sub_time : ℤ → ℤ → ℤ
sub_time a b = wrap_int64 (a -ℤ b)

-- `Session(WsSessionPtr ws)`
abbrev pub new_session : Session
new_session = record {
  uid = none;
  name = "";
  email = "";
  state = SessionState.connected;
  nick = "";
  room_id = negsuc 0;
  dirty = false;
  last_save_time = time_min;
}

unfoldable pub is_logged : SessionState → Bool
is_logged SessionState.logged = true
is_logged SessionState.connected = false
is_logged SessionState.authed = false
is_logged SessionState.create_role = false
is_logged SessionState.create_role_wait = false
is_logged SessionState.gaming = false

unfoldable pub is_gaming : SessionState → Bool
is_gaming SessionState.gaming = true
is_gaming SessionState.connected = false
is_gaming SessionState.authed = false
is_gaming SessionState.create_role = false
is_gaming SessionState.create_role_wait = false
is_gaming SessionState.logged = false

unfoldable pub set_state : SessionState → Session → Session
set_state state ss = record ss { state = state }

unfoldable pub set_dirty : Session → Session
set_dirty ss = record ss { dirty = true }

unfoldable pub set_undirty : ℤ → Session → Session
set_undirty now ss = record ss { dirty = false; last_save_time = now }

-- `attach`, less the callback that the session manager adds to.
unfoldable pub attach : ℕ → String → String → Session → Outcome Session
attach uid name email ss = elim ss.uid [
  | none ↦ ok (record ss { uid = some uid; name = name; email = email })
  | some _ ↦ fault assertion
]

-- `attach_data`, with the `room_id` of the data, if it has one.
unfoldable pub attach_data : String → Option ℤ → Session → Session
attach_data nick room_id ss = record ss {
  nick = nick;
  room_id = elim room_id [ none ↦ negsuc 0 | some k ↦ k ];
}
