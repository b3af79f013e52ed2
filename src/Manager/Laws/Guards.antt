-- ===== src/Manager/Laws/Guards.antt =====
-- The guards that the requests of src/game/room.cpp share.
use uno_server.Common.{
  List, ℕ, ◌≡◌, ◌≢◌, ◌⊎◌, inl, inr, refl, ◌∙◌, Bool, true, false, Option, none, some, ℤ, pos,
  negsuc, ◌==ℤ◌, ==ℤ_iff, if◌then◌else◌, lookup, ok, Bool-cases, Option-cases,
}
use uno_server.Session.Types.{is_gaming}
use uno_server.Room.Types.{Room, Player}
use uno_server.Room.Random.{Random}
use uno_server.Manager.Answers.{
  ErrCode, Reply, get_ready_rsp, shuffle_room_seats_rsp, room_kickout_player_rsp, start_game_rsp,
  game_play_card_rsp, game_deal_card_rsp, game_report_no_uno_rsp,
}
use uno_server.Manager.Types.{Server, answer, find_room}
use uno_server.Manager.Guard.{
  Action, plays_in, admitted, find_allowed, in_room, act_on, room_request, idle_only, playing_only,
}
use uno_server.Manager.Seats.{get_ready_req, shuffle_room_seats_req}
use uno_server.Manager.Kick.{room_kickout_player_req}
use uno_server.Manager.Game.{
  start_game_req, game_play_card_req, game_deal_card_req, game_report_no_uno_req,
}

-- Why a request is turned away: the session does not play, or in another room; the room is gone, or
-- in the wrong state.
abbrev pub Barred : (Room → Bool) → Server → ℕ → ℤ → Type 0
Barred allowed s sid room_id =
    (is_gaming (s.ssmgr.store sid).state ≡ false)
    ⊎ ((s.ssmgr.store sid).room_id ≢ room_id)
    ⊎ (find_room room_id s.m_rooms ≡ none)
    ⊎ ((r : Room) × (find_room room_id s.m_rooms ≡ some r) × (allowed r ≡ false))

find_allowed-none :
    (allowed : Room → Bool) (room_id : ℤ) (s : Server)
    → find_room room_id s.m_rooms ≡ none
    → find_allowed allowed room_id s.m_rooms ≡ none
unfolding find_allowed find_room admitted
find_allowed-none allowed (pos id) s e = rw e refl
find_allowed-none allowed (negsuc k) s e = refl

find_allowed-wrong :
    (allowed : Room → Bool) (room_id : ℤ) (s : Server) (r : Room)
    → find_room room_id s.m_rooms ≡ some r
    → allowed r ≡ false
    → find_allowed allowed room_id s.m_rooms ≡ none
unfolding find_allowed find_room admitted
find_allowed-wrong allowed (pos id) s r e wrong = rw (e, wrong) refl
find_allowed-wrong allowed (negsuc k) s r e wrong = refl

else_none : (b : Bool) (o : Option (ℕ × Room)) → o ≡ none → (if b then o else none) ≡ none
else_none true o e = e
else_none false o e = refl

in_room-Barred :
    (allowed : Room → Bool) (s : Server) (sid : ℕ) (room_id : ℤ)
    → Barred allowed s sid room_id
    → in_room allowed s sid room_id ≡ none
unfolding in_room plays_in
in_room-Barred allowed s sid room_id (inl idle) = rw idle refl
in_room-Barred allowed s sid room_id (inr (inl ne)) =
    elim (Bool-cases ((s.ssmgr.store sid).room_id ==ℤ room_id)) [
      | inl e ↦ absurd (ne ((==ℤ_iff (s.ssmgr.store sid).room_id room_id).0 e))
      | inr e ↦ elim (Bool-cases (is_gaming (s.ssmgr.store sid).state)) [
        | inl g ↦ rw (g, e) refl
        | inr g ↦ rw g refl
      ]
    ]
in_room-Barred allowed s sid room_id (inr (inr (inl e))) =
    else_none (plays_in (s.ssmgr.store sid) room_id) _ (find_allowed-none allowed room_id s e)
in_room-Barred allowed s sid room_id (inr (inr (inr (r, e, wrong)))) =
    else_none (plays_in (s.ssmgr.store sid) room_id) _
      (find_allowed-wrong allowed room_id s r e wrong)

room_request-Barred :
    (rsp : ErrCode → Reply) (allowed : Room → Bool) (act : Action) (s : Server) (sid uid : ℕ)
    (room_id : ℤ)
    → Barred allowed s sid room_id
    → room_request rsp allowed act s sid uid room_id
      ≡ ok (answer sid (rsp ErrCode.api_invalid_call) s)
unfolding room_request act_on
room_request-Barred rsp allowed act s sid uid room_id b =
    rw (in_room-Barred allowed s sid room_id b) refl

-- A session that does not play in the room it names, a room that is gone, and a room with a game:
-- in each of these cases the requests to be ready, to shuffle the seats, to kick a player and to
-- start the game answer `api_invalid_call` and change nothing.
pub idle_requests-Barred :
    (R : Random) (s : Server) (sid uid be_kicked : ℕ) (room_id now : ℤ)
    → Barred idle_only s sid room_id
    → (get_ready_req s sid uid room_id ≡ ok (answer sid (get_ready_rsp ErrCode.api_invalid_call) s))
      × (shuffle_room_seats_req R now s sid uid room_id
          ≡ ok (answer sid (shuffle_room_seats_rsp ErrCode.api_invalid_call) s))
      × (room_kickout_player_req R s sid uid room_id be_kicked
          ≡ ok (answer sid (room_kickout_player_rsp ErrCode.api_invalid_call) s))
      × (start_game_req R s sid uid room_id
          ≡ ok (answer sid (start_game_rsp ErrCode.api_invalid_call) s))
unfolding get_ready_req shuffle_room_seats_req room_kickout_player_req start_game_req
idle_requests-Barred R s sid uid be_kicked room_id now b = (
  room_request-Barred get_ready_rsp idle_only _ s sid uid room_id b,
  room_request-Barred shuffle_room_seats_rsp idle_only _ s sid uid room_id b,
  room_request-Barred room_kickout_player_rsp idle_only _ s sid uid room_id b,
  room_request-Barred start_game_rsp idle_only _ s sid uid room_id b,
)

-- The same holds of the requests to play a card, to deal one and to report a player, which need a
-- room with a game.
pub game_requests-Barred :
    (R : Random) (s : Server) (sid uid : ℕ) (room_id c chg_color : ℤ) (with_uno : Bool)
    → Barred playing_only s sid room_id
    → (game_play_card_req R s sid uid room_id c with_uno chg_color
        ≡ ok (answer sid (game_play_card_rsp ErrCode.api_invalid_call) s))
      × (game_deal_card_req R s sid uid room_id
          ≡ ok (answer sid (game_deal_card_rsp ErrCode.api_invalid_call) s))
      × (game_report_no_uno_req R s sid uid room_id
          ≡ ok (answer sid (game_report_no_uno_rsp ErrCode.api_invalid_call) s))
unfolding game_play_card_req game_deal_card_req game_report_no_uno_req
game_requests-Barred R s sid uid room_id c chg_color with_uno b = (
  room_request-Barred game_play_card_rsp playing_only _ s sid uid room_id b,
  room_request-Barred game_deal_card_rsp playing_only _ s sid uid room_id b,
  room_request-Barred game_report_no_uno_rsp playing_only _ s sid uid room_id b,
)

-- The session plays in the room, which is there and in the right state.
pub record Admitted (allowed : Room → Bool) (s : Server) (sid id : ℕ) (r : Room) : Type 0 where
  pub gaming : is_gaming (s.ssmgr.store sid).state ≡ true
  pub its_room : (s.ssmgr.store sid).room_id ≡ pos id
  pub found : lookup id s.m_rooms ≡ some r
  pub fits : allowed r ≡ true

pub in_room-Admitted :
    (allowed : Room → Bool) (s : Server) (sid id : ℕ) (r : Room)
    → Admitted allowed s sid id r
    → in_room allowed s sid (pos id) ≡ some (id, r)
unfolding in_room plays_in find_allowed admitted
in_room-Admitted allowed s sid id r a =
    rw (a.gaming, (==ℤ_iff (s.ssmgr.store sid).room_id (pos id)).1 a.its_room, a.found, a.fits) refl

pub room_request-Admitted :
    (rsp : ErrCode → Reply) (allowed : Room → Bool) (act : Action) (s : Server) (sid uid id : ℕ)
    (r : Room) (p : Player)
    → Admitted allowed s sid id r
    → lookup uid r.players ≡ some p
    → room_request rsp allowed act s sid uid (pos id) ≡ act id r p s
unfolding room_request act_on
room_request-Admitted rsp allowed act s sid uid id r p a e =
    rw (in_room-Admitted allowed s sid id r a, e) refl

-- Either a request is turned away, or its room is there.
find_allowed-cases :
    (allowed : Room → Bool) (room_id : ℤ) (rooms : List (ℕ × Room))
    → (find_allowed allowed room_id rooms ≡ none)
      ⊎ ((id : ℕ) × (r : Room) × (room_id ≡ pos id)
          × (lookup id rooms ≡ some r)
          × (allowed r ≡ true))
unfolding find_allowed admitted
find_allowed-cases allowed (negsuc k) rooms = inl refl
find_allowed-cases allowed (pos id) rooms = elim (Option-cases (lookup id rooms)) [
  | inl gone ↦ inl (rw gone refl)
  | inr (r, there) ↦ elim (Bool-cases (allowed r)) [
    | inl yes' ↦ inr (id, r, refl, there, yes')
    | inr no' ↦ inl (rw (there, no') refl)
  ]
]

pub in_room-cases :
    (allowed : Room → Bool) (s : Server) (sid : ℕ) (room_id : ℤ)
    → (in_room allowed s sid room_id ≡ none)
      ⊎ ((id : ℕ) × (r : Room) × (room_id ≡ pos id) × Admitted allowed s sid id r)
unfolding in_room plays_in
in_room-cases allowed s sid room_id = elim (Bool-cases (is_gaming (s.ssmgr.store sid).state)) [
  | inr g ↦ inl (rw g refl)
  | inl g ↦ elim (Bool-cases ((s.ssmgr.store sid).room_id ==ℤ room_id)) [
    | inr e ↦ inl (rw (g, e) refl)
    | inl e ↦ elim (find_allowed-cases allowed room_id s.m_rooms) [
      | inl gone ↦ inl (rw (g, e) gone)
      | inr (id, r, at, there, fits) ↦
          let its = (==ℤ_iff (s.ssmgr.store sid).room_id room_id).0 e in
          inr (id, r, at, record { gaming = g; its_room = its ∙ at; found = there; fits = fits })
    ]
  ]
]

pub room_request-none :
    (rsp : ErrCode → Reply) (allowed : Room → Bool) (act : Action) (s : Server) (sid uid : ℕ)
    (room_id : ℤ)
    → in_room allowed s sid room_id ≡ none
    → room_request rsp allowed act s sid uid room_id
      ≡ ok (answer sid (rsp ErrCode.api_invalid_call) s)
unfolding room_request act_on
room_request-none rsp allowed act s sid uid room_id e = rw e refl
