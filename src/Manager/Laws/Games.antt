-- ===== src/Manager/Laws/Games.antt =====
-- The requests of a game in src/game/room.cpp: what they do to the room and what they answer.
use uno_server.Common.{
  ℕ, ◌≡◌, ◌≢◌, ◌⊎◌, inl, inr, refl, ap, ◌∙◌, Bool, true, false, none, some, arith, ◌==◌, ==_self,
  ==_iff, Bool-cases, if◌then◌else◌, ℤ, pos, lookup, lookup-insert, Outcome, ok,
}
use uno_server.Stater.Types.{DealReason}
use uno_server.Room.Types.{Room, Player}
use uno_server.Room.Random.{Random, IsRandom}
use uno_server.Room.Notify.{World}
use uno_server.Room.Cursor.{seat}
use uno_server.Room.Deal.{game_player_deal_card}
use uno_server.Room.Play.{game_player_card_play}
use uno_server.Room.Laws.Piles.{IsMember}
use uno_server.Room.Laws.Table.{IsTable}
use uno_server.Room.Laws.Check.{Legal}
use uno_server.Room.Laws.Dealing.{
  DealtInTurn, game_player_deal_card_in_turn, game_player_deal_card_out_of_turn,
}
use uno_server.Room.Laws.PlayCall.{GoesOn, Wins, game_player_card_play_lem}
use uno_server.Manager.Answers.{ErrCode, Reply, game_play_card_rsp, game_deal_card_rsp}
use uno_server.Manager.Types.{Server, answer, world_of, put_back}
use uno_server.Manager.Guard.{playing_only}
use uno_server.Manager.Game.{game_call, game_play_card_req, game_deal_card_req}
use uno_server.Manager.Laws.Guards.{Admitted, room_request-Admitted}

IsMember-found :
    (uid : ℕ) (r : Room) (p : Player) → lookup uid r.players ≡ some p → IsMember uid r.players
IsMember-found uid r p found = ground arith

-- The answer to a call, and the room under its key.
abbrev pub answered : ℕ → ℕ → Reply → World → Server → Server
answered sid id reply w s = answer sid reply (put_back id w s)

game_call-ok :
    (rsp : ErrCode → Reply) (refused : ErrCode) (call : World → Outcome (Bool × World)) (sid id : ℕ)
    (r : Room) (p : Player) (s : Server) (b : Bool) (w : World)
    → call (world_of s r) ≡ ok (b, w)
    → game_call rsp refused call sid id r p s
      ≡ ok (answered sid id (rsp (if b then ErrCode.ok else refused)) w s)
unfolding game_call
game_call-ok rsp refused call sid id r p s b w e = rw e refl

pub lookup-put_back :
    (id : ℕ) (w : World) (s : Server) → lookup id (put_back id w s).m_rooms ≡ some w.room
unfolding put_back
lookup-put_back id w s = rw (lookup-insert id id w.room s.m_rooms, ==_self id) refl

lookup-answered :
    (sid id : ℕ) (reply : Reply) (w : World) (s : Server)
    → lookup id (answered sid id reply w s).m_rooms ≡ some w.room
unfolding answer
lookup-answered sid id reply w s = lookup-put_back id w s

-- What a request to play a card does to the server.
abbrev pub PlayAnswered : Server → Outcome Server → ℕ → ℕ → ℕ → Room → ℤ → ℤ → Bool → Type 0
PlayAnswered s m sid uid id r c chg_color with_uno =
    ((Legal r uid c chg_color → ⊥)
      × (m
          ≡ ok (
              answered sid id (game_play_card_rsp ErrCode.api_game_cannot_play_card) (world_of s r)
                s)))
    ⊎ (Legal r uid c chg_color
        × ((s' : Server) × (r' : Room) × (m ≡ ok s')
            × (lookup id s'.m_rooms ≡ some r')
            × (GoesOn r uid c chg_color with_uno r' ⊎ Wins r uid c with_uno r')))

module _ {R : Random} (laws : IsRandom R) where
  -- In a room with a proper table, a request of one of its players to play a card always returns. A
  -- card that the rules do not allow is answered with `api_game_cannot_play_card` and leaves the
  -- room as it was; an allowed one leaves under the room's key a room in which the game goes on
  -- after that card, or has been won with it.
  pub game_play_card_req_lem :
      (s : Server) (sid uid id : ℕ) (r : Room) (p : Player) (c chg_color : ℤ) (with_uno : Bool)
      → Admitted playing_only s sid id r
      → lookup uid r.players ≡ some p
      → IsTable r
      → PlayAnswered s
          (game_play_card_req R s sid uid (pos id) c with_uno chg_color)
          sid
          uid
          id
          r
          c
          chg_color
          with_uno
  unfolding game_play_card_req world_of
  game_play_card_req_lem s sid uid id r p c chg_color with_uno a found t =
      let call : World → Outcome (Bool × World) =
        λ w. game_player_card_play R w uid c with_uno chg_color in
      let refused = ErrCode.api_game_cannot_play_card in
      let run =
        room_request-Admitted game_play_card_rsp playing_only
          (game_call game_play_card_rsp refused call sid) s sid uid id r p a found in
      elim (game_player_card_play_lem laws (world_of s r) uid c chg_color with_uno t
        (IsMember-found uid r p found)) [
          | inl (e, illegal) ↦ inl (
            illegal,
            run ∙ game_call-ok game_play_card_rsp refused call sid id r p s false (world_of s r) e,
          )
          | inr (legal, (w', e, result)) ↦ inr (
            legal,
            (
              _,
              w'.room,
              run ∙ game_call-ok game_play_card_rsp refused call sid id r p s true w' e,
              lookup-answered sid id (game_play_card_rsp ErrCode.ok) w' s,
              result,
            ),
          )
        ]

  -- In a room with a proper table, a request of one of its players for a card always returns. In
  -- turn it is answered with `ok`, and the room under the key has dealt to the player and passed
  -- the turn; out of turn it is answered with `api_game_cannot_deal_card`, and the room is as it was.
  pub game_deal_card_req_lem :
      (s : Server) (sid uid cur id : ℕ) (r : Room) (p : Player)
      → Admitted playing_only s sid id r
      → lookup uid r.players ≡ some p
      → IsTable r
      → seat r ≡ ok cur
      → ((cur ≡ uid)
          × ((w' : World) × (game_deal_card_req R s sid uid (pos id)
                ≡ ok (answered sid id (game_deal_card_rsp ErrCode.ok) w' s))
              × DealtInTurn (world_of s r) uid w'))
        ⊎ ((cur ≢ uid)
            × (game_deal_card_req R s sid uid (pos id)
                ≡ ok (
                    answered sid id
                      (game_deal_card_rsp ErrCode.api_game_cannot_deal_card)
                      (world_of s r)
                      s)))
  unfolding game_deal_card_req world_of
  game_deal_card_req_lem s sid uid cur id r p a found t turn =
      let call : World → Outcome (Bool × World) =
        λ w. game_player_deal_card R w uid 1 DealReason.normal none in
      let refused = ErrCode.api_game_cannot_deal_card in
      let run =
        room_request-Admitted game_deal_card_rsp playing_only
          (game_call game_deal_card_rsp refused call sid) s sid uid id r p a found in
      elim (Bool-cases (cur == uid)) [
        | inl same ↦
            let at = (==_iff cur uid).0 same in
            let (w', e, d) =
              game_player_deal_card_in_turn laws (world_of s r) uid 1 none t (turn ∙ ap ok at) in
            inl (
              at,
              (w', run ∙ game_call-ok game_deal_card_rsp refused call sid id r p s true w' e, d),
            )
        | inr ne ↦
            let differs : cur ≢ uid = λ e. absurd (ground arith) in
            let e =
              game_player_deal_card_out_of_turn R (world_of s r) uid cur 1 none turn differs
                (IsMember-found uid r p found) in
            inr (
              differs,
              run
                  ∙ game_call-ok game_deal_card_rsp refused call sid id r p s false (world_of s r)
                      e,
            )
      ]
