-- ===== src/Room/Laws/CardPlay.antt =====
-- `game_player_card_play` of src/game/room.cpp at a table: the whole call.
use Prim.Native.Nat.{min}
use mathlib.Core.Path.{subst}
use uno_server.Common.{
  ℕ, ◌+◌, ◌-◌, ◌≡◌, refl, sym, ap, ◌∙◌, Bool, not, ◌&&◌, List, arith, ◌==◌, if◌then◌else◌, ℤ, pos,
  negate, length, length-append, erase_at, keys, ok,
}
use uno_server.Card.{color_all, func_reverse, is_action}
use uno_server.Room.Types.{Room}
use uno_server.Room.Random.{Random, IsRandom}
use uno_server.Room.Notify.{World}
use uno_server.Room.Cursor.{game_cursor_move}
use uno_server.Room.Deal.{hand_of}
use uno_server.Room.Play.{Play, move_card, play_step, punish_if, end_play, apply_play}
use uno_server.Room.Laws.Quiet.{tell_play-Tells}
use uno_server.Room.Laws.Piles.{total, IsMember, IsMember-of_keys, keys-set_rest, IsMember-set_rest}
use uno_server.Room.Laws.Draw.{stock}
use uno_server.Room.Laws.Dealt.{Framed, Framed-trans, Dealt}
use uno_server.Room.Laws.Table.{IsTable, func_of}
use uno_server.Room.Laws.Check.{Checked}
use uno_server.Room.Laws.Dealing.{Dealt-IsTable}
use uno_server.Room.Laws.Playing.{raised, fine, move_card-total, move_card-IsTable, punish_if_lem}
use uno_server.Room.Laws.Round.{
  PutDown, fined, false_uno, last_action, is_func_card-ok, move_card-size,
}

-- The room in which the card was moved, seen from the one before.
move_card-PutDown :
    {r : Room} (uid : ℕ) (c chg_color : ℤ) (with_uno : Bool) (p : Play) (r' : Room)
    → IsTable r
    → IsMember uid r.players
    → Checked r uid c chg_color p
    → Framed (move_card r uid c chg_color p) r'
    → IsTable r'
    → keys r'.players ≡ keys (move_card r uid c chg_color p).players
    → ((x : ℤ) → total x r' ≡ total x (move_card r uid c chg_color p))
    → length (hand_of uid r'.players)
      ≡ length (hand_of uid (move_card r uid c chg_color p).players)
        + fined
            (false_uno r uid with_uno)
            (last_action r uid c)
            (stock (move_card r uid c chg_color p))
    → PutDown r uid c chg_color with_uno r'
unfolding move_card game_cursor_move
move_card-PutDown {r} uid c chg_color with_uno p r' t m k f t' ks same n =
    let (smaller, larger) = move_card-size r uid c chg_color p m k.at_index in
    let rest = erase_at p.index (hand_of uid r.players) in
    let all_keys : keys r'.players ≡ keys r.players = ks ∙ keys-set_rest uid rest r.players m in
    record {
      table = t';
      member = IsMember-of_keys uid r.players r'.players (sym all_keys) m;
      conserved = λ x. same x ∙ move_card-total r uid c chg_color p x m k.at_index;
      last = ap (λ (z : Room). z.last) f;
      chosen =
          ap (λ (z : Room). z.last_chg_color) f
          ∙ ap (λ g. if g == color_all then chg_color else pos 0) k.its_color;
      seats = ap (λ (z : Room). z.seq) f;
      draw = ap (λ (z : Room). z.draw) f ∙ ap (λ g. raised g r.draw) k.its_func;
      direction =
          ap (λ (z : Room). z.direction) f
          ∙ ap (λ g. if g == func_reverse then negate r.direction else r.direction) k.its_func;
      size =
          ap (λ a. a + 1) n
          ∙ ap
              (λ s.
                length (hand_of uid (move_card r uid c chg_color p).players)
                + fined (false_uno r uid with_uno) (last_action r uid c) s
                + 1)
              larger
          ∙ omega (arith, smaller);
      cursor = λ base step. ap (λ (z : Room). (game_cursor_move z base step).cursor) f;
    }

Dealt-length :
    {w : World} {n uid : ℕ} {arr out : List ℤ} {w' : World}
    → Dealt w n uid arr out w'
    → (length (hand_of uid w'.room.players)
        ≡ length (hand_of uid w.room.players) + min n (stock w.room))
      × (stock w'.room + min n (stock w.room) ≡ stock w.room)
Dealt-length {w} {n} {uid} d = (
  ap length d.hand ∙ omega (arith, length-append (hand_of uid w.room.players) d.new, d.size),
  omega (arith, d.left, d.size),
)

zero_one : (a b : ℕ) → a + 1 ≡ b → (a == 0) ≡ (b == 1)
zero_one a b h = ground arith

twice :
    (h h1 h2 s s1 f g : ℕ)
    → h1 ≡ h + min f s
    → s1 + min f s ≡ s
    → h2 ≡ h1 + min g s1
    → h2 ≡ h + (min f s + min g (s - min f s))
twice h h1 h2 s s1 f g a b e = omega arith

moved-IsMember :
    (uid : ℕ) (c chg_color : ℤ) (p : Play) (r : Room)
    → IsMember uid r.players
    → IsMember uid (move_card r uid c chg_color p).players
unfolding move_card
moved-IsMember uid c chg_color p r m =
    IsMember-set_rest uid uid (erase_at p.index (hand_of uid r.players)) r.players m m

module _ {R : Random} (laws : IsRandom R) where
  -- Both punishments, the first for the false call of UNO.
  punish_twice :
      (first second : Bool) (uid : ℕ) (w : World)
      → IsTable w.room
      → IsMember uid w.room.players
      → (w1 : World) × (w2 : World) × (punish_if first R uid w ≡ ok w1)
        × (punish_if second R uid w1 ≡ ok w2)
        × IsTable w2.room
        × Framed w.room w2.room
        × (keys w2.room.players ≡ keys w.room.players)
        × ((x : ℤ) → total x w2.room ≡ total x w.room)
        × (length (hand_of uid w2.room.players)
            ≡ length (hand_of uid w.room.players) + fined first second (stock w.room))
  punish_twice first second uid w t m =
      let (w1, out1, e1, d1) = punish_if_lem laws first uid w t m in
      let t1 = Dealt-IsTable t d1 in
      let m1 = IsMember-of_keys uid w.room.players w1.room.players (sym d1.same_keys) m in
      let (w2, out2, e2, d2) = punish_if_lem laws second uid w1 t1 m1 in
      (
        w1,
        w2,
        e1,
        e2,
        Dealt-IsTable t1 d2,
        Framed-trans w.room w1.room w2.room d1.frame d2.frame,
        d2.same_keys ∙ d1.same_keys,
        λ x. d2.conserved x ∙ d1.conserved x,
        twice _ _ _ _ _ (fine first) (fine second) (Dealt-length d1).0 (Dealt-length d1).1
            (Dealt-length d2).0,
      )

  -- The card goes down and the punishments are dealt.
  pub apply_play-PutDown :
      (w : World) (uid : ℕ) (c chg_color : ℤ) (with_uno : Bool) (p : Play)
      → IsTable w.room
      → IsMember uid w.room.players
      → Checked w.room uid c chg_color p
      → (w' : World) × (apply_play R w uid c with_uno chg_color p
          ≡ end_play w' uid (play_step w.room p) with_uno p)
        × PutDown w.room uid c chg_color with_uno w'.room
  unfolding apply_play
  apply_play-PutDown w uid c chg_color with_uno p t m k =
      let r1 = move_card w.room uid c chg_color p in
      let w1 : World = record w { room = r1 } in
      let t1 = move_card-IsTable uid c chg_color p t m k in
      let m1 : IsMember uid r1.players = moved-IsMember uid c chg_color p w.room m in
      let (w2, e2, q) = tell_play-Tells uid c with_uno p w1 in
      let t2 : IsTable w2.room = rw (q.same_room) t1 in
      let m2 : IsMember uid w2.room.players = rw (q.same_room) m1 in
      let first = not p.need_uno && with_uno in
      let second = (length (hand_of uid r1.players) == 0) && is_action (func_of c) in
      let (w3, w4, e3, e4, t4, f, ks, same, n) = punish_twice first second uid w2 t2 m2 in
      (w4, rw (e2, e3, is_func_card-ok c, e4) refl, down w4.room q.same_room t4 f ks same n)
    where
      down :
          {r2 : Room} (r4 : Room)
          → r2 ≡ move_card w.room uid c chg_color p
          → IsTable r4
          → Framed r2 r4
          → keys r4.players ≡ keys r2.players
          → ((x : ℤ) → total x r4 ≡ total x r2)
          → length (hand_of uid r4.players)
            ≡ length (hand_of uid r2.players)
              + fined
                  (not p.need_uno && with_uno)
                  ((length (hand_of uid (move_card w.room uid c chg_color p).players) == 0)
                    && is_action (func_of c))
                  (stock r2)
          → PutDown w.room uid c chg_color with_uno r4
      down {r2} r4 e t4 f ks same n =
          let r1 = move_card w.room uid c chg_color p in
          let last_one =
            zero_one (length (hand_of uid r1.players)) (length (hand_of uid w.room.players))
              (move_card-size w.room uid c chg_color p m k.at_index).0 in
          let h = length (hand_of uid r1.players) in
          let second = (h == 0) && is_action (func_of c) in
          move_card-PutDown uid c chg_color with_uno p r4 t m k
            (subst (λ (z : Room). Framed z r4) e f) t4 (ks ∙ ap (λ (z : Room). keys z.players) e)
            (λ x. same x ∙ ap (total x) e)
            (n
              ∙ ap
                  (λ (z : Room).
                    length (hand_of uid z.players)
                    + fined (not p.need_uno && with_uno) second (stock z))
                  e
              ∙ ap (λ (b : Bool). h + fined (not b && with_uno) second (stock r1)) k.last_two
              ∙ ap
                  (λ (b : Bool).
                    h
                    + fined (false_uno w.room uid with_uno) (b && is_action (func_of c)) (stock r1))
                  last_one)
