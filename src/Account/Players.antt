-- ===== src/Account/Players.antt =====
-- The blocking calls of `class MysqlAgent` of src/sql/mysql.cpp on the table `uno_game_players`.
use uno_server.Common.{
  ℕ, Bool, not, ◌&&◌, ◌||◌, ◌==◌, if◌then◌else◌, Option, none, some, [], ◌∷◌, ◌++◌,
}
use uno_server.Account.Text.{Bytes}
use uno_server.Account.Tables.{
  PlayerRow, Db, DbLibrary, Query, pure, throw, gets, with_assertion, ◌>>=◌, ◌>>◌, modify,
  equal_text, fits, find_row, update_rows, is_some,
}
use uno_server.Account.Users.{statement, has_uid}

unfoldable pub is_player : ℕ → PlayerRow → Bool
is_player uid p = p.uid == uid

unfoldable pub is_nicked : DbLibrary → Bytes → PlayerRow → Bool
unfolding equal_text
is_nicked lib nick p = equal_text lib p.nickname nick

unfoldable pub select_player : DbLibrary → (PlayerRow → Bool) → Query (Option PlayerRow)
unfolding ◌>>◌ statement
select_player lib p = statement lib >> gets (λ db. find_row p db.players)

unfoldable pub uno_game_players_has_role : DbLibrary → ℕ → Query Bool
unfolding ◌>>=◌ select_player is_player
uno_game_players_has_role lib uid = do row ← select_player lib (is_player uid); pure (is_some row)

unfoldable pub uno_game_players_has_nickname : DbLibrary → Bytes → Query Bool
unfolding ◌>>=◌ select_player is_nicked
uno_game_players_has_nickname lib name = do
  row ← select_player lib (is_nicked lib name)
  pure (is_some row)

-- The text `{}`.
abbrev pub empty_object : Bytes
empty_object = 123 ∷ 125 ∷ []

unfoldable pub new_player_row : DbLibrary → ℕ → Bytes → Db → PlayerRow
new_player_row lib uid nickname db = record {
  uid = uid;
  nickname = nickname;
  creation_time = lib.now db.calls;
  summary = empty_object;
  data_text = empty_object;
}

-- `INSERT INTO uno_game_players`: a nick that does not fit or is in use, a uid with a role, and a uid
-- without a user are errors.
unfoldable pub insert_player : DbLibrary → ℕ → Bytes → Query (Unit {0})
unfolding fits is_player is_nicked has_uid new_player_row
insert_player lib uid nickname db =
    let bad_nick =
      not (fits 64 nickname) || is_some (find_row (is_nicked lib nickname) db.players) in
    let bad_uid =
      is_some (find_row (is_player uid) db.players)
      || not (is_some (find_row (has_uid uid) db.users)) in
    if bad_nick || bad_uid
    then throw db
    else modify (λ d. record d { players = d.players ++ new_player_row lib uid nickname d ∷ [] }) db

unfoldable pub uno_game_players_create_role : DbLibrary → ℕ → Bytes → Query (Unit {0})
unfolding ◌>>◌ statement insert_player
uno_game_players_create_role lib uid nickname = statement lib >> insert_player lib uid nickname

-- What `uno_game_players_load_role` returns of a row; it is null without one.
pub record RoleInfo : Type 0 where
  pub uid : ℕ
  pub nickname : Bytes
  pub creation_time : Bytes
  pub summary : Bytes
  pub data_text : Bytes

unfoldable pub role_info : ℕ → PlayerRow → RoleInfo
role_info uid p = record {
  uid = uid;
  nickname = p.nickname;
  creation_time = p.creation_time;
  summary = p.summary;
  data_text = p.data_text;
}

-- Both columns have to be JSON objects.
unfoldable pub role_of_row : DbLibrary → ℕ → Option PlayerRow → Query (Option RoleInfo)
unfolding role_info
role_of_row lib uid none = pure none
role_of_row lib uid (some p) =
    with_assertion (lib.is_object p.summary && lib.is_object p.data_text)
      (pure (some (role_info uid p)))

unfoldable pub uno_game_players_load_role : DbLibrary → ℕ → Query (Option RoleInfo)
unfolding ◌>>=◌ select_player is_player role_of_row
uno_game_players_load_role lib uid = do
  row ← select_player lib (is_player uid)
  role_of_row lib uid row

unfoldable pub uno_game_players_save_role : DbLibrary → ℕ → Bytes → Bytes → Query (Unit {0})
unfolding ◌>>◌ statement is_player
uno_game_players_save_role lib uid data_text summary =
    statement lib
    >> modify (λ d. record d {
      players =
          update_rows (is_player uid) (λ p. record p { data_text = data_text; summary = summary })
            d.players;
    })

-- The summary's text; null without a row.
unfoldable pub uno_game_players_load_summary : DbLibrary → ℕ → Query (Option Bytes)
unfolding ◌>>=◌ select_player is_player
uno_game_players_load_summary lib uid = do
  row ← select_player lib (is_player uid)
  pure (elim row [ none ↦ none | some p ↦ some p.summary ])
