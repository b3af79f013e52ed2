-- ===== src/Account/Laws/Kept.antt =====
-- Every call of the database, src/core/db.h and src/sql/mysql.cpp, keeps the tables as they should be.
use mathlib.Core.Bool.{false≢true}
use uno_server.Common.{
  ℕ, Bool, true, false, not, ◌&&◌, ◌||◌, Option, none, some, [], ◌∷◌, ◌++◌, ◌∙◌, All-map,
  All-append_one, ==_iff, ◌≡◌, refl, sym, arith,
}
use uno_server.Account.Text.{Bytes, is_empty, trim_and_lower}
use uno_server.Account.Tables.{
  PlayerRow, Db, DbLibrary, Query, pure, gets, ◌>>=◌, generate_salt, md5, fits, find_row, is_some,
}
use uno_server.Account.Users.{
  statement, is_named, has_uid, insert_row, insert_user, users_has_username, users_has_uid,
  users_find_uid_by_name, users_create_user, users_validate_password, users_query_user,
  users_update_login_info, users_update_email, users_update_password,
}
use uno_server.Account.Players.{
  is_player, is_nicked, select_player, uno_game_players_has_role, uno_game_players_has_nickname,
  new_player_row, insert_player, uno_game_players_create_role, role_of_row,
  uno_game_players_load_role, uno_game_players_save_role, uno_game_players_load_summary,
}
use uno_server.Account.Agent.{DbCall, DbValue, perform}
use uno_server.Account.Laws.Rows.{
  Unique-append_one, find_row-none, All-update_rows, Unique-update_rows,
}
use uno_server.Account.Laws.Invariant.{
  IsDb, After, Keeps, Keeps-bind, Keeps-then, Keeps-pure, Keeps-gets, Keeps-with_assertion,
  Keeps-statement, Keeps-generate_salt, Keeps-is_found, After-if, other_weights, insert_row-Keeps,
  update_user-Keeps,
}

module _ (lib : DbLibrary) where
  users_create_user-Keeps :
      (username password email : Bytes) → Keeps lib (users_create_user lib username password email)
  unfolding users_create_user insert_user
  users_create_user-Keeps username password email =
      let name = trim_and_lower username in
      Keeps-with_assertion lib (not (is_empty name)) _ (
        Keeps-bind lib (generate_salt lib) _ (Keeps-generate_salt lib) (λ salt.
          Keeps-then lib (statement lib)
            (insert_row lib name (md5 lib (salt ++ password)) salt email) (Keeps-statement lib)
            (insert_row-Keeps lib name (md5 lib (salt ++ password)) salt email)))

  users_update_password-Keeps :
      (uid : ℕ) (password : Bytes) → Keeps lib (users_update_password lib uid password)
  unfolding users_update_password
  users_update_password-Keeps uid password =
      Keeps-bind lib (generate_salt lib) _ (Keeps-generate_salt lib) (λ salt.
        update_user-Keeps lib uid (fits 128 (md5 lib (salt ++ password)) && fits 32 salt)
          (λ db u. record u { password = md5 lib (salt ++ password); salt = salt }) (λ db u. refl)
          (λ db u. refl))

  Keeps-select_player : (p : PlayerRow → Bool) → Keeps lib (select_player lib p)
  unfolding select_player
  Keeps-select_player p =
      Keeps-then lib (statement lib) (gets (λ db. find_row p db.players)) (Keeps-statement lib)
        (Keeps-gets lib (λ db. find_row p db.players))

  Keeps-row :
      {A : Type 0} (p : PlayerRow → Bool) (f : Option PlayerRow → Query A)
      → ((row : Option PlayerRow) → Keeps lib (f row))
      → Keeps lib (select_player lib p >>= f)
  Keeps-row p f h = Keeps-bind lib (select_player lib p) f (Keeps-select_player p) h

  role_of_row-Keeps : (uid : ℕ) (row : Option PlayerRow) → Keeps lib (role_of_row lib uid row)
  unfolding role_of_row
  role_of_row-Keeps uid none = Keeps-pure lib none
  role_of_row-Keeps uid (some p) =
      Keeps-with_assertion lib (lib.is_object p.summary && lib.is_object p.data_text) _
        (Keeps-pure lib _)

  IsDb-insert_player :
      (uid : ℕ) (nickname : Bytes) (db : Db)
      → is_some (find_row (is_nicked lib nickname) db.players) ≡ false
      → is_some (find_row (is_player uid) db.players) ≡ false
      → is_some (find_row (has_uid uid) db.users) ≡ true
      → IsDb lib db
      → IsDb lib (record db { players = db.players ++ new_player_row lib uid nickname db ∷ [] })
  unfolding new_player_row is_nicked is_player
  IsDb-insert_player uid nickname db free new has i =
      let row = new_player_row lib uid nickname db in
      record {
        names = i.names;
        uids = i.uids;
        next = i.next;
        below = i.below;
        roles =
            Unique-append_one (λ (p : PlayerRow). p.uid) db.players row i.roles
              (All-map db.players (λ p h e. false≢true (sym h ∙ (==_iff p.uid uid).1 e))
                (find_row-none (is_player uid) db.players new));
        nicks =
            Unique-append_one (λ (p : PlayerRow). lib.weights p.nickname) db.players row i.nicks
              (All-map db.players (λ p h. other_weights lib p.nickname nickname h)
                (find_row-none (is_nicked lib nickname) db.players free));
        owned =
            All-append_one (λ (p : PlayerRow). is_some (find_row (has_uid p.uid) db.users) ≡ true)
              db.players row i.owned has;
      }

  insert_player-Keeps : (uid : ℕ) (nickname : Bytes) → Keeps lib (insert_player lib uid nickname)
  unfolding Keeps After insert_player
  insert_player-Keeps uid nickname db i =
      After-if lib
        ((not (fits 64 nickname) || nicked)
          || (is_some (find_row (is_player uid) db.players) || not known))
        _ _ (λ e. i)
        (λ e. IsDb-insert_player uid nickname db (ground arith) (ground arith) (ground arith) i)
    where
      nicked : Bool
      nicked = is_some (find_row (is_nicked lib nickname) db.players)

      known : Bool
      known = is_some (find_row (has_uid uid) db.users)

  save_role-Keeps :
      (uid : ℕ) (data_text summary : Bytes)
      → Keeps lib (uno_game_players_save_role lib uid data_text summary)
  unfolding uno_game_players_save_role Keeps After
  save_role-Keeps uid data_text summary =
      Keeps-then lib (statement lib) _ (Keeps-statement lib) (λ db i. record {
        names = i.names;
        uids = i.uids;
        next = i.next;
        below = i.below;
        roles =
            Unique-update_rows (is_player uid) _ (λ (p : PlayerRow). p.uid) (λ p. refl) db.players
              i.roles;
        nicks =
            Unique-update_rows (is_player uid) _ (λ (p : PlayerRow). lib.weights p.nickname)
              (λ p. refl) db.players i.nicks;
        owned =
            All-update_rows (is_player uid) _
              (λ (p : PlayerRow). is_some (find_row (has_uid p.uid) db.users) ≡ true) db.players
              (λ p h. h) i.owned;
      })

  Keeps-returns :
      {A : Type 0} (q : Query A) (f : A → DbValue) → Keeps lib q → Keeps lib (q >>= λ a. pure (f a))
  Keeps-returns q f h = Keeps-bind lib q (λ a. pure (f a)) h (λ a. Keeps-pure lib (f a))

  perform-Keeps : (call : DbCall) → Keeps lib (perform lib call)
  unfolding perform users_has_username users_has_uid users_find_uid_by_name users_validate_password
      users_query_user users_update_login_info users_update_email uno_game_players_has_role
      uno_game_players_has_nickname uno_game_players_create_role uno_game_players_load_role
      uno_game_players_load_summary
  perform-Keeps (DbCall.has_username name) =
      Keeps-returns _ _ (Keeps-is_found lib (is_named lib (trim_and_lower name)) _)
  perform-Keeps (DbCall.has_uid uid) = Keeps-returns _ _ (Keeps-is_found lib (has_uid uid) _)
  perform-Keeps (DbCall.find_uid_by_name name) =
      Keeps-returns _ _ (Keeps-is_found lib (is_named lib (trim_and_lower name)) _)
  perform-Keeps (DbCall.create_user name password email) =
      Keeps-returns _ _ (users_create_user-Keeps name password email)
  perform-Keeps (DbCall.validate_password name password) =
      Keeps-returns _ _ (Keeps-is_found lib (is_named lib (trim_and_lower name)) _)
  perform-Keeps (DbCall.query_user name) =
      Keeps-returns _ _ (Keeps-is_found lib (is_named lib (trim_and_lower name)) _)
  perform-Keeps (DbCall.update_login_info uid ip) =
      Keeps-returns _ _ (update_user-Keeps lib uid _ _ (λ db u. refl) (λ db u. refl))
  perform-Keeps (DbCall.update_email uid email) =
      Keeps-returns _ _ (update_user-Keeps lib uid _ _ (λ db u. refl) (λ db u. refl))
  perform-Keeps (DbCall.update_password uid password) =
      Keeps-returns _ _ (users_update_password-Keeps uid password)
  perform-Keeps (DbCall.has_role uid) =
      Keeps-returns _ _ (Keeps-row (is_player uid) _ (λ row. Keeps-pure lib _))
  perform-Keeps (DbCall.has_nickname name) =
      Keeps-returns _ _ (Keeps-row (is_nicked lib name) _ (λ row. Keeps-pure lib _))
  perform-Keeps (DbCall.create_role uid nickname) = Keeps-returns _ _ (
      Keeps-then lib (statement lib) (insert_player lib uid nickname) (Keeps-statement lib)
        (insert_player-Keeps uid nickname))
  perform-Keeps (DbCall.load_role uid) =
      Keeps-returns _ _ (Keeps-row (is_player uid) (role_of_row lib uid) (role_of_row-Keeps uid))
  perform-Keeps (DbCall.save_role uid data_text summary) =
      Keeps-returns _ _ (save_role-Keeps uid data_text summary)
  perform-Keeps (DbCall.load_summary uid) =
      Keeps-returns _ _ (Keeps-row (is_player uid) _ (λ row. Keeps-pure lib _))

  -- Every call of the database keeps the tables as they should be, whichever calls of the connector
  -- fail and whether the call returns or throws: no two users with the same uid, or with names that
  -- the collation takes for the same, uids that are positive and below the next one, no two roles
  -- with the same uid or nick, and a user for each role.
  pub perform-After : (call : DbCall) (db : Db) → IsDb lib db → After lib (perform lib call db)
  unfolding Keeps
  perform-After call = perform-Keeps call
