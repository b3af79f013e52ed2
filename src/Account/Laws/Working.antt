-- ===== src/Account/Laws/Working.antt =====
-- What the calls of src/sql/mysql.cpp return while the connector works.
use uno_server.Common.{
  ℕ, suc, Bool, true, false, if◌then◌else◌, Option, none, some, ◌++◌, ◌≡◌, refl, ◌∙◌, ok,
}
use uno_server.Queue.Background.{value, exception}
use uno_server.Account.Text.{Bytes, same_bytes, trim_and_lower}
use uno_server.Account.Tables.{
  User, Db, DbLibrary, Query, pure, gets, ◌>>=◌, ◌>>◌, call_connector, md5, find_row, update_rows,
  is_some,
}
use uno_server.Account.Users.{
  user_info, statement, is_named, has_uid, select_user, users_has_username, users_validate_password,
  users_query_user, update_user,
}

-- No call of the connector fails.
abbrev pub Works : DbLibrary → Type 0
Works lib = (n : ℕ) → lib.works n ≡ true

-- After a statement, and the session for it.
unfoldable pub later : Db → Db
later db = record db { calls = suc (suc db.calls) }

pub bind-value :
    {A B : Type 0} (m : Query A) (f : A → Query B) (db db1 : Db) (a : A)
    → m db ≡ ok (value a, db1)
    → (m >>= f) db ≡ f a db1
unfolding ◌>>=◌
bind-value m f db db1 a h = rw (◌>>=◌, h) refl

pub bind-exception :
    {A B : Type 0} (m : Query A) (f : A → Query B) (db db1 : Db)
    → m db ≡ ok (exception, db1)
    → (m >>= f) db ≡ ok (exception, db1)
unfolding ◌>>=◌
bind-exception m f db db1 h = rw (◌>>=◌, h) refl

-- Whether a password is a row's.
unfoldable pub is_password : DbLibrary → Bytes → User → Bool
unfolding md5
is_password lib password u = same_bytes (md5 lib (u.salt ++ password)) u.password

module _ (lib : DbLibrary) (works : Works lib) where
  call_connector-Works :
      (db : Db) → call_connector lib db ≡ ok (value tt, record db { calls = suc db.calls })
  unfolding call_connector
  call_connector-Works db = rw (works db.calls) refl

  pub statement-Works : (db : Db) → statement lib db ≡ ok (value tt, later db)
  unfolding statement ◌>>◌ later
  statement-Works db =
      let db1 = record db { calls = suc db.calls } in
      bind-value (call_connector lib) (λ _. call_connector lib) db db1 tt (call_connector-Works db)
      ∙ call_connector-Works db1

  pub select_user-Works :
      (p : User → Bool) (db : Db)
      → select_user lib p db ≡ ok (value (find_row p db.users), later db)
  unfolding select_user ◌>>◌ later
  select_user-Works p db =
      bind-value (statement lib) (λ _. gets (λ d. find_row p d.users)) db (later db) tt
        (statement-Works db)

  found :
      {A : Type 0} (p : User → Bool) (f : Option User → A) (db : Db)
      → (select_user lib p >>= λ row. pure (f row)) db
        ≡ ok (value (f (find_row p db.users)), later db)
  found p f db =
      bind-value (select_user lib p) (λ row. pure (f row)) db (later db) (find_row p db.users)
        (select_user-Works p db)

  pub users_has_username-Works :
      (name : Bytes) (db : Db)
      → users_has_username lib name db
        ≡ ok (value (is_some (find_row (is_named lib (trim_and_lower name)) db.users)), later db)
  unfolding users_has_username
  users_has_username-Works name db = found (is_named lib (trim_and_lower name)) is_some db

  pub users_validate_password-Works :
      (name password : Bytes) (db : Db)
      → users_validate_password lib name password db
        ≡ ok (
          value (elim (find_row (is_named lib (trim_and_lower name)) db.users) [
            | none ↦ false
            | some u ↦ is_password lib password u
          ]),
          later db,
        )
  unfolding users_validate_password is_password
  users_validate_password-Works name password db = found (is_named lib (trim_and_lower name)) _ db

  pub users_query_user-Works :
      (name : Bytes) (db : Db)
      → users_query_user lib name db
        ≡ ok (
          value (elim (find_row (is_named lib (trim_and_lower name)) db.users) [
            | none ↦ none
            | some u ↦ some (user_info (trim_and_lower name) u)
          ]),
          later db,
        )
  unfolding users_query_user
  users_query_user-Works name db = found (is_named lib (trim_and_lower name)) _ db

  -- An UPDATE of a row that is there.
  pub update_user-Works :
      (uid : ℕ) (is_fitting : Bool) (f : Db → User → User) (db : Db)
      → is_some (find_row (has_uid uid) db.users) ≡ true
      → update_user lib uid is_fitting f db ≡ (
          if is_fitting
          then ok (
            value tt,
            record (later db) { users = update_rows (has_uid uid) (f (later db)) db.users },
          )
          else ok (exception, later db))
  unfolding update_user later
  update_user-Works uid true f db h =
      bind-value (statement lib) (λ _ d. _) db (later db) tt (statement-Works db) ∙ rw h refl
  update_user-Works uid false f db h =
      bind-value (statement lib) (λ _ d. _) db (later db) tt (statement-Works db) ∙ rw h refl
