-- ===== src/Account/Users.antt =====
-- The blocking calls of `class MysqlAgent` of src/sql/mysql.cpp on the table `users`. MySQL is in its
-- default, strict mode: a text that does not fit its column is an error.
use uno_server.Common.{
  ℕ, suc, Bool, false, not, ◌&&◌, ◌==◌, if◌then◌else◌, Option, none, some, [], ◌∷◌, ◌++◌,
}
use uno_server.Account.Text.{Bytes, same_bytes, is_empty, trim_and_lower}
use uno_server.Account.Tables.{
  User, Db, DbLibrary, Query, pure, throw, gets, with_assertion, ◌>>=◌, ◌>>◌, modify,
  call_connector, generate_salt, md5, equal_text, fits, find_row, update_rows, is_some,
}

-- `getSession()` and a statement.
unfoldable pub statement : DbLibrary → Query (Unit {0})
unfolding ◌>>◌ call_connector
statement lib = call_connector lib >> call_connector lib

unfoldable pub is_named : DbLibrary → Bytes → User → Bool
unfolding equal_text
is_named lib name u = equal_text lib u.username name

unfoldable pub has_uid : ℕ → User → Bool
has_uid uid u = u.uid == uid

-- `SELECT ... FROM users WHERE ...` and `fetchOne`
unfoldable pub select_user : DbLibrary → (User → Bool) → Query (Option User)
unfolding ◌>>◌ statement
select_user lib p = statement lib >> gets (λ db. find_row p db.users)

unfoldable pub users_has_username : DbLibrary → Bytes → Query Bool
unfolding ◌>>=◌ select_user is_named trim_and_lower
users_has_username lib username = do
  row ← select_user lib (is_named lib (trim_and_lower username))
  pure (is_some row)

unfoldable pub users_has_uid : DbLibrary → ℕ → Query Bool
unfolding ◌>>=◌ select_user has_uid
users_has_uid lib uid = do row ← select_user lib (has_uid uid); pure (is_some row)

unfoldable pub users_find_uid_by_name : DbLibrary → Bytes → Query ℕ
unfolding ◌>>=◌ select_user is_named trim_and_lower
users_find_uid_by_name lib name = do
  row ← select_user lib (is_named lib (trim_and_lower name))
  pure (elim row [ none ↦ 0 | some u ↦ u.uid ])

-- `INSERT INTO users`: a text that does not fit and a name in use are errors.
unfoldable pub new_user : DbLibrary → Bytes → Bytes → Bytes → Bytes → Db → User
new_user lib name hashed salt email db = record {
  uid = db.next_uid;
  username = name;
  password = hashed;
  salt = salt;
  email = email;
  register_time = lib.now db.calls;
  last_login_time = none;
  last_login_ip = none;
}

unfoldable pub fits_user : Bytes → Bytes → Bytes → Bytes → Bool
unfolding fits
fits_user name hashed salt email = fits 64 name && fits 128 hashed && fits 32 salt && fits 128 email

unfoldable pub insert_row : DbLibrary → Bytes → Bytes → Bytes → Bytes → Query (Unit {0})
unfolding new_user fits_user is_named
insert_row lib name hashed salt email db =
    let taken = find_row (is_named lib name) db.users in
    if fits_user name hashed salt email && not (is_some taken)
    then modify
        (λ d. record d {
          users = d.users ++ new_user lib name hashed salt email d ∷ [];
          next_uid = suc d.next_uid;
        })
        db
    else throw db

unfoldable pub insert_user : DbLibrary → Bytes → Bytes → Bytes → Bytes → Query (Unit {0})
unfolding ◌>>◌ statement insert_row
insert_user lib name hashed salt email = statement lib >> insert_row lib name hashed salt email

unfoldable pub users_create_user : DbLibrary → Bytes → Bytes → Bytes → Query (Unit {0})
unfolding ◌>>=◌ generate_salt md5 insert_user trim_and_lower
users_create_user lib username password email =
    let name = trim_and_lower username in
    with_assertion (not (is_empty name))
      (do salt ← generate_salt lib; insert_user lib name (md5 lib (salt ++ password)) salt email)

unfoldable pub users_validate_password : DbLibrary → Bytes → Bytes → Query Bool
unfolding ◌>>=◌ select_user is_named md5 trim_and_lower
users_validate_password lib username password = do
  row ← select_user lib (is_named lib (trim_and_lower username))
  pure (elim row [ none ↦ false | some u ↦ same_bytes (md5 lib (u.salt ++ password)) u.password ])

-- What `users_query_user` returns of a row; it is null without one.
pub record UserInfo : Type 0 where
  pub uid : ℕ
  pub username : Bytes
  pub email : Bytes
  pub register_time : Bytes
  pub last_login_time : Bytes
  pub last_login_ip : Bytes

abbrev or_empty : Option Bytes → Bytes
or_empty none = []
or_empty (some s) = s

unfoldable pub user_info : Bytes → User → UserInfo
user_info name u = record {
  uid = u.uid;
  username = name;
  email = u.email;
  register_time = u.register_time;
  last_login_time = or_empty u.last_login_time;
  last_login_ip = or_empty u.last_login_ip;
}

unfoldable pub users_query_user : DbLibrary → Bytes → Query (Option UserInfo)
unfolding ◌>>=◌ select_user is_named trim_and_lower user_info
users_query_user lib username = do
  row ← select_user lib (is_named lib (trim_and_lower username))
  pure (elim row [ none ↦ none | some u ↦ some (user_info (trim_and_lower username) u) ])

-- `UPDATE users SET ... WHERE uid = ?`: when there is such a row the texts have to fit.
unfoldable pub update_user : DbLibrary → ℕ → Bool → (Db → User → User) → Query (Unit {0})
unfolding ◌>>◌ statement has_uid
update_user lib uid is_fitting f = statement lib >> λ db.
    if is_some (find_row (has_uid uid) db.users) && not is_fitting
    then throw db
    else modify (λ d. record d { users = update_rows (has_uid uid) (f d) d.users }) db

unfoldable pub users_update_login_info : DbLibrary → ℕ → Bytes → Query (Unit {0})
unfolding update_user fits
users_update_login_info lib uid login_ip =
    update_user lib uid (fits 64 login_ip) (λ db u. record u {
      last_login_time = some (lib.now db.calls);
      last_login_ip = some login_ip;
    })

unfoldable pub users_update_email : DbLibrary → ℕ → Bytes → Query (Unit {0})
unfolding update_user fits
users_update_email lib uid email =
    update_user lib uid (fits 128 email) (λ db u. record u { email = email })

unfoldable pub users_update_password : DbLibrary → ℕ → Bytes → Query (Unit {0})
unfolding ◌>>=◌ generate_salt md5 update_user fits
users_update_password lib uid password = do
  salt ← generate_salt lib
  let hashed = md5 lib (salt ++ password)
  update_user lib uid (fits 128 hashed && fits 32 salt)
      (λ db u. record u { password = hashed; salt = salt })
