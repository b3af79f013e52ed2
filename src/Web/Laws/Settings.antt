-- ===== src/Web/Laws/Settings.antt =====
-- `pageUpdatePassword` of src/core/server.cpp.
use uno_server.Common.{
  ℕ, suc, ◌≤◌, ◌<◌, ◌==◌, ◌&&◌, List, [], ◌∷◌, ◌++◌, ◌∙◌, Bool, true, false, ltb, length, none,
  some, ◌≡◌, refl, ok, arith,
}
use uno_server.Queue.Background.{value}
use uno_server.Queue.ThreadQue.{push}
use uno_server.Account.Text.{Bytes}
use uno_server.Account.Tables.{
  User, Db, pure, generate_salt, salt_at, md5, fits, find_row, update_rows, is_some,
}
use uno_server.Account.Users.{has_uid, update_user, users_update_password}
use uno_server.Account.Agent.{DbValue, perform, submit_call, update_password}
use uno_server.Account.Laws.Spelling.{same_bytes_refl}
use uno_server.Account.Laws.Working.{Works, later, bind-value, is_password, update_user-Works}
use uno_server.Web.Types.{WebCode, Key, Request, WebLibrary, Answer, Web, send_json, after_update}
use uno_server.Web.Settings.{
  read_assigned, with_uid, update_password_with, page_update_password, submit_update,
}
use uno_server.Web.Register.{run_callback, updated}
use uno_server.Web.Laws.Turn.{at_rest, turn, submitted, turn-submitted}
use uno_server.Web.Laws.Fields.{IsSsl, md5-fits}

-- The rows after a change of password.
unfoldable pub set_password : Bytes → Bytes → User → User
set_password hashed salt u = record u { password = hashed; salt = salt }

module _ (lib : WebLibrary) (works : Works lib.db_lib) (ssl : IsSsl lib.db_lib) where
  users_update_password-Works :
      (uid : ℕ) (password : Bytes) (db : Db)
      → is_some (find_row (has_uid uid) db.users) ≡ true
      → users_update_password lib.db_lib uid password db
        ≡ ok (
          value tt,
          record (later db) {
            salts = suc db.salts;
            users =
                update_rows
                  (has_uid uid)
                  (set_password
                    (md5 lib.db_lib (salt_at lib.db_lib db.salts ++ password))
                    (salt_at lib.db_lib db.salts))
                  db.users;
          },
        )
  unfolding users_update_password generate_salt set_password later
  users_update_password-Works uid password db there =
      let salt = salt_at lib.db_lib db.salts in
      let hashed = md5 lib.db_lib (salt ++ password) in
      let db1 = record db { salts = suc db.salts } in
      bind-value (generate_salt lib.db_lib)
        (λ s.
          update_user lib.db_lib uid (fits 128 (md5 lib.db_lib (s ++ password)) && fits 32 s)
            (λ d u. record u { password = md5 lib.db_lib (s ++ password); salt = s }))
        db db1 salt refl
      ∙ update_user-Works lib.db_lib works uid (fits 128 hashed && fits 32 salt)
          (λ d u. record u { password = hashed; salt = salt }) db1 there
      ∙ rw (md5-fits lib.db_lib (salt ++ password) ssl, ssl.salt_fits db.salts) refl

  -- While the connector works and OpenSSL's digests and salts have their lengths, a good token of a
  -- user and a password of three to 32 bytes change that user's row: after a turn of a server at rest
  -- the request is answered once, with ok, and the row has a new salt and the digest of the salt and
  -- the password, so that this password is the row's; the other rows stay as they were.
  pub page_update_password_lem :
      (req : Request) (resp uid : ℕ) (token password : Bytes) (running : Bool) (signals : ℕ)
      (db : Db) (answers : List Answer) (u : User)
      → read_assigned Key.token Key.password req ≡ ok (true, token, password)
      → 3 ≤ length password
      → length password ≤ 32
      → lib.verify token ≡ some uid
      → 0 < uid
      → find_row (has_uid uid) db.users ≡ some u
      → (w : Web) × (n : ℕ) × (let salt = salt_at lib.db_lib db.salts in
          let change = set_password (md5 lib.db_lib (salt ++ password)) salt in
          (page_update_password lib req resp (at_rest running signals db answers) ≡ ok w)
          × (turn lib w
              ≡ at_rest running
                  (suc signals)
                  (record db {
                    calls = n;
                    salts = suc db.salts;
                    users = update_rows (has_uid uid) change db.users;
                  })
                  (answers ++ (record { resp = resp; code = WebCode.ok; token = none }) ∷ []))
          × (is_password lib.db_lib password (change u) ≡ true))
  unfolding submit_update submit_call submitted perform run_callback updated send_json at_rest later
      is_password set_password page_update_password push
  page_update_password_lem req resp uid token password running signals db answers u h long short v
        positive e =
      let salt = salt_at lib.db_lib db.salts in
      let update = users_update_password lib.db_lib uid password in
      let done = users_update_password-Works uid password db (rw e refl) in
      (
        submitted (perform lib.db_lib (update_password uid password)) (after_update resp)
            (at_rest running signals db answers),
        (later db).calls,
        (
          rw
              (
                page_update_password, h, update_password_with, too_long, too_short, with_uid, v,
                no_zero,
              )
              refl,
          turn-submitted lib (perform lib.db_lib (update_password uid password)) (after_update resp)
              running signals db answers (value DbValue.nothing) _
              (bind-value update (λ _. pure DbValue.nothing) db _ tt done),
          same_bytes_refl (md5 lib.db_lib (salt ++ password)),
        ),
      )
    where
      too_long : ltb 32 (length password) ≡ false
      too_long = ground arith

      too_short : ltb (length password) 3 ≡ false
      too_short = ground arith

      no_zero : (uid == 0) ≡ false
      no_zero = ground arith
