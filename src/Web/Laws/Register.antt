-- ===== src/Web/Laws/Register.antt =====
-- `pageRegister` of src/core/server.cpp, with the login that follows it.

use uno_server.Common.{
  ℕ, suc, Bool, true, false, Bool-cases, none, some, List, [], ◌∷◌, ◌++◌, ◌≡◌, ◌⊎◌, refl, ap, ◌∙◌,
  inl, inr, arith, ok,
}
use uno_server.Queue.Background.{value}
use uno_server.Account.Text.{Bytes, is_empty, trim_and_lower}
use uno_server.Account.Tables.{
  User, Db, DbLibrary, pure, ◌>>=◌, ◌>>◌, salt_at, generate_salt, md5, equal_text, find_row,
  is_some,
}
use uno_server.Account.Users.{
  is_named, new_user, fits_user, statement, insert_row, insert_user, users_has_username,
  users_create_user,
}
use uno_server.Account.Agent.{DbValue}
use uno_server.Account.Laws.Spelling.{same_bytes_refl, trim_and_lower-is_name}
use uno_server.Account.Laws.Working.{
  Works, later, bind-value, statement-Works, is_password, users_has_username-Works,
}
use uno_server.Web.Types.{
  WebCode, Key, Request, WebLibrary, Answer, Web, send_json, client_ip, after_create,
  after_register,
}
use uno_server.Web.Login.{read_fields}
use uno_server.Web.Register.{create_user_task, register, page_register, created_user, run_callback}
use uno_server.Web.Laws.Turn.{at_rest, turn, submitted, turn-submitted, turn-at_rest}
use uno_server.Web.Laws.Fields.{IsAcceptable, none-bad_field, IsSsl, fits_user-IsAcceptable}
use uno_server.Web.Laws.Login.{
  credentials, credentials-row, users_after, login_result, login_answer, internal_login-Works,
}

-- The tables with a new user, whose row is made at `time`.
unfoldable pub with_user : Db → User → ℕ → Db
with_user db u time = record db {
  users = db.users ++ u ∷ [];
  next_uid = suc db.next_uid;
  calls = time;
  salts = suc db.salts;
}

module _ {A : Type 0} (p : A → Bool) where
  pub find_row-last :
      (xs : List A) (x : A)
      → is_some (find_row p xs) ≡ false
      → p x ≡ true
      → find_row p (xs ++ x ∷ []) ≡ some x
  find_row-last [] x h e = rw e refl
  find_row-last (y ∷ xs) x h e = ground (arith, find_row-last xs x)

module _ (lib : DbLibrary) where
  -- The row that a registration makes.
  unfoldable pub registered : Bytes → Bytes → Bytes → Db → User
  unfolding new_user md5
  registered name password email db =
      let salt = salt_at lib db.salts in
      new_user lib (trim_and_lower name) (md5 lib (salt ++ password)) salt email (later (later db))

  -- Its name and its password are those that were sent.
  pub credentials-registered :
      (name password email : Bytes) (db : Db)
      → is_some (find_row (is_named lib (trim_and_lower name)) db.users) ≡ false
      → (s : Bytes) → trim_and_lower s ≡ trim_and_lower name
      → credentials lib s password (db.users ++ registered name password email db ∷ [])
        ≡ some (registered name password email db)
  unfolding registered is_named equal_text new_user is_password
  credentials-registered name password email db free s same =
      credentials-row lib s password row users found ∙ rw (same_bytes_refl row.password) refl
    where
      row : User
      row = registered name password email db

      users : List User
      users = db.users ++ row ∷ []

      found : find_row (is_named lib (trim_and_lower s)) users ≡ some row
      found = rw same (
          find_row-last (is_named lib (trim_and_lower name)) db.users row free
            (same_bytes_refl (lib.weights row.username)))

  module _ (works : Works lib) where
    create_user_task-taken :
        (name password email : Bytes) (db : Db)
        → is_some (find_row (is_named lib (trim_and_lower name)) db.users) ≡ true
        → create_user_task lib name password email db ≡ ok (value (DbValue.flag true), later db)
    unfolding create_user_task
    create_user_task-taken name password email db e =
        bind-value (users_has_username lib name) _ db (later db) true
          (users_has_username-Works lib works name db ∙ rw e refl)

    insert_row-Works :
        (name hashed salt email : Bytes) (db : Db)
        → fits_user name hashed salt email ≡ true
        → is_some (find_row (is_named lib name) db.users) ≡ false
        → insert_row lib name hashed salt email db
          ≡ ok (
            value tt,
            record db {
              users = db.users ++ new_user lib name hashed salt email db ∷ [];
              next_uid = suc db.next_uid;
            },
          )
    unfolding insert_row
    insert_row-Works name hashed salt email db fit free = rw (fit, free) refl

    users_create_user-Works :
        (name password email : Bytes) (db : Db)
        → is_empty (trim_and_lower name) ≡ false
        → fits_user
            (trim_and_lower name)
            (md5 lib (salt_at lib db.salts ++ password))
            (salt_at lib db.salts)
            email
          ≡ true
        → is_some (find_row (is_named lib (trim_and_lower name)) db.users) ≡ false
        → users_create_user lib name password email (later db)
          ≡ ok (value tt, with_user db (registered name password email db) (later (later db)).calls)
    unfolding users_create_user generate_salt insert_user ◌>>◌ ◌>>=◌ registered with_user later
    users_create_user-Works name password email db filled fit free =
        let salt = salt_at lib db.salts in
        let db1 = record (later db) { salts = suc db.salts } in
        rw (users_create_user, filled)
          (bind-value (generate_salt lib)
              (λ s. insert_user lib (trim_and_lower name) (md5 lib (s ++ password)) s email)
              (later db) db1 salt refl
            ∙ bind-value (statement lib)
                (λ _. insert_row lib (trim_and_lower name) (md5 lib (salt ++ password)) salt email)
                db1 (later db1) tt (statement-Works lib works db1)
            ∙ insert_row-Works (trim_and_lower name) (md5 lib (salt ++ password)) salt email
                (later db1) fit free)

    create_user_task-free :
        (name password email : Bytes) (db : Db)
        → is_empty (trim_and_lower name) ≡ false
        → fits_user
            (trim_and_lower name)
            (md5 lib (salt_at lib db.salts ++ password))
            (salt_at lib db.salts)
            email
          ≡ true
        → is_some (find_row (is_named lib (trim_and_lower name)) db.users) ≡ false
        → create_user_task lib name password email db
          ≡ ok (
            value (DbValue.flag false),
            with_user db (registered name password email db) (later (later db)).calls,
          )
    unfolding create_user_task ◌>>◌
    create_user_task-free name password email db filled fit free =
        let db1 = with_user db (registered name password email db) (later (later db)).calls in
        bind-value (users_has_username lib name) _ db (later db) false
          (users_has_username-Works lib works name db ∙ rw free refl)
        ∙ bind-value (users_create_user lib name password email) (λ _. pure (DbValue.flag false))
            (later db) db1 tt (users_create_user-Works name password email db filled fit free)

module _ (lib : WebLibrary) (works : Works lib.db_lib) (ssl : IsSsl lib.db_lib) where
  pub page_register-submits :
      (req : Request) (resp : ℕ) (name password email : Bytes) (w : Web)
      → read_fields Key.name Key.password req ≡ ok (value (name, password))
      → req.get_string Key.email ≡ ok (value email)
      → IsAcceptable lib name password email
      → page_register lib req resp w
        ≡ ok (
            submitted
              (create_user_task lib.db_lib name password email)
              (after_create resp name password (client_ip req))
              w)
  unfolding page_register register submitted
  page_register-submits req resp name password email w h k a =
      rw (page_register, h, k, register, none-bad_field lib name password email a) refl

  turns-taken :
      (resp : ℕ) (ip name password email : Bytes) (running : Bool) (signals : ℕ) (db : Db)
      (answers : List Answer)
      → is_some (find_row (is_named lib.db_lib (trim_and_lower name)) db.users) ≡ true
      → turn lib (
          turn lib (
            submitted
              (create_user_task lib.db_lib name password email)
              (after_create resp name password ip)
              (at_rest running signals db answers)))
        ≡ at_rest running
            (suc signals)
            (later db)
            (answers ++ (record { resp = resp; code = WebCode.db_exists; token = none }) ∷ [])
  unfolding run_callback created_user send_json at_rest
  turns-taken resp ip name password email running signals db answers e =
      ap (turn lib) (
        turn-submitted lib (create_user_task lib.db_lib name password email)
          (after_create resp name password ip) running signals db answers
          (value (DbValue.flag true)) (later db)
          (create_user_task-taken lib.db_lib works name password email db e))
      ∙ turn-at_rest lib running (suc signals) (later db)
          (answers ++ (record { resp = resp; code = WebCode.db_exists; token = none }) ∷ [])

  pub turns-free :
      (resp : ℕ) (ip name password email : Bytes) (running : Bool) (signals : ℕ) (db : Db)
      (answers : List Answer)
      → IsAcceptable lib name password email
      → is_some (find_row (is_named lib.db_lib (trim_and_lower name)) db.users) ≡ false
      → (n : ℕ) × (let row = registered lib.db_lib name password email db in
          turn lib (
            turn lib (
              submitted
                (create_user_task lib.db_lib name password email)
                (after_create resp name password ip)
                (at_rest running signals db answers)))
          ≡ at_rest running
              (suc (suc signals))
              (record (with_user db row n) {
                users = users_after (lib.db_lib.now n) ip (some row) (db.users ++ row ∷ []);
              })
              (answers
                ++ login_answer WebCode.api_internal_error resp
                    (login_result lib name ip (some row))
                  ∷ []))
  unfolding run_callback created_user with_user
  turns-free resp ip name password email running signals db answers a free =
      let row = registered lib.db_lib name password email db in
      let db1 = with_user db row (later (later db)).calls in
      let logged =
        internal_login-Works lib works name password ip WebCode.api_internal_error resp
          (after_register resp) running (suc signals) db1 answers (λ r w. refl) in
      (
        logged.0,
        ap (turn lib) (
              turn-submitted lib (create_user_task lib.db_lib name password email)
                (after_create resp name password ip) running signals db answers
                (value (DbValue.flag false)) db1
                (create_user_task-free lib.db_lib works name password email db
                  (trim_and_lower-is_name name a.named).1
                  (fits_user-IsAcceptable lib name password email db.salts ssl a) free))
            ∙ logged.1
            ∙ rw (credentials-registered lib.db_lib name password email db free name refl) refl,
      )

  -- While the connector works and OpenSSL's digests and salts have their lengths, a registration that
  -- passes the checks is answered once after two turns of a server at rest. If the collation takes the
  -- name for that of a user, the answer is db_exists and no row changes. Else there is one more user,
  -- with the next uid and the name trimmed and lowered, and the answer is that of its login: ok with a
  -- token for the new uid, or api_internal_error when the client's address does not fit its column.
  pub page_register_lem :
      (req : Request) (resp : ℕ) (name password email : Bytes) (running : Bool) (signals : ℕ)
      (db : Db) (answers : List Answer)
      → read_fields Key.name Key.password req ≡ ok (value (name, password))
      → req.get_string Key.email ≡ ok (value email)
      → IsAcceptable lib name password email
      → (w : Web) × (n : ℕ) × (page_register lib req resp (at_rest running signals db answers)
          ≡ ok w)
        × (((is_some (find_row (is_named lib.db_lib (trim_and_lower name)) db.users) ≡ true)
              × (turn lib (turn lib w)
                  ≡ at_rest running
                      (suc signals)
                      (record db { calls = n })
                      (answers
                        ++ (record { resp = resp; code = WebCode.db_exists; token = none }) ∷ [])))
            ⊎ ((is_some (find_row (is_named lib.db_lib (trim_and_lower name)) db.users) ≡ false)
                × (let row = registered lib.db_lib name password email db in
                    turn lib (turn lib w)
                    ≡ at_rest running
                        (suc (suc signals))
                        (record (with_user db row n) {
                          users =
                              users_after
                                (lib.db_lib.now n)
                                (client_ip req)
                                (some row)
                                (db.users ++ row ∷ []);
                        })
                        (answers
                          ++ login_answer WebCode.api_internal_error resp
                              (login_result lib name (client_ip req) (some row))
                            ∷ []))))
  unfolding later
  page_register_lem req resp name password email running signals db answers h k a =
      elim (Bool-cases (is_some (find_row (is_named lib.db_lib (trim_and_lower name)) db.users))) [
        | inl e ↦ (
          _,
          (later db).calls,
          page_register-submits req resp name password email (at_rest running signals db answers) h
              k a,
          inl (
            e,
            turns-taken resp (client_ip req) name password email running signals db answers e,
          ),
        )
        | inr e ↦
            let free =
              turns-free resp (client_ip req) name password email running signals db answers a e in
            (
              _,
              free.0,
              page_register-submits req resp name password email
                  (at_rest running signals db answers) h k a,
              inr (e, free.1),
            )
      ]
