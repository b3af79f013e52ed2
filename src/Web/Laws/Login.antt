-- ===== src/Web/Laws/Login.antt =====
-- `internalLogin` and `pageLogin` of src/core/server.cpp, on the rows of src/sql/mysql.cpp.
use uno_server.Common.{
  ℕ, suc, Bool, true, false, Bool-cases, Option-cases, if◌then◌else◌, Option, none, some, List, [],
  ◌∷◌, ◌++◌, ◌≡◌, refl, ◌∙◌, inl, inr, ok, ==_self,
}
use uno_server.Queue.Background.{BackResult, value, exception}
use uno_server.Account.Text.{Bytes, trim_and_lower}
use uno_server.Account.Tables.{User, Db, DbLibrary, pure, ◌>>◌, fits, find_row, update_rows}
use uno_server.Account.Users.{
  user_info, is_named, has_uid, users_has_username, users_validate_password, users_query_user,
  users_update_login_info,
}
use uno_server.Account.Agent.{DbValue}
use uno_server.Account.Laws.Rows.{find_row-found}
use uno_server.Account.Laws.Working.{
  Works, later, bind-value, bind-exception, is_password, users_has_username-Works,
  users_validate_password-Works, users_query_user-Works, update_user-Works,
}
use uno_server.Web.Types.{
  WebCode, Key, Request, WebLibrary, Callback, Answer, Web, send_json, client_ip, after_login,
}
use uno_server.Web.Login.{
  sign_in, login_task, internal_login, answer_login, read_fields, page_login,
}
use uno_server.Web.Register.{run_callback}
use uno_server.Web.Laws.Turn.{at_rest, turn, submitted, turn-submitted}

-- The row that a name and a password are those of.
unfoldable pub credentials : DbLibrary → Bytes → Bytes → List User → Option User
unfolding is_named is_password
credentials lib name password users = elim (find_row (is_named lib (trim_and_lower name)) users) [
  | none ↦ none
  | some u ↦ if is_password lib password u then some u else none
]

-- What a login writes into the row.
unfoldable pub stamp : Bytes → Bytes → User → User
stamp time ip u = record u { last_login_time = some time; last_login_ip = some ip }

unfoldable pub users_after : Bytes → Bytes → Option User → List User → List User
unfolding fits has_uid stamp
users_after time ip none users = users
users_after time ip (some u) users =
    if fits 64 ip then update_rows (has_uid u.uid) (stamp time ip) users else users

-- No token for wrong credentials, a token for the row's uid, the name as it is kept and the row's
-- address, and an exception when the address of the client does not fit its column.
unfoldable pub login_result : WebLibrary → Bytes → Bytes → Option User → BackResult DbValue
unfolding fits
login_result lib name ip none = value (DbValue.token none)
login_result lib name ip (some u) =
    if fits 64 ip
    then value (DbValue.token (some (lib.sign u.uid (trim_and_lower name) u.email)))
    else exception

module _ (lib : DbLibrary) where
  pub credentials-absent :
      (name password : Bytes) (users : List User)
      → find_row (is_named lib (trim_and_lower name)) users ≡ none
      → credentials lib name password users ≡ none
  unfolding credentials
  credentials-absent name password users e = rw (credentials, e) refl

  pub credentials-row :
      (name password : Bytes) (u : User) (users : List User)
      → find_row (is_named lib (trim_and_lower name)) users ≡ some u
      → credentials lib name password users ≡ (if is_password lib password u then some u else none)
  unfolding credentials
  credentials-row name password u users e = rw (credentials, e) refl

module _ (lib : WebLibrary) (works : Works lib.db_lib) where
  login_info-Works :
      (name ip : Bytes) (u : User) (db : Db)
      → find_row (is_named lib.db_lib (trim_and_lower name)) db.users ≡ some u
      → users_update_login_info lib.db_lib u.uid ip db ≡ (
          if fits 64 ip
          then ok (
            value tt,
            record (later db) {
              users =
                  update_rows (has_uid u.uid) (stamp (lib.db_lib.now (later db).calls) ip) db.users;
            },
          )
          else ok (exception, later db))
  unfolding users_update_login_info has_uid stamp
  login_info-Works name ip u db h =
      update_user-Works lib.db_lib works u.uid (fits 64 ip)
        (λ d v. record v {
          last_login_time = some (lib.db_lib.now d.calls);
          last_login_ip = some ip;
        })
        db
        (find_row-found (is_named lib.db_lib (trim_and_lower name)) (has_uid u.uid) db.users u h
          (==_self u.uid))

  sign_in-row :
      (name ip : Bytes) (u : User) (db : Db)
      → find_row (is_named lib.db_lib (trim_and_lower name)) db.users ≡ some u
      → sign_in lib ip (some (user_info (trim_and_lower name) u)) db
        ≡ ok (
          login_result lib name ip (some u),
          record (later db) {
            users = users_after (lib.db_lib.now (later db).calls) ip (some u) db.users;
          },
        )
  unfolding sign_in user_info ◌>>◌ login_result users_after later
  sign_in-row name ip u db h = elim (Bool-cases (fits 64 ip)) [
    | inl e ↦ rw e (
        bind-value (users_update_login_info lib.db_lib u.uid ip)
          (λ _. pure (DbValue.token (some (lib.sign u.uid (trim_and_lower name) u.email)))) db _ tt
          (login_info-Works name ip u db h ∙ rw e refl))
    | inr e ↦ rw e (
        bind-exception (users_update_login_info lib.db_lib u.uid ip)
          (λ _. pure (DbValue.token (some (lib.sign u.uid (trim_and_lower name) u.email)))) db
          (later db) (login_info-Works name ip u db h ∙ rw e refl))
  ]

  login_task-absent :
      (name password ip : Bytes) (db : Db)
      → find_row (is_named lib.db_lib (trim_and_lower name)) db.users ≡ none
      → login_task lib name password ip db ≡ ok (value (DbValue.token none), later db)
  unfolding login_task
  login_task-absent name password ip db e =
      bind-value (users_has_username lib.db_lib name) _ db (later db) false
        (users_has_username-Works lib.db_lib works name db ∙ rw e refl)

  login_task-wrong :
      (name password ip : Bytes) (u : User) (db : Db)
      → find_row (is_named lib.db_lib (trim_and_lower name)) db.users ≡ some u
      → is_password lib.db_lib password u ≡ false
      → login_task lib name password ip db ≡ ok (value (DbValue.token none), later (later db))
  unfolding login_task later
  login_task-wrong name password ip u db e h =
      bind-value (users_has_username lib.db_lib name) _ db (later db) true
        (users_has_username-Works lib.db_lib works name db ∙ rw e refl)
      ∙ bind-value (users_validate_password lib.db_lib name password) _ (later db)
          (later (later db)) false
          (users_validate_password-Works lib.db_lib works name password (later db)
            ∙ rw e (rw h refl))

  login_task-right :
      (name password ip : Bytes) (u : User) (db : Db)
      → find_row (is_named lib.db_lib (trim_and_lower name)) db.users ≡ some u
      → is_password lib.db_lib password u ≡ true
      → login_task lib name password ip db
        ≡ sign_in lib ip (some (user_info (trim_and_lower name) u)) (later (later (later db)))
  unfolding login_task later
  login_task-right name password ip u db e h =
      bind-value (users_has_username lib.db_lib name) _ db (later db) true
        (users_has_username-Works lib.db_lib works name db ∙ rw e refl)
      ∙ bind-value (users_validate_password lib.db_lib name password) _ (later db)
          (later (later db)) true
          (users_validate_password-Works lib.db_lib works name password (later db)
            ∙ rw e (rw h refl))
      ∙ bind-value (users_query_user lib.db_lib name) (sign_in lib ip) (later (later db))
          (later (later (later db))) (some (user_info (trim_and_lower name) u))
          (users_query_user-Works lib.db_lib works name (later (later db)) ∙ rw e refl)

  -- The task of a login never fails its assertion.
  pub login_task-Works :
      (name password ip : Bytes) (db : Db)
      → (n : ℕ) × (login_task lib name password ip db
          ≡ ok (
            login_result lib name ip (credentials lib.db_lib name password db.users),
            record db {
              calls = n;
              users =
                  users_after
                    (lib.db_lib.now n)
                    ip
                    (credentials lib.db_lib name password db.users)
                    db.users;
            },
          ))
  unfolding login_result users_after later
  login_task-Works name password ip db =
      elim (Option-cases (find_row (is_named lib.db_lib (trim_and_lower name)) db.users)) [
        | inl e ↦ (
          (later db).calls,
          rw (credentials-absent lib.db_lib name password db.users e)
              (login_task-absent name password ip db e),
        )
        | inr (u, e) ↦ elim (Bool-cases (is_password lib.db_lib password u)) [
          | inl h ↦ (
            (later (later (later (later db)))).calls,
            rw (credentials-row lib.db_lib name password u db.users e, h)
                (login_task-right name password ip u db e h
                  ∙ sign_in-row name ip u (later (later (later db))) e),
          )
          | inr h ↦ (
            (later (later db)).calls,
            rw (credentials-row lib.db_lib name password u db.users e, h)
                (login_task-wrong name password ip u db e h),
          )
        ]
      ]

-- The answer to a login.
unfoldable pub login_answer : WebCode → ℕ → BackResult DbValue → Answer
login_answer bad resp (value (DbValue.token (some t))) = record {
  resp = resp;
  code = WebCode.ok;
  token = some t;
}
login_answer bad resp (value _) = record { resp = resp; code = bad; token = none }
login_answer bad resp exception = record {
  resp = resp;
  code = WebCode.api_internal_error;
  token = none;
}

pub answer_login-login_answer :
    (bad : WebCode) (resp : ℕ) (r : BackResult DbValue) (running : Bool) (signals : ℕ) (db : Db)
    (answers : List Answer)
    → answer_login bad resp r (at_rest running signals db answers)
      ≡ at_rest running signals db (answers ++ login_answer bad resp r ∷ [])
unfolding answer_login login_answer at_rest send_json
answer_login-login_answer bad resp (value (DbValue.token (some t))) running signals db answers =
    refl
answer_login-login_answer bad resp (value (DbValue.token none)) running signals db answers = refl
answer_login-login_answer bad resp (value DbValue.nothing) running signals db answers = refl
answer_login-login_answer bad resp (value (DbValue.flag _)) running signals db answers = refl
answer_login-login_answer bad resp (value (DbValue.number _)) running signals db answers = refl
answer_login-login_answer bad resp (value (DbValue.user _)) running signals db answers = refl
answer_login-login_answer bad resp (value (DbValue.role _)) running signals db answers = refl
answer_login-login_answer bad resp (value (DbValue.text _)) running signals db answers = refl
answer_login-login_answer bad resp exception running signals db answers = refl

module _ (lib : WebLibrary) (works : Works lib.db_lib) where
  -- A turn after `internalLogin`.
  pub internal_login-Works :
      (name password ip : Bytes) (bad : WebCode) (resp : ℕ) (callback : Callback) (running : Bool)
      (signals : ℕ) (db : Db) (answers : List Answer)
      → ((r : BackResult DbValue) (w : Web)
          → run_callback lib callback r w ≡ answer_login bad resp r w)
      → (n : ℕ) × (turn lib
            (internal_login lib name password ip callback (at_rest running signals db answers))
          ≡ at_rest running
              (suc signals)
              (record db {
                calls = n;
                users =
                    users_after
                      (lib.db_lib.now n)
                      ip
                      (credentials lib.db_lib name password db.users)
                      db.users;
              })
              (answers
                ++ login_answer bad resp
                    (login_result lib name ip (credentials lib.db_lib name password db.users))
                  ∷ []))
  unfolding internal_login submitted
  internal_login-Works name password ip bad resp callback running signals db answers h =
      let task = login_task-Works lib works name password ip db in
      (
        task.0,
        turn-submitted lib (login_task lib name password ip) callback running signals db answers _ _
              task.1
            ∙ h _ _
            ∙ answer_login-login_answer bad resp _ running (suc signals) _ answers,
      )

  -- While the connector works, a request to log in with both fields is answered once after a turn of
  -- a server at rest: with api_bad_password when no row has that name, trimmed and lowered, by the
  -- collation, with that password; else with ok and a token for the row's uid, which then has the time
  -- and the client's address, unless the latter does not fit its column, which is answered with
  -- api_internal_error. The other rows stay as they were.
  pub page_login_lem :
      (req : Request) (resp : ℕ) (name password : Bytes) (running : Bool) (signals : ℕ) (db : Db)
      (answers : List Answer)
      → read_fields Key.name Key.password req ≡ ok (value (name, password))
      → (w : Web) × (n : ℕ) × (page_login lib req resp (at_rest running signals db answers) ≡ ok w)
        × (turn lib w
            ≡ at_rest running
                (suc signals)
                (record db {
                  calls = n;
                  users =
                      users_after
                        (lib.db_lib.now n)
                        (client_ip req)
                        (credentials lib.db_lib name password db.users)
                        db.users;
                })
                (answers
                  ++ login_answer WebCode.api_bad_password resp (
                      login_result lib name
                        (client_ip req)
                        (credentials lib.db_lib name password db.users))
                    ∷ []))
  unfolding page_login run_callback
  page_login_lem req resp name password running signals db answers h =
      let done =
        internal_login-Works name password (client_ip req) WebCode.api_bad_password resp
          (after_login resp) running signals db answers (λ r w. refl) in
      (_, done.0, rw (page_login, h) refl, done.1)
