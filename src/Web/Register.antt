-- ===== src/Web/Register.antt =====
-- `pageRegister` of src/core/server.cpp, the callbacks of all pages, and `background_handler` of
-- src/core/server.h, which runs them in the main loop.
use uno_server.Common.{
  ℕ, zero, suc, true, false, not, ltb, if◌then◌else◌, length, Option, none, some, Outcome, ok,
  fault,
}
use uno_server.Queue.Background.{BackResult, value, exception, submit}
use uno_server.Queue.ThreadQue.{try_pop}
use uno_server.Account.Text.{Bytes, is_name, all_to_lower}
use uno_server.Account.Tables.{DbLibrary, Query, pure, ◌>>=◌, ◌>>◌}
use uno_server.Account.Users.{users_has_username, users_create_user}
use uno_server.Account.Agent.{DbValue, as_task}
use uno_server.Web.Types.{
  WebCode, Key, Request, WebLibrary, Callback, Web, send_json, client_ip, after_create,
  after_register, after_login, after_update,
}
use uno_server.Web.Login.{internal_login, answer_login, read_fields}

-- The first check that fails.
unfoldable pub bad_field : WebLibrary → Bytes → Bytes → Bytes → Option WebCode
unfolding is_name all_to_lower
bad_field lib name password email =
    if ltb 16 (length name)
    then some WebCode.api_name_too_long
    else if ltb (length name) 3
    then some WebCode.api_name_too_short
    else if ltb 32 (length password)
    then some WebCode.api_password_too_long
    else if ltb (length password) 3
    then some WebCode.api_password_too_short
    else if ltb 100 (length email)
    then some WebCode.api_email_invalid
    else if not (is_name name)
    then some WebCode.api_name_invalid
    else if not (lib.matches_email (all_to_lower email))
    then some WebCode.api_email_invalid
    else none

-- `create_user_task`: whether the name was in use.
unfoldable pub create_user_task : DbLibrary → Bytes → Bytes → Bytes → Query DbValue
unfolding ◌>>=◌ ◌>>◌
create_user_task lib name password email = do
  exists ← users_has_username lib name
  elim exists [
    | true ↦ pure (DbValue.flag true)
    | false ↦ users_create_user lib name password email >> pure (DbValue.flag false)
  ]

unfoldable pub register : WebLibrary → Bytes → Bytes → Bytes → Bytes → ℕ → Web → Web
unfolding bad_field send_json submit as_task create_user_task
register lib ip name password email resp w = elim (bad_field lib name password email) [
  | some code ↦ send_json resp code none w
  | none ↦ record w {
    bg =
        submit
          (record {
            task = as_task (create_user_task lib.db_lib name password email);
            callback = after_create resp name password ip;
          })
          w.bg;
  }
]

unfoldable pub page_register : WebLibrary → Request → ℕ → Web → Outcome Web
unfolding client_ip read_fields register send_json
page_register lib req resp w = elim (read_fields Key.name Key.password req) [
  | fault e ↦ fault e
  | ok exception ↦ ok (send_json resp WebCode.api_bad_req none w)
  | ok (value (name, password)) ↦ elim (req.get_string Key.email) [
    | fault e ↦ fault e
    | ok exception ↦ ok (send_json resp WebCode.api_bad_req none w)
    | ok (value email) ↦ ok (register lib (client_ip req) name password email resp w)
  ]
]

-- After the task of `pageRegister`. An exception is answered, and the login follows all the same.
unfoldable pub created_user :
    WebLibrary → ℕ → Bytes → Bytes → Bytes → BackResult DbValue → Web → Web
unfolding send_json internal_login
created_user lib resp name password ip (value (DbValue.flag true)) w =
    send_json resp WebCode.db_exists none w
created_user lib resp name password ip (value _) w =
    internal_login lib name password ip (after_register resp) w
created_user lib resp name password ip exception w =
    internal_login lib name password ip (after_register resp)
      (send_json resp WebCode.api_internal_error none w)

-- After the task of `pageUpdateEmail` or `pageUpdatePassword`.
unfoldable pub updated : ℕ → BackResult DbValue → Web → Web
unfolding send_json
updated resp exception w = send_json resp WebCode.api_internal_error none w
updated resp (value _) w = send_json resp WebCode.ok none w

unfoldable pub run_callback : WebLibrary → Callback → BackResult DbValue → Web → Web
unfolding created_user answer_login updated
run_callback lib (after_create resp name password ip) r w =
    created_user lib resp name password ip r w
run_callback lib (after_register resp) r w = answer_login WebCode.api_internal_error resp r w
run_callback lib (after_login resp) r w = answer_login WebCode.api_bad_password resp r w
run_callback lib (after_update resp) r w = updated resp r w

-- One round of the loop of `background_handler`.
unfoldable pub handle_popped : WebLibrary → Option (Callback × BackResult DbValue) → Web → Web
unfolding run_callback
handle_popped lib none w = w
handle_popped lib (some (callback, r)) w = run_callback lib callback r w

unfoldable pub handle_one : WebLibrary → Web → Web
unfolding handle_popped try_pop
handle_one lib w =
    let popped = try_pop w.bg.m_cb_que in
    handle_popped lib popped.0 (record w { bg = record w.bg { m_cb_que = popped.1 } })

unfoldable pub handle_rounds : WebLibrary → ℕ → Web → Web
unfolding handle_one
handle_rounds lib zero w = w
handle_rounds lib (suc n) w = handle_rounds lib n (handle_one lib w)

-- No callback adds to the queue itself, so there are as many rounds as it is long.
unfoldable pub background_handler : WebLibrary → Web → Web
unfolding handle_rounds
background_handler lib w = handle_rounds lib (length w.bg.m_cb_que.m_que) w
