-- ===== src/Web/Login.antt =====
-- `internalLogin` and `pageLogin` of src/core/server.cpp.
use uno_server.Common.{ℕ, true, false, Option, none, some, Outcome, ok, fault, assertion}
use uno_server.Queue.Background.{BackResult, value, exception, submit}
use uno_server.Account.Text.{Bytes}
use uno_server.Account.Tables.{Query, pure, ◌>>=◌, ◌>>◌}
use uno_server.Account.Users.{
  UserInfo, users_has_username, users_validate_password, users_query_user, users_update_login_info,
}
use uno_server.Account.Agent.{DbValue, as_task}
use uno_server.Web.Types.{
  WebCode, Key, Request, WebLibrary, Callback, Web, send_json, client_ip, after_login,
}

-- `data["uid"]` asserts that there is a row.
unfoldable pub sign_in : WebLibrary → Bytes → Option UserInfo → Query DbValue
unfolding ◌>>◌
sign_in lib ip none = λ _. fault assertion
sign_in lib ip (some u) =
    users_update_login_info lib.db_lib u.uid ip
    >> pure (DbValue.token (some (lib.sign u.uid u.username u.email)))

-- The task of `internalLogin`; without a token the code is `db_not_exists`.
unfoldable pub login_task : WebLibrary → Bytes → Bytes → Bytes → Query DbValue
unfolding ◌>>=◌ sign_in
login_task lib name password ip = do
  exists ← users_has_username lib.db_lib name
  elim exists [
    | false ↦ pure (DbValue.token none)
    | true ↦ do
      valid ← users_validate_password lib.db_lib name password
      elim valid [
        | false ↦ pure (DbValue.token none)
        | true ↦ users_query_user lib.db_lib name >>= sign_in lib ip
      ]
  ]

unfoldable pub internal_login : WebLibrary → Bytes → Bytes → Bytes → Callback → Web → Web
unfolding submit as_task login_task
internal_login lib name password ip callback w = record w {
  bg =
      submit (record { task = as_task (login_task lib name password ip); callback = callback })
        w.bg;
}

-- The answer of a login, with what is said of a name or a password that is wrong.
unfoldable pub answer_login : WebCode → ℕ → BackResult DbValue → Web → Web
unfolding send_json
answer_login bad resp (value (DbValue.token (some t))) w = send_json resp WebCode.ok (some t) w
answer_login bad resp (value _) w = send_json resp bad none w
answer_login bad resp exception w = send_json resp WebCode.api_internal_error none w

-- Two fields of the body, read in order.
unfoldable pub read_fields : Key → Key → Request → Outcome (BackResult (Bytes × Bytes))
read_fields k j req = elim (req.get_string k) [
  | fault e ↦ fault e
  | ok exception ↦ ok exception
  | ok (value s) ↦ elim (req.get_string j) [
    | fault e ↦ fault e
    | ok exception ↦ ok exception
    | ok (value t) ↦ ok (value (s, t))
  ]
]

unfoldable pub page_login : WebLibrary → Request → ℕ → Web → Outcome Web
unfolding client_ip read_fields internal_login send_json
page_login lib req resp w = elim (read_fields Key.name Key.password req) [
  | fault e ↦ fault e
  | ok exception ↦ ok (send_json resp WebCode.api_bad_req none w)
  | ok (value (name, password)) ↦
      ok (internal_login lib name password (client_ip req) (after_login resp) w)
]
