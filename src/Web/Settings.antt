-- ===== src/Web/Settings.antt =====
-- `pageUpdateEmail` and `pageUpdatePassword` of src/core/server.cpp. Some of their error branches
-- answer and go on.
use uno_server.Common.{
  ℕ, Bool, true, false, not, ◌==◌, ltb, if◌then◌else◌, length, Option, none, some, [], Outcome, ok,
  fault, assertion,
}
use uno_server.Queue.Background.{value, exception}
use uno_server.Account.Text.{Bytes, all_to_lower}
use uno_server.Account.Agent.{DbCall, submit_call, update_email, update_password}
use uno_server.Web.Types.{WebCode, Key, Request, WebLibrary, Web, send_json, after_update}

-- The two fields are assigned one by one: what an exception leaves is empty.
unfoldable pub read_assigned : Key → Key → Request → Outcome (Bool × Bytes × Bytes)
read_assigned k j req = elim (req.get_string k) [
  | fault e ↦ fault e
  | ok exception ↦ ok (false, [], [])
  | ok (value s) ↦ elim (req.get_string j) [
    | fault e ↦ fault e
    | ok exception ↦ ok (false, s, [])
    | ok (value t) ↦ ok (true, s, t)
  ]
]

-- Without a payload, `payload["uid"]` asserts that null is an object; with one, `assert(uid)`.
unfoldable pub with_uid : Option ℕ → (ℕ → Web) → Outcome Web
with_uid none k = fault assertion
with_uid (some uid) k = if uid == 0 then fault assertion else ok (k uid)

unfoldable pub submit_update : WebLibrary → DbCall → ℕ → Web → Web
unfolding submit_call
submit_update lib call resp w = record w {
  bg = submit_call lib.db_lib call (after_update resp) w.bg;
}

unfoldable pub update_email_with : WebLibrary → Bytes → Bytes → ℕ → Web → Outcome Web
unfolding all_to_lower with_uid submit_update send_json
update_email_with lib token email resp w =
    let w1 =
      if ltb 100 (length email) then send_json resp WebCode.api_internal_error none w else w in
    if not (lib.matches_email (all_to_lower email))
    then ok (send_json resp WebCode.api_email_invalid none w1)
    else with_uid (lib.verify token) (λ uid. submit_update lib (update_email uid email) resp w1)

unfoldable pub page_update_email : WebLibrary → Request → ℕ → Web → Outcome Web
unfolding read_assigned update_email_with send_json
page_update_email lib req resp w = elim (read_assigned Key.token Key.email req) [
  | fault e ↦ fault e
  | ok (parsed, token, email) ↦
      let w1 = if parsed then w else send_json resp WebCode.api_bad_req none w in
      update_email_with lib token email resp w1
]

unfoldable pub update_password_with : WebLibrary → Bytes → Bytes → ℕ → Web → Outcome Web
unfolding with_uid submit_update send_json
update_password_with lib token password resp w =
    if ltb 32 (length password)
    then ok (send_json resp WebCode.api_password_too_long none w)
    else if ltb (length password) 3
    then ok (send_json resp WebCode.api_password_too_short none w)
    else with_uid (lib.verify token)
        (λ uid. submit_update lib (update_password uid password) resp w)

unfoldable pub page_update_password : WebLibrary → Request → ℕ → Web → Outcome Web
unfolding read_assigned update_password_with send_json
page_update_password lib req resp w = elim (read_assigned Key.token Key.password req) [
  | fault e ↦ fault e
  | ok (parsed, token, password) ↦
      let w1 = if parsed then w else send_json resp WebCode.api_bad_password none w in
      update_password_with lib token password resp w1
]
