-- ===== src/Tests/Accounts.antt =====
-- Theorems on the accounts and the pages, with small libraries.
use uno_server.Common.{
  ℕ, true, false, Option, none, some, List, [], ◌∷◌, ◌++◌, length, All, ◌≡◌, ◌≢◌, ◌⊎◌, refl, ap,
  arith, Outcome, ok,
}
use uno_server.Queue.Background.{BackResult, value, exception}
use uno_server.Account.Text.{
  trim_front, trim_back, is_blank, to_lower, Bytes, is_name, trim_and_lower, chars, all_to_lower,
  all_word, is_word, to_hex,
}
use uno_server.Account.Tables.{
  equal_text, User, Db, DbLibrary, salt_at, md5, fits, find_row, update_rows, is_some,
}
use uno_server.Account.Users.{is_named, has_uid}
use uno_server.Account.Agent.{DbCall, perform}
use uno_server.Account.Laws.Invariant.{IsDb, After}
use uno_server.Account.Laws.Kept.{perform-After}
use uno_server.Account.Laws.Working.{Works, is_password}
use uno_server.Web.Types.{WebCode, Key, Request, WebLibrary, Web, client_ip}
use uno_server.Web.Static.{page_static, requested_path, cut_query, has_dots}
use uno_server.Web.Login.{read_fields, page_login}
use uno_server.Web.Register.{page_register}
use uno_server.Web.Settings.{read_assigned, page_update_password}
use uno_server.Web.Laws.Turn.{at_rest, turn}
use uno_server.Web.Laws.Fields.{IsAcceptable, IsSsl}
use uno_server.Web.Laws.Login.{credentials, users_after, login_result, login_answer, page_login_lem}
use uno_server.Web.Laws.Register.{with_user, registered, page_register_lem}
use uno_server.Web.Laws.Roundtrip.{ok_answer, register-login}
use uno_server.Web.Laws.Settings.{set_password, page_update_password_lem}
use uno_server.Web.Laws.Static.{IsParent, components, page_static-inside}

-- A connector that works, and a digest that is the length.
abbrev db_lib : DbLibrary
db_lib = record {
  works = λ _. true;
  now = λ n. n ∷ [];
  weights = λ s. s;
  rand_bytes = λ n. some (n ∷ []);
  encode_block = λ _. 65 ∷ [];
  digest = λ s. some (length s ∷ []);
  is_object = λ _. true;
}

-- A token is the uid and the name; an empty one does not verify.
abbrev verify : Bytes → Option ℕ
verify [] = none
verify (uid ∷ _) = some uid

abbrev web_lib : WebLibrary
web_lib = record {
  db_lib = db_lib;
  sign = λ uid name email. uid ∷ name;
  verify = verify;
  matches_email = λ _. true;
}

web_lib-Works : Works db_lib
web_lib-Works n = refl

web_lib-IsSsl : IsSsl db_lib
unfolding salt_at fits chars
web_lib-IsSsl = record {
  digest_length = λ s d e. let q = ap (λ o. length (or_empty o)) e in omega arith;
  salt_fits = λ n. refl;
}
  where
    or_empty : Option (List ℕ) → List ℕ
    or_empty none = []
    or_empty (some d) = d

-- User 1 is "bob".
abbrev bob : User
bob = record {
  uid = 1;
  username = 98 ∷ 111 ∷ 98 ∷ [];
  password = 48 ∷ 52 ∷ [];
  salt = 65 ∷ [];
  email = [];
  register_time = [];
  last_login_time = none;
  last_login_ip = none;
}

abbrev tables : Db
tables = record { users = bob ∷ []; players = []; next_uid = 2; calls = 0; salts = 0 }

tables-IsDb : IsDb db_lib tables
tables-IsDb = record {
  names = (tt, tt);
  uids = (tt, tt);
  next = omega arith;
  below = ((omega arith, omega arith), tt);
  roles = tt;
  nicks = tt;
  owned = tt;
}

perform-After_example : After db_lib (perform db_lib (DbCall.create_role 1 (66 ∷ [])) tables)
perform-After_example = perform-After db_lib (DbCall.create_role 1 (66 ∷ [])) tables tables-IsDb

-- A request with a name, the password "abc", an address and an empty token.
abbrev fields : Bytes → Key → Outcome (BackResult Bytes)
fields name Key.name = ok (value name)
fields name Key.password = ok (value (97 ∷ 98 ∷ 99 ∷ []))
fields name Key.email = ok (value (64 ∷ []))
fields name Key.token = ok (value [])

abbrev request : Bytes → Request
request name = record { ip = 49 ∷ []; x_forwarded_for = none; get_string = fields name }

bob_password : is_password db_lib (97 ∷ 98 ∷ 99 ∷ []) bob ≡ true
unfolding is_password md5 to_hex
bob_password = refl

-- "BOB", " bob" and "Amy".
abbrev loud_bob : Bytes
loud_bob = 66 ∷ 79 ∷ 66 ∷ []

abbrev amy : Bytes
amy = 65 ∷ 109 ∷ 121 ∷ []

abbrev loud_amy : Bytes
loud_amy = 65 ∷ 77 ∷ 89 ∷ []

abbrev abc : Bytes
abc = 97 ∷ 98 ∷ 99 ∷ []

read_request :
    (name : Bytes) → read_fields Key.name Key.password (request name) ≡ ok (value (name, abc))
unfolding read_fields
read_request name = refl

page_login_lem_example :
    (w : Web) × (n : ℕ) × (page_login web_lib (request loud_bob) 7 (at_rest true 0 tables [])
      ≡ ok w)
    × (turn web_lib w
        ≡ at_rest true 1
            (record tables {
              calls = n;
              users =
                  users_after
                    (n ∷ [])
                    (client_ip (request loud_bob))
                    (credentials db_lib loud_bob abc (bob ∷ []))
                    (bob ∷ []);
            })
            ([]
              ++ login_answer WebCode.api_bad_password 7 (
                  login_result web_lib loud_bob
                    (client_ip (request loud_bob))
                    (credentials db_lib loud_bob abc (bob ∷ [])))
                ∷ []))
page_login_lem_example =
    page_login_lem web_lib web_lib-Works (request loud_bob) 7 loud_bob abc true 0 tables []
      (read_request loud_bob)

amy-IsAcceptable : IsAcceptable web_lib amy abc (64 ∷ [])
unfolding is_name all_word is_word
amy-IsAcceptable = record {
  name_long = omega arith;
  name_short = omega arith;
  named = refl;
  password_long = omega arith;
  password_short = omega arith;
  email_short = omega arith;
  address = refl;
}

page_register_lem_example :
    (w : Web) × (n : ℕ) × (page_register web_lib (request amy) 7 (at_rest true 0 tables []) ≡ ok w)
    × (((is_some (find_row (is_named db_lib (trim_and_lower amy)) tables.users) ≡ true)
          × (turn web_lib (turn web_lib w)
              ≡ at_rest true 1
                  (record tables { calls = n })
                  ([] ++ (record { resp = 7; code = WebCode.db_exists; token = none }) ∷ [])))
        ⊎ ((is_some (find_row (is_named db_lib (trim_and_lower amy)) tables.users) ≡ false)
            × (let row = registered db_lib amy abc (64 ∷ []) tables in
                turn web_lib (turn web_lib w)
                ≡ at_rest true 2
                    (record (with_user tables row n) {
                      users =
                          users_after
                            (n ∷ [])
                            (client_ip (request amy))
                            (some row)
                            (tables.users ++ row ∷ []);
                    })
                    ([]
                      ++ login_answer WebCode.api_internal_error 7
                          (login_result web_lib amy (client_ip (request amy)) (some row))
                        ∷ []))))
page_register_lem_example =
    page_register_lem web_lib web_lib-Works web_lib-IsSsl (request amy) 7 amy abc (64 ∷ []) true 0
      tables [] (read_request amy) refl amy-IsAcceptable

register-login_example :
    let token = 2 ∷ trim_and_lower amy in
    (w w2 : Web) × (page_register web_lib (request amy) 7 (at_rest true 0 tables []) ≡ ok w)
    × (page_login web_lib (request loud_amy) 8 (turn web_lib (turn web_lib w)) ≡ ok w2)
    × ((turn web_lib w2).answers ≡ ([] ++ ok_answer 7 token ∷ []) ++ ok_answer 8 token ∷ [])
unfolding is_named equal_text trim_and_lower trim_front trim_back all_to_lower is_blank to_lower
    client_ip fits chars
register-login_example =
    register-login web_lib web_lib-Works web_lib-IsSsl (request amy) (request loud_amy) 7 8 amy abc
      (64 ∷ []) loud_amy true 0 tables [] (read_request amy) refl amy-IsAcceptable refl refl
      (read_request loud_amy) refl refl

abbrev with_token : Key → Outcome (BackResult Bytes)
with_token Key.token = ok (value (1 ∷ []))
with_token Key.name = ok exception
with_token Key.password = ok (value abc)
with_token Key.email = ok exception

abbrev change_request : Request
change_request = record { ip = []; x_forwarded_for = none; get_string = with_token }

page_update_password_lem_example :
    (w : Web) × (n : ℕ) × (let salt = salt_at db_lib tables.salts in
      let change = set_password (md5 db_lib (salt ++ abc)) salt in
      (page_update_password web_lib change_request 7 (at_rest true 0 tables []) ≡ ok w)
      × (turn web_lib w
          ≡ at_rest true 1
              (record tables {
                calls = n;
                salts = 1;
                users = update_rows (has_uid 1) change tables.users;
              })
              ([] ++ (record { resp = 7; code = WebCode.ok; token = none }) ∷ []))
      × (is_password db_lib abc (change bob) ≡ true))
unfolding read_assigned has_uid
page_update_password_lem_example =
    page_update_password_lem web_lib web_lib-Works web_lib-IsSsl change_request 7 1 (1 ∷ []) abc
      true 0 tables [] bob refl (omega arith) (omega arith) refl (omega arith) refl

-- "/a?" is the file "/a" of the directory "s".
page_static-inside_example :
    (path : Bytes) × (115 ∷ 47 ∷ 97 ∷ [] ≡ (115 ∷ []) ++ path)
    × (true ≡ true)
    × (false ≡ false)
    × All (λ c. c ≢ 63) path
    × (¬ IsParent (components path).0)
    × All (λ c. ¬ IsParent c) (components path).1
unfolding page_static requested_path cut_query has_dots
page_static-inside_example =
    page_static-inside (λ _. true) (λ _. false) (115 ∷ []) (47 ∷ 97 ∷ 63 ∷ []) (115 ∷ 47 ∷ 97 ∷ [])
      refl
