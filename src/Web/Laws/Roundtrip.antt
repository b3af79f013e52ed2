-- ===== src/Web/Laws/Roundtrip.antt =====
-- A registration and a later login, `pageRegister` and `pageLogin` of src/core/server.cpp.
use uno_server.Common.{
  ℕ, suc, Bool, true, false, Option-cases, if◌then◌else◌, none, some, List, [], ◌∷◌, ◌++◌, ◌≡◌,
  refl, sym, ap, ◌∙◌, inl, inr, arith, ok, ==_self,
}
use uno_server.Queue.Background.{value}
use uno_server.Account.Text.{Bytes, trim_and_lower}
use uno_server.Account.Tables.{User, Db, DbLibrary, fits, find_row, update_rows, is_some}
use uno_server.Account.Users.{is_named, has_uid, new_user}
use uno_server.Account.Laws.Working.{Works, later, is_password}
use uno_server.Web.Types.{WebCode, Key, Request, WebLibrary, Answer, Web, client_ip}
use uno_server.Web.Login.{read_fields, page_login}
use uno_server.Web.Register.{page_register}
use uno_server.Web.Laws.Turn.{at_rest, turn}
use uno_server.Web.Laws.Fields.{IsAcceptable, IsSsl}
use uno_server.Web.Laws.Login.{
  credentials, credentials-absent, credentials-row, stamp, users_after, login_result, login_answer,
  page_login_lem,
}
use uno_server.Web.Laws.Register.{
  with_user, registered, credentials-registered, page_register-submits, turns-free,
}

module _ {A : Type 0} (p q : A → Bool) (f : A → A) (same : (x : A) → p (f x) ≡ p x) where
  -- What a SELECT finds after an UPDATE that does not touch its condition.
  find_row-updated :
      (xs : List A)
      → find_row p (update_rows q f xs)
        ≡ elim (find_row p xs) [ none ↦ none | some x ↦ some (if q x then f x else x) ]
  find_row-updated [] = refl
  find_row-updated (x ∷ xs) = ground (arith, same x, find_row-updated xs)

if-some :
    {A : Type 0} (b : Bool) (x y : A) → (if b then some x else none) ≡ some y → (b ≡ true) × (x ≡ y)
if-some true x y h = (refl, cc)
if-some false x y h = absurd (cc)

credentials-some :
    (lib : DbLibrary) (name password : Bytes) (u : User) (users : List User)
    → credentials lib name password users ≡ some u
    → (find_row (is_named lib (trim_and_lower name)) users ≡ some u)
      × (is_password lib password u ≡ true)
credentials-some lib name password u users h =
    elim (Option-cases (find_row (is_named lib (trim_and_lower name)) users)) [
      | inl e ↦ absurd (let q = credentials-absent lib name password users e in cc)
      | inr (v, e) ↦
          let own =
            if-some (is_password lib password v) v u
              (sym (credentials-row lib name password v users e) ∙ h) in
          (e ∙ ap some own.1, ap (is_password lib password) (sym own.1) ∙ own.0)
    ]

-- A login's mark changes no credentials.
credentials-stamp :
    (lib : DbLibrary) (name password time ip : Bytes) (u : User) (users : List User)
    → fits 64 ip ≡ true
    → credentials lib name password users ≡ some u
    → credentials lib name password (users_after time ip (some u) users) ≡ some (stamp time ip u)
unfolding users_after is_named has_uid is_password stamp
credentials-stamp lib name password time ip u users e h =
    let found = credentials-some lib name password u users h in
    rw e (
      credentials-row lib name password (stamp time ip u) _ (
        find_row-updated (is_named lib (trim_and_lower name)) (has_uid u.uid) (stamp time ip)
          (λ v. refl) users
        ∙ rw (found.0, ==_self u.uid) refl)
      ∙ rw (found.1) refl)

unfoldable pub ok_answer : ℕ → Bytes → Answer
ok_answer resp token = record { resp = resp; code = WebCode.ok; token = some token }

module _ (lib : WebLibrary) (works : Works lib.db_lib) (ssl : IsSsl lib.db_lib) where
  answer-ok :
      (bad : WebCode) (resp : ℕ) (name ip : Bytes) (u : User)
      → fits 64 ip ≡ true
      → login_answer bad resp (login_result lib name ip (some u))
        ≡ ok_answer resp (lib.sign u.uid (trim_and_lower name) u.email)
  unfolding login_answer login_result ok_answer
  answer-ok bad resp name ip u e = rw (login_result, e) refl

  -- While the connector works and OpenSSL's digests and salts have their lengths: a registration that
  -- passes the checks, with a name that no user has yet, is answered with ok and a token for the next
  -- uid; and a login after it, with the same password and any spelling of the name that is trimmed and
  -- lowered to the same, is answered with ok and a token for the same uid, name and address. The
  -- addresses of both clients have to fit their column.
  pub register-login :
      (req req2 : Request) (resp resp2 : ℕ) (name password email s : Bytes) (running : Bool)
      (signals : ℕ) (db : Db) (answers : List Answer)
      → read_fields Key.name Key.password req ≡ ok (value (name, password))
      → req.get_string Key.email ≡ ok (value email)
      → IsAcceptable lib name password email
      → is_some (find_row (is_named lib.db_lib (trim_and_lower name)) db.users) ≡ false
      → fits 64 (client_ip req) ≡ true
      → read_fields Key.name Key.password req2 ≡ ok (value (s, password))
      → trim_and_lower s ≡ trim_and_lower name
      → fits 64 (client_ip req2) ≡ true
      → let token = lib.sign db.next_uid (trim_and_lower name) email in
        (w w2 : Web) × (page_register lib req resp (at_rest running signals db answers) ≡ ok w)
        × (page_login lib req2 resp2 (turn lib (turn lib w)) ≡ ok w2)
        × ((turn lib w2).answers
            ≡ (answers ++ ok_answer resp token ∷ []) ++ ok_answer resp2 token ∷ [])
  unfolding at_rest registered new_user stamp with_user later
  register-login req req2 resp resp2 name password email s running signals db answers h k a free ip
        h2 same ip2 =
      let row = registered lib.db_lib name password email db in
      let reg =
        turns-free lib works ssl resp (client_ip req) name password email running signals db answers
          a free in
      let users =
        users_after (lib.db_lib.now reg.0) (client_ip req) (some row) (db.users ++ row ∷ []) in
      let db1 = record (with_user db row reg.0) { users = users } in
      let row1 = stamp (lib.db_lib.now reg.0) (client_ip req) row in
      let answers1 =
        answers ++ ok_answer resp (lib.sign db.next_uid (trim_and_lower name) email) ∷ [] in
      let rest =
        reg.1 ∙ rw (answer-ok WebCode.api_internal_error resp name (client_ip req) row ip) refl in
      let login =
        page_login_lem lib works req2 resp2 s password running (suc (suc signals)) db1 answers1
          h2 in
      let known =
        credentials-stamp lib.db_lib s password (lib.db_lib.now reg.0) (client_ip req) row
          (db.users ++ row ∷ []) ip
          (credentials-registered lib.db_lib name password email db free s same) in
      (
        _,
        login.0,
        page_register-submits lib works ssl req resp name password email
            (at_rest running signals db answers) h k a,
        ap (page_login lib req2 resp2) rest ∙ login.2,
        ap (λ (v : Web). v.answers) login.3
            ∙ rw (known, answer-ok WebCode.api_bad_password resp2 s (client_ip req2) row1 ip2, same)
                refl,
      )
