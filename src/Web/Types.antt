-- ===== src/Web/Types.antt =====
-- What the pages of src/core/server.cpp work on: requests, answers, and the main loop with the
-- background worker.
use uno_server.Common.{ℕ, Bool, Option, none, some, List, [], ◌∷◌, ◌++◌, Outcome}
use uno_server.Queue.Background.{BackResult, Background}
use uno_server.Account.Text.{Bytes}
use uno_server.Account.Tables.{Db, DbLibrary}
use uno_server.Account.Agent.{DbValue}

-- The codes of `ErrCode` that the pages answer with.
pub data WebCode : Type 0 where
  ok api_bad_req api_internal_error api_name_too_long api_name_too_short api_password_too_long
        api_password_too_short api_name_invalid api_bad_password api_bad_token api_email_invalid
        db_exists :
      WebCode

-- What `body["key"].get_string()` does with the body of a request is up to the JSON library: it gives
-- a text, throws or fails an assertion.
pub data Key : Type 0 where
  name password email token : Key

pub record Request : Type 0 where
  pub ip : Bytes
  -- the header `x-forwarded-for`
  pub x_forwarded_for : Option Bytes
  pub get_string : Key → Outcome (BackResult Bytes)

-- The payload of a token, of which the pages read the uid.
pub record WebLibrary : Type 0 where
  pub db_lib : DbLibrary
  -- `JwtUtil::sign` and `JwtUtil::verify`, which throws on a bad token
  pub sign : ℕ → Bytes → Bytes → Bytes
  pub verify : Bytes → Option ℕ
  -- the regular expression of addresses
  pub matches_email : Bytes → Bool

-- The callbacks of the pages with what they capture; a number stands for the response.
pub data Callback : Type 0 where
  after_create : ℕ → Bytes → Bytes → Bytes → Callback
  after_register after_login after_update : ℕ → Callback

-- An answer: the code, and the token of a login. Its `msg` is left out.
pub record Answer : Type 0 where
  pub resp : ℕ
  pub code : WebCode
  pub token : Option Bytes

pub record Web : Type 0 where
  pub bg : Background (Outcome Db) DbValue Callback
  pub answers : List Answer

-- `resp->sendJson`
unfoldable pub send_json : ℕ → WebCode → Option Bytes → Web → Web
send_json resp code given w = record w {
  answers = w.answers ++ (record { resp = resp; code = code; token = given }) ∷ [];
}

unfoldable pub client_ip : Request → Bytes
client_ip req = elim req.x_forwarded_for [ none ↦ req.ip | some ip ↦ ip ]
