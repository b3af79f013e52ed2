-- ===== src/Lobby/Types.antt =====
-- What the lobby of src/game/lobby.cpp works on, and what it takes from the libraries.
use Prim.Native.String.{String}
use uno_server.Common.{ℕ, Bool, Option, List, [], ◌∷◌, ◌++◌, ℤ}
use uno_server.Session.Types.{Session}
use uno_server.Session.Ssmgr.{Ssmgr, update_session_at}

-- The codes of `ErrCode` that the lobby answers with.
pub data LobbyCode : Type 0 where
  ok api_invalid_call api_bad_token api_nick_too_long api_nick_too_short api_nick_invalid
        api_nick_in_use api_db_error db_not_exists :
      LobbyCode

-- `get_base_data`
pub record BaseData : Type 0 where
  pub uid : Option ℕ
  pub name : String
  pub nick : String
  pub email : String
  pub room_id : ℤ

-- The answers to a client.
pub data Said : Type 0 where
  logout_ntf : String → Said
  login_rsp : LobbyCode → Said
  logged_in : String → BaseData → Said
  create_role_ntf : Said
  create_role_rsp : LobbyCode → Said

-- The calls of the database agent: the uid, and what is loaded, created or saved.
pub data DbCall : Type 0 where
  load_role_req : ℕ → DbCall
  create_role_req : Option ℕ → String → DbCall

-- The payload of a token.
pub record Payload : Type 0 where
  pub uid : ℕ
  pub username : String
  pub email : String

-- The libraries' part: `JwtUtil::verify`, which throws on a bad token, `JwtUtil::sign`, the length
-- of a string in bytes, and the regular expression of the nicks.
pub record Library : Type 0 where
  pub verify : String → Option Payload
  pub sign : ℕ → String → String → String
  pub bytes : String → ℕ
  pub matches : String → Bool

pub record Lobby : Type 0 where
  pub ssmgr : Ssmgr
  pub said : List (ℕ × Said)
  pub calls : List DbCall

unfoldable pub say : ℕ → Said → Lobby → Lobby
say sid what l = record l { said = l.said ++ (sid, what) ∷ [] }

unfoldable pub call_db : DbCall → Lobby → Lobby
call_db call l = record l { calls = l.calls ++ call ∷ [] }

unfoldable pub on_session : ℕ → (Session → Session) → Lobby → Lobby
on_session sid f l = record l { ssmgr = update_session_at sid f l.ssmgr }
