-- ===== src/Account/Tables.antt =====
-- The tables that src/sql/mysql.cpp creates, what it takes from the libraries, and its statements.
use uno_server.Common.{
  ℕ, suc, Bool, true, false, leb, if◌then◌else◌, Option, none, some, List, [], ◌∷◌, Outcome, ok,
  fault, assertion,
}
use uno_server.Queue.Background.{BackResult, value, exception}
use uno_server.Account.Text.{Bytes, same_bytes, to_hex, chars}

-- A row of `users`; `none` is NULL.
pub record User : Type 0 where
  pub uid : ℕ
  pub username : Bytes
  pub password : Bytes
  pub salt : Bytes
  pub email : Bytes
  pub register_time : Bytes
  pub last_login_time : Option Bytes
  pub last_login_ip : Option Bytes

-- A row of `uno_game_players`; the JSON columns are kept as texts.
pub record PlayerRow : Type 0 where
  pub uid : ℕ
  pub nickname : Bytes
  pub creation_time : Bytes
  pub summary : Bytes
  pub data_text : Bytes

pub record Db : Type 0 where
  pub users : List User
  pub players : List PlayerRow
  -- the next AUTO_INCREMENT
  pub next_uid : ℕ
  -- how often the connector and the source of random bytes were called
  pub calls : ℕ
  pub salts : ℕ

-- The connector: whether a call of it works, `NOW()`, and the weights by which the collation compares
-- texts. OpenSSL: random bytes, base 64 and the digest, which may fail. Whether a text is a JSON object.
pub record DbLibrary : Type 0 where
  pub works : ℕ → Bool
  pub now : ℕ → Bytes
  pub weights : Bytes → Bytes
  pub rand_bytes : ℕ → Option (List ℕ)
  pub encode_block : List ℕ → Bytes
  pub digest : Bytes → Option (List ℕ)
  pub is_object : Bytes → Bool

-- What works on the tables: it may fail an assertion or throw, and keeps what it wrote before.
abbrev pub Query : Type 0 → Type 0
Query A = Db → Outcome (BackResult A × Db)

module _ {A : Type 0} where
  abbrev pub pure : A → Query A
  pure a db = ok (value a, db)

  abbrev pub throw : Query A
  throw db = ok (exception, db)

  abbrev pub gets : (Db → A) → Query A
  gets f db = ok (value (f db), db)

  abbrev pub with_assertion : Bool → Query A → Query A
  with_assertion true q = q
  with_assertion false q = λ _. fault assertion

infixl 5 ◌>>=◌ ◌>>◌
unfoldable pub ◌>>=◌ : {A B : Type 0} → Query A → (A → Query B) → Query B
◌>>=◌ m f db = elim (m db) [
  | fault e ↦ fault e
  | ok (exception, db1) ↦ ok (exception, db1)
  | ok (value a, db1) ↦ f a db1
]

unfoldable pub ◌>>◌ : {A B : Type 0} → Query A → Query B → Query B
unfolding ◌>>=◌
m >> k = m >>= λ _. k

abbrev pub modify : (Db → Db) → Query (Unit {0})
modify f db = ok (value tt, f db)

-- A call of the connector: `getSession()` or `execute()`.
unfoldable pub call_connector : DbLibrary → Query (Unit {0})
call_connector lib db =
    ok (if lib.works db.calls then value tt else exception, record db { calls = suc db.calls })

-- What `generate_salt` returns with the random bytes of a call.
unfoldable pub salt_at : DbLibrary → ℕ → Bytes
salt_at lib n = elim (lib.rand_bytes n) [ none ↦ [] | some random ↦ lib.encode_block random ]

unfoldable pub generate_salt : DbLibrary → Query Bytes
unfolding salt_at
generate_salt lib db = ok (value (salt_at lib db.salts), record db { salts = suc db.salts })

unfoldable pub md5 : DbLibrary → Bytes → Bytes
md5 lib input = elim (lib.digest input) [ none ↦ [] | some digest ↦ to_hex digest ]

-- `=` between texts in SQL.
unfoldable pub equal_text : DbLibrary → Bytes → Bytes → Bool
equal_text lib s t = same_bytes (lib.weights s) (lib.weights t)

-- `VARCHAR(n)`
unfoldable pub fits : ℕ → Bytes → Bool
fits n s = leb (chars s) n

module _ {A : Type 0} where
  -- The first row of a SELECT.
  abbrev pub find_row : (A → Bool) → List A → Option A
  find_row p [] = none
  find_row p (row ∷ rows) = if p row then some row else find_row p rows

  -- An UPDATE.
  abbrev pub update_rows : (A → Bool) → (A → A) → List A → List A
  update_rows p f [] = []
  update_rows p f (row ∷ rows) = (if p row then f row else row) ∷ update_rows p f rows

  abbrev pub is_some : Option A → Bool
  is_some none = false
  is_some (some a) = true
