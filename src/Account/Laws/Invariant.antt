-- ===== src/Account/Laws/Invariant.antt =====
-- What src/sql/mysql.cpp keeps of its tables.
use mathlib.Core.Bool.{false≢true}
use uno_server.Common.{
  ℕ, suc, ◌<◌, Bool, true, false, not, ◌&&◌, ◌==◌, if◌then◌else◌, Option, [], ◌∷◌, ◌++◌, All,
  All-map, All-append_one, ◌≡◌, ◌≢◌, refl, sym, ap, ◌∙◌, arith, Outcome, ok, fault,
}
use uno_server.Queue.Background.{BackResult, value, exception}
use uno_server.Account.Text.{Bytes}
use uno_server.Account.Tables.{
  User, PlayerRow, Db, DbLibrary, Query, pure, gets, with_assertion, ◌>>=◌, ◌>>◌, call_connector,
  generate_salt, equal_text, find_row, update_rows, is_some,
}
use uno_server.Account.Users.{
  statement, is_named, has_uid, select_user, new_user, fits_user, insert_row, update_user,
}
use uno_server.Account.Laws.Spelling.{same_bytes_refl}
use uno_server.Account.Laws.Rows.{
  Unique, Unique-append_one, find_row-none, find_row-append, All-update_rows, find_row-update_rows,
  Unique-update_rows,
}

-- No two users have the same uid, or names that the collation takes for the same; uids are positive and
-- below the next one. No two roles have the same uid or nick, and each is a user's.
pub record IsDb (lib : DbLibrary) (db : Db) : Type 0 where
  pub names : Unique (λ (u : User). lib.weights u.username) db.users
  pub uids : Unique (λ (u : User). u.uid) db.users
  pub next : 0 < db.next_uid
  pub below : All (λ (u : User). (0 < u.uid) × (u.uid < db.next_uid)) db.users
  pub roles : Unique (λ (p : PlayerRow). p.uid) db.players
  pub nicks : Unique (λ (p : PlayerRow). lib.weights p.nickname) db.players
  pub owned : All (λ (p : PlayerRow). is_some (find_row (has_uid p.uid) db.users) ≡ true) db.players

-- Where a query ends at all, the tables are such, with a result and after an exception.
unfoldable pub After : {A : Type 0} → DbLibrary → Outcome (BackResult A × Db) → Type 0
After lib (fault e) = Unit {0}
After lib (ok (r, db)) = IsDb lib db

unfoldable pub Keeps : {A : Type 0} → DbLibrary → Query A → Type 0
unfolding After
Keeps lib q = (db : Db) → IsDb lib db → After lib (q db)

module _ (lib : DbLibrary) where
  pub Keeps-bind :
      {A B : Type 0} (m : Query A) (f : A → Query B)
      → Keeps lib m
      → ((a : A) → Keeps lib (f a))
      → Keeps lib (m >>= f)
  unfolding Keeps After ◌>>=◌
  Keeps-bind {A = A} {B = B} m f h k db i = go (m db) (h db i)
    where
      go :
          (o : Outcome (BackResult A × Db))
          → After lib o
          → After lib (elim o [
            | fault e ↦ fault e
            | ok (exception, db1) ↦ ok (exception, db1)
            | ok (value a, db1) ↦ f a db1
          ])
      go (fault e) j = tt
      go (ok (exception, db1)) j = j
      go (ok (value a, db1)) j = k a db1 j

  pub Keeps-then :
      {A B : Type 0} (m : Query A) (q : Query B) → Keeps lib m → Keeps lib q → Keeps lib (m >> q)
  unfolding ◌>>◌
  Keeps-then m q h k = Keeps-bind m (λ _. q) h (λ _. k)

  pub Keeps-pure : {A : Type 0} (a : A) → Keeps lib (pure a)
  unfolding Keeps After
  Keeps-pure a db i = i

  pub Keeps-gets : {A : Type 0} (f : Db → A) → Keeps lib (gets f)
  unfolding Keeps After
  Keeps-gets f db i = i

  pub Keeps-with_assertion :
      {A : Type 0} (b : Bool) (q : Query A) → Keeps lib q → Keeps lib (with_assertion b q)
  unfolding Keeps After
  Keeps-with_assertion true q h db i = h db i
  Keeps-with_assertion false q h db i = tt

  -- The counters of the calls are no part of the tables.
  IsDb-counters :
      (db : Db) (calls salts : ℕ)
      → IsDb lib db
      → IsDb lib (record db { calls = calls; salts = salts })
  IsDb-counters db calls salts i = record {
    names = i.names;
    uids = i.uids;
    next = i.next;
    below = i.below;
    roles = i.roles;
    nicks = i.nicks;
    owned = i.owned;
  }

  Keeps-call_connector : Keeps lib (call_connector lib)
  unfolding Keeps After call_connector
  Keeps-call_connector db i = IsDb-counters db (suc db.calls) db.salts i

  pub Keeps-statement : Keeps lib (statement lib)
  unfolding statement
  Keeps-statement =
      Keeps-then (call_connector lib) (call_connector lib) Keeps-call_connector Keeps-call_connector

  pub Keeps-generate_salt : Keeps lib (generate_salt lib)
  unfolding Keeps After generate_salt
  Keeps-generate_salt db i = IsDb-counters db db.calls (suc db.salts) i

  pub Keeps-select_user : (p : User → Bool) → Keeps lib (select_user lib p)
  unfolding select_user
  Keeps-select_user p =
      Keeps-then (statement lib) (gets (λ db. find_row p db.users)) Keeps-statement
        (Keeps-gets (λ db. find_row p db.users))

  pub Keeps-is_found :
      {A : Type 0} (p : User → Bool) (f : Option User → A)
      → Keeps lib (select_user lib p >>= λ row. pure (f row))
  Keeps-is_found p f =
      Keeps-bind (select_user lib p) (λ row. pure (f row)) (Keeps-select_user p)
        (λ row. Keeps-pure (f row))

  -- An UPDATE of a user that leaves its uid and its name alone.
  IsDb-update_rows :
      (p : User → Bool) (f : User → User) (db : Db)
      → ((u : User) → (f u).uid ≡ u.uid)
      → ((u : User) → (f u).username ≡ u.username)
      → IsDb lib db
      → IsDb lib (record db { users = update_rows p f db.users })
  unfolding has_uid
  IsDb-update_rows p f db same_uid same_name i = record {
    names =
        Unique-update_rows p f (λ u. lib.weights u.username) (λ u. ap lib.weights (same_name u))
          db.users i.names;
    uids = Unique-update_rows p f (λ u. u.uid) same_uid db.users i.uids;
    next = i.next;
    below =
        All-update_rows p f (λ u. (0 < u.uid) × (u.uid < db.next_uid)) db.users
          (λ u h. rw (same_uid u) h) i.below;
    roles = i.roles;
    nicks = i.nicks;
    owned =
        All-map db.players
          (λ q h.
            rw
              (find_row-update_rows p f (has_uid q.uid) (λ u. ap (λ n. n == q.uid) (same_uid u))
                db.users)
              h)
          i.owned;
  }

  pub After-if :
      {A : Type 0} (b : Bool) (m n : Outcome (BackResult A × Db))
      → (b ≡ true → After lib m)
      → (b ≡ false → After lib n)
      → After lib (if b then m else n)
  After-if true m n h k = h refl
  After-if false m n h k = k refl

  -- Texts of which one is not found among the rows have other weights.
  pub other_weights : (s t : Bytes) → equal_text lib s t ≡ false → lib.weights s ≢ lib.weights t
  unfolding equal_text
  other_weights s t h e = absurd (false≢true (sym h ∙ (rw e (same_bytes_refl (lib.weights t)))))

  IsDb-insert :
      (name hashed salt email : Bytes) (db : Db)
      → is_some (find_row (is_named lib name) db.users) ≡ false
      → IsDb lib db
      → IsDb lib (record db {
        users = db.users ++ new_user lib name hashed salt email db ∷ [];
        next_uid = suc db.next_uid;
      })
  unfolding new_user is_named
  IsDb-insert name hashed salt email db free i =
      let row = new_user lib name hashed salt email db in
      record {
        names =
            Unique-append_one (λ (u : User). lib.weights u.username) db.users row i.names
              (All-map db.users (λ u h. other_weights u.username name h)
                (find_row-none (is_named lib name) db.users free));
        uids =
            Unique-append_one (λ (u : User). u.uid) db.users row i.uids
              (All-map db.users (λ u h q. let l = h.1 in absurd (omega arith)) i.below);
        next = omega arith;
        below =
            All-append_one (λ (u : User). (0 < u.uid) × (u.uid < suc db.next_uid)) db.users row
              (All-map db.users (λ u h. (h.0, let l = h.1 in omega arith)) i.below)
              (i.next, omega arith);
        roles = i.roles;
        nicks = i.nicks;
        owned =
            All-map db.players (λ q h. find_row-append (has_uid q.uid) db.users (row ∷ []) h)
              i.owned;
      }

  pub insert_row-Keeps :
      (name hashed salt email : Bytes) → Keeps lib (insert_row lib name hashed salt email)
  unfolding Keeps After insert_row
  insert_row-Keeps name hashed salt email db i =
      After-if _ _ _ (λ e. IsDb-insert name hashed salt email db (free_of e) i) (λ e. i)
    where
      taken : Option User
      taken = find_row (is_named lib name) db.users

      free_of :
          (fits_user name hashed salt email && not (is_some taken)) ≡ true → is_some taken ≡ false
      free_of e = ground arith

  pub update_user-Keeps :
      (uid : ℕ) (b : Bool) (f : Db → User → User)
      → ((db : Db) (u : User) → (f db u).uid ≡ u.uid)
      → ((db : Db) (u : User) → (f db u).username ≡ u.username)
      → Keeps lib (update_user lib uid b f)
  unfolding update_user Keeps After
  update_user-Keeps uid b f same_uid same_name =
      Keeps-bind (statement lib) (λ _ db. _) Keeps-statement
        (λ _ db i.
          After-if (is_some (find_row (has_uid uid) db.users) && not b) _ _ (λ e. i)
            (λ e. IsDb-update_rows (has_uid uid) (f db) db (same_uid db) (same_name db) i))
