-- ===== src/Web/Laws/Fields.antt =====
-- The checks of `pageRegister` of src/core/server.cpp, and that what they let through fits the columns
-- of src/sql/mysql.cpp.
use uno_server.Common.{
  ℕ, ◌*◌, ◌≤◌, true, Option-cases, none, some, List, [], ◌∷◌, ◌++◌, length, ◌≡◌, refl, inl, inr,
  arith,
}
use uno_server.Account.Text.{Bytes, is_name, all_to_lower, trim_and_lower, to_hex, chars}
use uno_server.Account.Tables.{DbLibrary, md5, salt_at, fits}
use uno_server.Account.Users.{fits_user}
use uno_server.Account.Laws.Spelling.{trim_and_lower-is_name}
use uno_server.Web.Types.{WebLibrary}
use uno_server.Web.Register.{bad_field}

-- What a registration needs.
pub record IsAcceptable (lib : WebLibrary) (name password email : Bytes) : Type 0 where
  pub name_long : 3 ≤ length name
  pub name_short : length name ≤ 16
  pub named : is_name name ≡ true
  pub password_long : 3 ≤ length password
  pub password_short : length password ≤ 32
  pub email_short : length email ≤ 100
  pub address : lib.matches_email (all_to_lower email) ≡ true

module _ (lib : WebLibrary) (name password email : Bytes) where
  bad_field-none : bad_field lib name password email ≡ none → IsAcceptable lib name password email
  unfolding bad_field
  bad_field-none h = record {
    name_long = ground arith;
    name_short = ground arith;
    named = ground arith;
    password_long = ground arith;
    password_short = ground arith;
    email_short = ground arith;
    address = ground arith;
  }

  pub none-bad_field :
      IsAcceptable lib name password email → bad_field lib name password email ≡ none
  unfolding bad_field
  none-bad_field a =
      let n = a.name_long in
      let m = a.name_short in
      let w = a.named in
      let p = a.password_long in
      let q = a.password_short in let e = a.email_short in let d = a.address in ground arith

chars-length : (s : Bytes) → chars s ≤ length s
unfolding chars
chars-length [] = omega arith
chars-length (c ∷ s) = ground (arith, chars-length s)

length-all_to_lower : (s : Bytes) → length (all_to_lower s) ≡ length s
unfolding all_to_lower
length-all_to_lower [] = refl
length-all_to_lower (c ∷ s) = omega (arith, length-all_to_lower s)

length-to_hex : (d : List ℕ) → length (to_hex d) ≡ 2 * length d
unfolding to_hex
length-to_hex [] = refl
length-to_hex (b ∷ d) = omega (arith, length-to_hex d)

-- OpenSSL's digests have at most EVP_MAX_MD_SIZE bytes, and a salt's base 64 fits its column.
pub record IsSsl (lib : DbLibrary) : Type 0 where
  pub digest_length : (s : Bytes) (d : List ℕ) → lib.digest s ≡ some d → length d ≤ 64
  pub salt_fits : (n : ℕ) → fits 32 (salt_at lib n) ≡ true

short-fits : (n : ℕ) (s : Bytes) → length s ≤ n → fits n s ≡ true
unfolding fits
short-fits n s h = let c = chars-length s in ground arith

pub md5-fits : (lib : DbLibrary) (s : Bytes) → IsSsl lib → fits 128 (md5 lib s) ≡ true
unfolding md5
md5-fits lib s ssl = elim (Option-cases (lib.digest s)) [
  | inl e ↦ rw (md5, e) (short-fits 128 [] (omega arith))
  | inr (d, e) ↦
      rw (md5, e)
        (short-fits 128 (to_hex d)
          (let l = ssl.digest_length s d e in let x = length-to_hex d in omega arith))
]

-- A registration that passes the checks fits the columns.
pub fits_user-IsAcceptable :
    (lib : WebLibrary) (name password email : Bytes) (n : ℕ)
    → IsSsl lib.db_lib
    → IsAcceptable lib name password email
    → fits_user
        (trim_and_lower name)
        (md5 lib.db_lib (salt_at lib.db_lib n ++ password))
        (salt_at lib.db_lib n)
        email
      ≡ true
unfolding fits_user
fits_user-IsAcceptable lib name password email n ssl a =
    rw
      (
        (trim_and_lower-is_name name a.named).0,
        short-fits 64 (all_to_lower name)
            (let l = length-all_to_lower name in let s = a.name_short in omega arith),
        md5-fits lib.db_lib (salt_at lib.db_lib n ++ password) ssl,
        ssl.salt_fits n,
        short-fits 128 email (let s = a.email_short in omega arith),
      )
      refl
