-- ===== src/Account/Text.antt =====
-- `std::string` as its bytes: `trim_and_lower` of src/sql/mysql.cpp, the pattern of names of
-- src/core/server.cpp, and the digits that `md5` of src/util/ssl.h prints.
use uno_server.Common.{
  ℕ, ◌+◌, ◌/◌, ◌%◌, Bool, true, false, not, ◌&&◌, ◌||◌, ◌==◌, leb, ltb, if◌then◌else◌, List, [],
  ◌∷◌,
}

abbrev pub Bytes : Type 0
Bytes = List ℕ

abbrev pub same_bytes : Bytes → Bytes → Bool
same_bytes [] [] = true
same_bytes [] (d ∷ t) = false
same_bytes (c ∷ s) [] = false
same_bytes (c ∷ s) (d ∷ t) = (c == d) && same_bytes s t

abbrev pub is_empty : Bytes → Bool
is_empty [] = true
is_empty (c ∷ s) = false

-- One of " \t\n\r".
unfoldable pub is_blank : ℕ → Bool
is_blank c = (c == 32) || (c == 9) || (c == 10) || (c == 13)

-- `result.erase(0, result.find_first_not_of(" \t\n\r"))`
unfoldable pub trim_front : Bytes → Bytes
unfolding is_blank
trim_front [] = []
trim_front (c ∷ s) = let rest = trim_front s in if is_blank c then rest else c ∷ s

-- `result.erase(result.find_last_not_of(" \t\n\r") + 1)`
unfoldable pub trim_back : Bytes → Bytes
unfolding is_blank
trim_back [] = []
trim_back (c ∷ s) = let rest = trim_back s in if is_blank c && is_empty rest then [] else c ∷ rest

-- `::tolower` of a byte in the "C" locale.
unfoldable pub to_lower : ℕ → ℕ
to_lower c = if leb 65 c && leb c 90 then c + 32 else c

unfoldable pub all_to_lower : Bytes → Bytes
unfolding to_lower
all_to_lower [] = []
all_to_lower (c ∷ s) = to_lower c ∷ all_to_lower s

unfoldable pub trim_and_lower : Bytes → Bytes
unfolding trim_front trim_back all_to_lower
trim_and_lower str = all_to_lower (trim_back (trim_front str))

-- One of `[A-Za-z0-9_]`.
unfoldable pub is_word : ℕ → Bool
is_word c = (leb 65 c && leb c 90) || (leb 97 c && leb c 122) || (leb 48 c && leb c 57) || (c == 95)

unfoldable pub all_word : Bytes → Bool
unfolding is_word
all_word [] = true
all_word (c ∷ s) = is_word c && all_word s

-- `^[A-Za-z0-9_]+$`
unfoldable pub is_name : Bytes → Bool
unfolding all_word
is_name s = not (is_empty s) && all_word s

-- `std::hex` of a digit.
unfoldable pub hex_digit : ℕ → ℕ
hex_digit d = if ltb d 10 then 48 + d else 87 + d

-- Two digits for each byte, `std::setw(2)` with `std::setfill('0')`.
unfoldable pub to_hex : List ℕ → Bytes
unfolding hex_digit
to_hex [] = []
to_hex (b ∷ digest) = hex_digit (b / 16) ∷ hex_digit (b % 16) ∷ to_hex digest

-- How many characters of UTF-8 the bytes are: those that continue none.
unfoldable pub chars : Bytes → ℕ
chars [] = 0
chars (c ∷ s) = let rest = chars s in if leb 128 c && ltb c 192 then rest else 1 + rest
