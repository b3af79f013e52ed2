-- ===== src/Account/Laws/Spelling.antt =====
-- On `trim_and_lower` of src/sql/mysql.cpp and the pattern of names of src/core/server.cpp.
use uno_server.Common.{ℕ, true, false, ◌&&◌, [], ◌∷◌, ◌≡◌, refl, ◌∙◌, arith, Bool-cases, inl, inr}
use uno_server.Account.Text.{
  Bytes, same_bytes, is_empty, is_blank, trim_front, trim_back, to_lower, all_to_lower,
  trim_and_lower, is_word, all_word, is_name,
}

pub same_bytes_refl : (s : Bytes) → same_bytes s s ≡ true
same_bytes_refl [] = refl
same_bytes_refl (c ∷ s) = ground (arith, same_bytes_refl s)

to_lower_idem : (c : ℕ) → to_lower (to_lower c) ≡ to_lower c
unfolding to_lower
to_lower_idem c = ground arith

is_blank-to_lower : (c : ℕ) → is_blank (to_lower c) ≡ is_blank c
unfolding to_lower is_blank
is_blank-to_lower c = ground arith

is_word-is_blank : (c : ℕ) → is_word c ≡ true → is_blank c ≡ false
unfolding is_word is_blank
is_word-is_blank c h = ground arith

all_to_lower_idem : (s : Bytes) → all_to_lower (all_to_lower s) ≡ all_to_lower s
unfolding all_to_lower
all_to_lower_idem [] = refl
all_to_lower_idem (c ∷ s) = cc (to_lower_idem c, all_to_lower_idem s)

is_empty-all_to_lower : (s : Bytes) → is_empty (all_to_lower s) ≡ is_empty s
unfolding all_to_lower
is_empty-all_to_lower [] = refl
is_empty-all_to_lower (c ∷ s) = refl

trim_back-all_to_lower : (s : Bytes) → trim_back (all_to_lower s) ≡ all_to_lower (trim_back s)
unfolding all_to_lower trim_back
trim_back-all_to_lower [] = refl
trim_back-all_to_lower (c ∷ s) =
    rw (is_blank-to_lower c, trim_back-all_to_lower s, is_empty-all_to_lower (trim_back s))
      (elim (Bool-cases (is_blank c && is_empty (trim_back s))) [
        | inl e ↦ rw e refl
        | inr e ↦ rw e refl
      ])

trim_front-all_to_lower : (s : Bytes) → trim_front (all_to_lower s) ≡ all_to_lower (trim_front s)
unfolding all_to_lower trim_front
trim_front-all_to_lower [] = refl
trim_front-all_to_lower (c ∷ s) = ground (arith, trim_front-all_to_lower s, is_blank-to_lower c)

trim_back_idem : (s : Bytes) → trim_back (trim_back s) ≡ trim_back s
unfolding trim_back
trim_back_idem [] = refl
trim_back_idem (c ∷ s) = ground (arith, trim_back_idem s)

trim_front_idem : (s : Bytes) → trim_front (trim_front s) ≡ trim_front s
unfolding trim_front
trim_front_idem [] = refl
trim_front_idem (c ∷ s) = ground (arith, trim_front_idem s)

trim_front-trim_back : (s : Bytes) → trim_front (trim_back s) ≡ trim_back (trim_front s)
unfolding trim_front trim_back
trim_front-trim_back [] = refl
trim_front-trim_back (c ∷ s) = ground (arith, trim_front-trim_back s)

trim_front-all_word : (s : Bytes) → all_word s ≡ true → trim_front s ≡ s
unfolding trim_front all_word
trim_front-all_word [] h = refl
trim_front-all_word (c ∷ s) h = ground (arith, is_word-is_blank c)

trim_back-all_word : (s : Bytes) → all_word s ≡ true → trim_back s ≡ s
unfolding trim_back all_word
trim_back-all_word [] h = refl
trim_back-all_word (c ∷ s) h = ground (arith, is_word-is_blank c, trim_back-all_word s)

word_of : (s : Bytes) → is_name s ≡ true → all_word s ≡ true
unfolding is_name
word_of s h = ground arith

filled : (s : Bytes) → is_name s ≡ true → is_empty s ≡ false
unfolding is_name
filled s h = ground arith

-- Of a name that the pattern takes only the case is changed, and it is not empty.
pub trim_and_lower-is_name :
    (s : Bytes)
    → is_name s ≡ true
    → (trim_and_lower s ≡ all_to_lower s) × (is_empty (trim_and_lower s) ≡ false)
unfolding trim_and_lower is_name
trim_and_lower-is_name s h =
    rw (trim_front-all_word s (word_of s h), trim_back-all_word s (word_of s h))
      (refl, is_empty-all_to_lower s ∙ filled s h)
