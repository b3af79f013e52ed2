-- ===== src/Web/Laws/Static.antt =====
-- `pageStatic` of src/core/server.cpp sends files of the static directory only.
use uno_server.Common.{
  Bool, true, false, not, ◌||◌, Bool-cases, ◌==◌, if◌then◌else◌, List, [], ◌∷◌, ◌++◌, All, ◌≡◌,
  ==_iff, All-map, ◌≢◌, refl, sym, ap, ◌∙◌, inl, inr, arith,
}
use mathlib.Core.Bool.{false≢true}
use uno_server.Account.Text.{Bytes, same_bytes}
use uno_server.Web.Static.{
  index_html, file, forbidden, not_found, cut_query, starts_with_dot, has_dots, requested_path,
  page_static,
}

-- A path's components: the first one and the others.
unfoldable pub components : Bytes → Bytes × List Bytes
components [] = ([], [])
components (c ∷ s) =
    let (first, rest) = components s in if c == 47 then ([], first ∷ rest) else (c ∷ first, rest)

-- Whether a component is the parent directory.
abbrev pub IsParent : Bytes → Type 0
IsParent s = s ≡ 46 ∷ 46 ∷ []

first-starts_with_dot :
    (s : Bytes) → starts_with_dot (components s).0 ≡ true → starts_with_dot s ≡ true
unfolding components
first-starts_with_dot [] h = h
first-starts_with_dot (c ∷ s) h = ground arith

first-has_dots : (s : Bytes) → has_dots s ≡ false → has_dots (components s).0 ≡ false
unfolding components has_dots
first-has_dots [] h = refl
first-has_dots (c ∷ s) h = ground (arith, first-has_dots s, first-starts_with_dot s)

rest-has_dots : (s : Bytes) → has_dots s ≡ false → All (λ c. has_dots c ≡ false) (components s).1
unfolding components has_dots
rest-has_dots [] h = tt
rest-has_dots (c ∷ s) h = elim (Bool-cases (c == 47)) [
  | inl e ↦ rw e (first-has_dots s tail, rest-has_dots s tail)
  | inr e ↦ rw e (rest-has_dots s tail)
]
  where
    tail : has_dots s ≡ false
    tail = ground arith

parent-has_dots : (s : Bytes) → IsParent s → has_dots s ≡ true
unfolding has_dots
parent-has_dots s h = rw h refl

no-IsParent : (s : Bytes) → has_dots s ≡ false → ¬ IsParent s
no-IsParent s h p = false≢true (sym h ∙ parent-has_dots s p)

cut_query-All : (s : Bytes) → All (λ c. c ≢ 63) (cut_query s)
unfolding cut_query
cut_query-All [] = tt
cut_query-All (c ∷ s) = elim (Bool-cases (c == 63)) [
  | inl e ↦ rw e tt
  | inr e ↦
      rw e ((λ (q : c ≡ 63). absurd (false≢true (sym e ∙ (==_iff c 63).1 q))), cut_query-All s)
]

sent :
    (dots missing : Bool) (path f : Bytes)
    → (if dots then forbidden else if missing then not_found else file path) ≡ file f
    → (dots ≡ false) × (missing ≡ false) × (f ≡ path)
sent true missing path f h = absurd (cc)
sent false true path f h = absurd (cc)
sent false false path f h = (refl, refl, cc)

-- A file that is sent exists and is no directory, and stands at the static directory followed by a
-- path without a query, of whose components none is the parent directory.
pub page_static-inside :
    (exists is_directory : Bytes → Bool) (static_dir url f : Bytes)
    → page_static exists is_directory static_dir url ≡ file f
    → (path : Bytes) × (f ≡ static_dir ++ path)
      × (exists f ≡ true)
      × (is_directory f ≡ false)
      × All (λ c. c ≢ 63) path
      × (¬ IsParent (components path).0)
      × All (λ c. ¬ IsParent c) (components path).1
unfolding page_static requested_path
page_static-inside exists is_directory static_dir url f h =
    let path = requested_path url in
    let found = sent (has_dots path) missing (static_dir ++ path) f h in
    (
      path,
      found.2,
      ap exists found.2 ∙ there found.1,
      ap is_directory found.2 ∙ no_directory found.1,
      cut_query-All (if same_bytes url (47 ∷ []) then index_html else url),
      no-IsParent (components path).0 (first-has_dots path found.0),
      All-map (components path).1 no-IsParent (rest-has_dots path found.0),
    )
  where
    static_path : Bytes
    static_path = static_dir ++ requested_path url

    missing : Bool
    missing = not (exists static_path) || is_directory static_path

    there : missing ≡ false → exists static_path ≡ true
    there m = ground arith

    no_directory : missing ≡ false → is_directory static_path ≡ false
    no_directory m = ground arith
