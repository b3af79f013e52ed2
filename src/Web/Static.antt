-- ===== src/Web/Static.antt =====
-- `pageStatic` of src/core/server.cpp.
use uno_server.Common.{Bool, false, not, ◌&&◌, ◌||◌, ◌==◌, if◌then◌else◌, [], ◌∷◌, ◌++◌}
use uno_server.Account.Text.{Bytes, same_bytes}

-- The answer: a file, or a page of an error.
pub data Page : Type 0 where
  file : Bytes → Page
  forbidden not_found : Page

-- The text `/index.html`.
abbrev pub index_html : Bytes
index_html = 47 ∷ 105 ∷ 110 ∷ 100 ∷ 101 ∷ 120 ∷ 46 ∷ 104 ∷ 116 ∷ 109 ∷ 108 ∷ []

-- What stands before the first '?'.
unfoldable pub cut_query : Bytes → Bytes
cut_query [] = []
cut_query (c ∷ s) = let rest = cut_query s in if c == 63 then [] else c ∷ rest

abbrev pub starts_with_dot : Bytes → Bool
starts_with_dot [] = false
starts_with_dot (c ∷ s) = c == 46

-- `path.find("..") != npos`
unfoldable pub has_dots : Bytes → Bool
has_dots [] = false
has_dots (c ∷ s) = ((c == 46) && starts_with_dot s) || has_dots s

unfoldable pub requested_path : Bytes → Bytes
unfolding cut_query
requested_path url = cut_query (if same_bytes url (47 ∷ []) then index_html else url)

-- The file system is two parameters.
unfoldable pub page_static : (Bytes → Bool) → (Bytes → Bool) → Bytes → Bytes → Page
unfolding requested_path has_dots
page_static exists is_directory static_dir url =
    let path = requested_path url in
    let static_path = static_dir ++ path in
    if has_dots path
    then forbidden
    else if not (exists static_path) || is_directory static_path
    then not_found
    else file static_path
