-- ===== src/Search/Index.antt =====
-- docs/search/search.js: the tables of the index. A string of '0' and '1' over the character codes is
-- the list of the codes at which it has '1'.
use cs564_project.Prelude.{ℕ, zero, suc, List, [], ◌∷◌, Option, none, some, Bool, false, ◌||◌, ◌==◌}
use cs564_project.Search.Text.{Text, codes}

-- `indexSectionsWithContent`: the first characters of the entries of each section.
abbrev pub index_sections_with_content : List (List ℕ)
index_sections_with_content =
    (b'a' ∷ b'b' ∷ b'c' ∷ b'd' ∷ b'e' ∷ b'f' ∷ b'g' ∷ b'h' ∷ b'i' ∷ b'l' ∷ b'm' ∷ b'n' ∷ b'o' ∷ b'p'
      ∷ b'r' ∷ b's' ∷ b'u' ∷ b'v' ∷ b'w' ∷ b'~' ∷ [])
    ∷ (b'b' ∷ b'f' ∷ b'h' ∷ b'i' ∷ b'p' ∷ b'r' ∷ b's' ∷ [])
    ∷ (b'b' ∷ [])
    ∷ (b'a' ∷ b'b' ∷ b'c' ∷ b'd' ∷ b'e' ∷ b'f' ∷ b'g' ∷ b'h' ∷ b'i' ∷ b'l' ∷ b'm' ∷ b'n' ∷ b'o'
        ∷ b'p' ∷ b'r' ∷ b's' ∷ b'u' ∷ b'w' ∷ b'~' ∷ [])
    ∷ (b'a' ∷ b'b' ∷ b'c' ∷ b'd' ∷ b'f' ∷ b'i' ∷ b'm' ∷ b'n' ∷ b'p' ∷ b'r' ∷ b's' ∷ b'u' ∷ b'v'
        ∷ [])
    ∷ (b'f' ∷ b'p' ∷ b's' ∷ [])
    ∷ (b'o' ∷ [])
    ∷ []

abbrev pub index_section_names : List Text
index_section_names =
    codes "all"
    ∷ codes "classes"
    ∷ codes "namespaces"
    ∷ codes "functions"
    ∷ codes "variables"
    ∷ codes "typedefs"
    ∷ codes "related"
    ∷ []

unfoldable pub section_at {ℓ} : {A : Type ℓ} → List A → ℕ → Option A
section_at [] i = none
section_at (x ∷ xs) zero = some x
section_at (x ∷ xs) (suc i) = section_at xs i

-- `charAt(code) == '1'` on one string of the table.
unfoldable pub has_content : List ℕ → ℕ → Bool
has_content [] code = false
has_content (c ∷ cs) code = c == code || has_content cs code
