-- ===== src/Search/Escape.antt =====
-- docs/search/search.js: `escape` of the language, by which the panel writes the query.
use cs564_project.Prelude.{
  ℕ, ◌+◌, ◌/◌, ◌%◌, [], ◌∷◌, ◌++◌, Bool, ◌&&◌, ◌||◌, ◌==◌, ltb, leb, if◌then◌else◌,
}
use cs564_project.Search.Text.{Text}

-- The characters that `escape` leaves alone.
unfoldable pub is_unescaped : ℕ → Bool
is_unescaped c =
    (leb b'a' c && leb c b'z')
    || (leb b'A' c && leb c b'Z')
    || (leb b'0' c && leb c b'9')
    || c == b'@'
    || c == b'*'
    || c == b'_'
    || c == b'+'
    || c == b'-'
    || c == b'.'
    || c == b'/'

unfoldable pub upper_hex : ℕ → ℕ
upper_hex d = if ltb d 10 then d + b'0' else d + 55

unfoldable pub escape_char : ℕ → Text
escape_char c =
    if is_unescaped c
    then c ∷ []
    else if ltb c 256
    then b'%' ∷ upper_hex (c / 16) ∷ upper_hex (c % 16) ∷ []
    else b'%'
      ∷ b'u'
      ∷ upper_hex (c / 4096)
      ∷ upper_hex (c / 256 % 16)
      ∷ upper_hex (c / 16 % 16)
      ∷ upper_hex (c % 16)
      ∷ []

unfoldable pub escape : Text → Text
escape [] = []
escape (c ∷ s) = escape_char c ++ escape s
