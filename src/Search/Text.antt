-- ===== src/Search/Text.antt =====
-- docs/search/search.js: the texts that the script compares and builds, as lists of UTF-16 code
-- units.
use Prim.Native.Char.{code}
use Prim.Native.String.{String}
use cs564_project.Prelude.{
  ℕ, zero, suc, ◌+◌, ◌/◌, ◌%◌, List, [], ◌∷◌, ◌++◌, map, Bool, true, false, ◌&&◌, ◌||◌, not, ltb,
  leb, ◌==◌, if◌then◌else◌, length,
}
use mathlib.Core.List.{reverse}

abbrev pub Text : Type 0
Text = List ℕ

-- The code units of a literal of the script, all ASCII.
abbrev pub codes : String → Text
codes String.[] = []
codes (String.◌∷◌ c s) = code c ∷ codes s

-- `==` on strings.
unfoldable pub text_eq : Text → Text → Bool
text_eq [] [] = true
text_eq (a ∷ s) (b ∷ t) = a == b && text_eq s t
text_eq _ _ = false

unfoldable pub take : ℕ → Text → Text
take zero s = []
take (suc n) [] = []
take (suc n) (c ∷ s) = c ∷ take n s

-- `/[a-z0-9]/` on one code unit.
unfoldable pub is_plain : ℕ → Bool
is_plain c = (leb b'a' c && leb c b'z') || (leb b'0' c && leb c b'9')

unfoldable pub hex_digit : ℕ → ℕ
hex_digit d = if ltb d 10 then d + b'0' else d + 87

-- `n.toString(16)`, on fuel.
unfoldable pub hex_digits : ℕ → ℕ → Text
hex_digits zero n = []
hex_digits (suc fuel) n =
    let front = hex_digits fuel (n / 16) in
    if ltb n 16 then hex_digit n ∷ [] else front ++ hex_digit (n % 16) ∷ []

unfoldable pub to_hex : ℕ → Text
to_hex n = hex_digits (n + 1) n

-- The body of the loop of `convertToId`.
unfoldable pub convert_char : ℕ → Text
convert_char c =
    if is_plain c
    then c ∷ []
    else if ltb c 16
    then codes "_0" ++ to_hex c
    else codes "_" ++ to_hex c

unfoldable pub convert_to_id : Text → Text
convert_to_id [] = []
convert_to_id (c ∷ s) = convert_char c ++ convert_to_id s

-- `toLowerCase` on the code units below 256; above, it is the identity here.
unfoldable pub lower_char : ℕ → ℕ
lower_char c =
    if (leb b'A' c && leb c b'Z') || (leb 0xc0 c && leb c 0xde && not (c == 0xd7))
    then c + 32
    else c

unfoldable pub to_lower : Text → Text
to_lower = map lower_char

-- `replace(/^ +/, "")`.
unfoldable pub strip_leading : Text → Text
strip_leading [] = []
strip_leading (c ∷ s) = if c == b' ' then strip_leading s else c ∷ s

-- `replace(/ +$/, "")`.
unfoldable pub strip_trailing : Text → Text
strip_trailing s = reverse (strip_leading (reverse s))

-- `replace(/ +/g, "")`.
unfoldable pub strip_all : Text → Text
strip_all [] = []
strip_all (c ∷ s) = if c == b' ' then strip_all s else c ∷ strip_all s

-- `replace(/^sr\d*_/, '')`: behind "sr", the digits and a '_'; else the whole text.
unfoldable pub behind_digits : Text → Text → Text
behind_digits whole [] = whole
behind_digits whole (c ∷ s) =
    if leb b'0' c && leb c b'9' then behind_digits whole s else if c == b'_' then s else whole

unfoldable pub strip_sr : Text → Text
strip_sr (a ∷ b ∷ s) = if a == b's' && b == b'r' then behind_digits (a ∷ b ∷ s) s else a ∷ b ∷ s
strip_sr s = s

-- The test of a row: `search.length <= name.length && name.substr(0, search.length) == search`.
unfoldable pub is_prefix : Text → Text → Bool
is_prefix search name =
    leb (length search) (length name) && text_eq (take (length search) name) search
