-- ===== src/Search/Query.antt =====
-- docs/search/search.js: the query of the address of a page of results. The panel writes it by
-- `escape`, and the page reads it by `unescape`.
use cs564_project.Prelude.{
  ℕ, zero, suc, ◌+◌, ◌-◌, ◌*◌, ◌/◌, ◌%◌, ◌<◌, ◌≡◌, refl, inl, inr, [], ◌∷◌, ◌++◌, Option, none,
  some, true, false, ◌&&◌, ◌==◌, ltb, leb, if◌then◌else◌, arith, Bool-cases, ap,
}
use cs564_project.Search.Text.{Text}
use cs564_project.Search.Escape.{escape, escape_char, is_unescaped, upper_hex}

-- The value of a hexadecimal digit.
unfoldable pub hex_value : ℕ → Option ℕ
hex_value c =
    if leb b'0' c && leb c b'9'
    then some (c - b'0')
    else if leb b'A' c && leb c b'F'
    then some (c - 55)
    else if leb b'a' c && leb c b'f'
    then some (c - 87)
    else none

-- The number that begins with `high` and goes on by one digit.
abbrev pub next_digit : Option ℕ → Option ℕ → Option ℕ
next_digit (some high) (some d) = some (16 * high + d)
next_digit _ _ = none

-- The value of so many digits at the start of a text.
unfoldable pub hex_number : ℕ → Option ℕ → Text → Option ℕ
hex_number zero high s = high
hex_number (suc n) high [] = none
hex_number (suc n) high (c ∷ s) = hex_number n (next_digit high (hex_value c)) s

abbrev pub or_skip : Option ℕ → ℕ → ℕ × ℕ → ℕ × ℕ
or_skip (some v) n other = (v, n)
or_skip none n other = other

abbrev pub behind_u : Text → Option ℕ
behind_u [] = none
behind_u (c ∷ s) = if c == b'u' then hex_number 4 (some 0) s else none

-- What `unescape` reads at a code unit with `s` behind it, and how much of `s` belongs to it.
unfoldable pub decode : ℕ → Text → ℕ × ℕ
decode c s =
    if c == b'%'
    then or_skip (behind_u s) 5 (or_skip (hex_number 2 (some 0) s) 2 (c, 0))
    else (c, 0)

-- `unescape`, behind so many code units that have been read.
unfoldable pub unescape_behind : ℕ → Text → Text
unescape_behind k [] = []
unescape_behind zero (c ∷ s) = let (v, n) = decode c s in v ∷ unescape_behind n s
unescape_behind (suc k) (c ∷ s) = unescape_behind k s

unfoldable pub unescape : Text → Text
unescape s = unescape_behind 0 s

-- A text of UTF-16 code units.
abbrev pub Units : Text → Type 0
Units [] = Unit
Units (c ∷ s) = (c < 65536) × Units s

hex_value-upper_hex : (d : ℕ) → d < 16 → hex_value (upper_hex d) ≡ some d
unfolding hex_value upper_hex
hex_value-upper_hex d h = ground arith

upper_hex-not_u : (d : ℕ) → d < 16 → (upper_hex d == b'u') ≡ false
unfolding upper_hex
upper_hex-not_u d h = ground arith

plain-not_percent : (c : ℕ) → is_unescaped c ≡ true → (c == b'%') ≡ false
unfolding is_unescaped
plain-not_percent c h = ground arith

decode-byte :
    (c : ℕ) (t : Text)
    → c < 256
    → decode b'%' (upper_hex (c / 16) ∷ upper_hex (c % 16) ∷ t) ≡ (c, 2)
unfolding decode hex_number
decode-byte c t h =
    let value : 16 * (16 * 0 + c / 16) + c % 16 ≡ c = omega arith in
    rw
      (
        upper_hex-not_u (c / 16) (omega arith),
        hex_value-upper_hex (c / 16) (omega arith),
        hex_value-upper_hex (c % 16) (omega arith),
        value,
      )
      refl

decode-unit :
    (c : ℕ) (t : Text)
    → c < 65536
    → decode b'%' (
        b'u'
        ∷ upper_hex (c / 4096)
        ∷ upper_hex (c / 256 % 16)
        ∷ upper_hex (c / 16 % 16)
        ∷ upper_hex (c % 16)
        ∷ t)
      ≡ (c, 5)
unfolding decode hex_number
decode-unit c t h =
    let value : 16 * (16 * (16 * (16 * 0 + c / 4096) + c / 256 % 16) + c / 16 % 16) + c % 16 ≡ c =
      omega arith in
    rw
      (
        hex_value-upper_hex (c / 4096) (omega arith),
        hex_value-upper_hex (c / 256 % 16) (omega arith),
        hex_value-upper_hex (c / 16 % 16) (omega arith),
        hex_value-upper_hex (c % 16) (omega arith),
        value,
      )
      refl

unescape-escape_char :
    (c : ℕ) (t : Text)
    → c < 65536
    → unescape_behind 0 (escape_char c ++ t) ≡ c ∷ unescape_behind 0 t
unfolding escape_char unescape_behind decode
unescape-escape_char c t h = elim (Bool-cases (is_unescaped c)) [
  | inl plain ↦ rw (plain, decode, plain-not_percent c plain) refl
  | inr other ↦ elim (Bool-cases (ltb c 256)) [
    | inl byte ↦ rw (other, byte, decode-byte c t (ground arith)) refl
    | inr unit ↦ rw (other, unit, decode-unit c t h) refl
  ]
]

-- On a text of code units below 65536, `unescape` gives back what `escape` was given.
pub unescape-escape : (s : Text) → Units s → unescape (escape s) ≡ s
unfolding unescape escape unescape_behind
unescape-escape [] h = refl
unescape-escape (c ∷ s) h =
    rw (unescape-escape_char c (escape s) h.0) (ap (c ∷◌) (unescape-escape s h.1))
