-- ===== src/Search/Ids.antt =====
-- convertToId of docs/search/search.js: what comparing ids says of the texts they stand for.
use cs564_project.Prelude.{
  ℕ, zero, suc, ◌/◌, ◌%◌, ◌<◌, ◌≤◌, ◌≡◌, refl, [], ◌∷◌, ◌++◌, Bool, true, false, ◌&&◌, ltb, ◌==◌,
  if◌then◌else◌, arith, Bool-cases, inl, inr,
}
use native.Mathlib.Numerals.{add-one}
use cs564_project.Search.Text.{
  Text, codes, text_eq, take, is_plain, hex_digit, hex_digits, to_hex, convert_char, convert_to_id,
  is_prefix,
}

-- Plain recursion for the test of a row.
pub starts : Text → Text → Bool
starts [] t = true
starts (a ∷ s) [] = false
starts (a ∷ s) (b ∷ t) = a == b && starts s t

pub is_prefix-starts : (s t : Text) → is_prefix s t ≡ starts s t
unfolding is_prefix starts take text_eq
is_prefix-starts [] [] = ground arith
is_prefix-starts [] (b ∷ t) = ground arith
is_prefix-starts (a ∷ s) [] = ground arith
is_prefix-starts (a ∷ s) (b ∷ t) = ground (arith, is_prefix-starts s t)

hex_digit-eq : (a b : ℕ) → a < 16 → b < 16 → (hex_digit a == hex_digit b) ≡ (a == b)
unfolding hex_digit
hex_digit-eq a b h k = ground arith

hex_digits-small : (fuel n : ℕ) → n < 16 → hex_digits (suc fuel) n ≡ hex_digit n ∷ []
unfolding hex_digits
hex_digits-small fuel n h = ground arith

to_hex-small : (n : ℕ) → n < 16 → to_hex n ≡ hex_digit n ∷ []
unfolding to_hex
to_hex-small n h = rw add-one (hex_digits-small n n h)

hex_digits-byte :
    (fuel n : ℕ)
    → 16 ≤ n
    → n < 256
    → hex_digits (suc (suc fuel)) n ≡ hex_digit (n / 16) ∷ hex_digit (n % 16) ∷ []
unfolding hex_digits
hex_digits-byte fuel n h k =
    let big : ltb n 16 ≡ false = ground arith in
    let small : ltb (n / 16) 16 ≡ true = ground arith in rw (big, hex_digits, small)

to_hex-byte : (n : ℕ) → 16 ≤ n → n < 256 → to_hex n ≡ hex_digit (n / 16) ∷ hex_digit (n % 16) ∷ []
unfolding to_hex
to_hex-byte zero h k = absurd (omega arith)
to_hex-byte (suc m) h k = rw add-one (hex_digits-byte m (suc m) h k)

zero_digit : hex_digit 0 ≡ b'0'
unfolding hex_digit
zero_digit = refl

-- A code unit below 256 stands as itself, or as '_' and two hexadecimal digits.
pub convert_char-byte :
    (c : ℕ)
    → c < 256
    → convert_char c
      ≡ (if is_plain c then c ∷ [] else b'_' ∷ hex_digit (c / 16) ∷ hex_digit (c % 16) ∷ [])
unfolding convert_char
convert_char-byte c h = elim (Bool-cases (ltb c 16)) [
  | inl low ↦
      let small : c < 16 = ground arith in
      let e : c / 16 ≡ 0 = omega arith in
      let e' : c % 16 ≡ c = omega arith in rw (low, to_hex-small c small, e, e', zero_digit)
  | inr high ↦ rw (high, to_hex-byte c (ground arith) h)
]

abbrev pub Bytes : Text → Type 0
Bytes [] = Unit
Bytes (c ∷ s) = (c < 256) × Bytes s

convert_char-starts :
    (a b : ℕ) (s t : Text)
    → a < 256
    → b < 256
    → starts (convert_char a ++ s) (convert_char b ++ t) ≡ (a == b && starts s t)
unfolding starts is_plain
convert_char-starts a b s t h k =
    rw (convert_char-byte a h, convert_char-byte b k)
      (ground (arith, hex_digit-eq (a / 16) (b / 16), hex_digit-eq (a % 16) (b % 16)))

starts_ids :
    (s t : Text) → Bytes s → Bytes t → starts (convert_to_id s) (convert_to_id t) ≡ starts s t
unfolding starts convert_to_id
starts_ids [] t h k = refl
starts_ids (a ∷ s) [] h k = rw (convert_char-byte a h.0) (ground arith)
starts_ids (a ∷ s) (b ∷ t) h k =
    rw (convert_char-starts a b (convert_to_id s) (convert_to_id t) h.0 k.0, starts_ids s t h.1 k.1)

-- On texts of code units below 256, one id is a prefix of the other exactly when the one text is a
-- prefix of the other: the test of a row by ids is a test of the texts.
pub is_prefix-convert_to_id :
    (s t : Text) → Bytes s → Bytes t → is_prefix (convert_to_id s) (convert_to_id t) ≡ is_prefix s t
is_prefix-convert_to_id s t h k = rw (is_prefix-starts, is_prefix-starts) (starts_ids s t h k)

-- A text that begins with U+05F5 has the same id as the one that begins with "_5" instead.
pub convert_to_id_collides :
    (s : Text) → convert_to_id (0x5f5 ∷ s) ≡ convert_to_id (codes "_5" ++ s)
unfolding convert_to_id convert_char is_plain to_hex hex_digits hex_digit
convert_to_id_collides s = refl
