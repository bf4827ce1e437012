-- ===== src/Search/Arrival.antt =====
-- docs/search/search.js: a search of the panel arrives at its page of results.
use cs564_project.Prelude.{
  ℕ, zero, suc, ◌+◌, ◌/◌, ◌%◌, ◌<◌, ◌≡◌, refl, inl, inr, ◌∙◌, List, [], ◌∷◌, ◌++◌, Option, none,
  some, Bool, true, ◌&&◌, ◌==◌, not, ltb, arith, Bool-cases, ap,
}
use cs564_project.Search.Text.{Text, codes, to_lower, strip_leading, hex_digit, hex_digits, to_hex}
use cs564_project.Search.Page.{Results, search_id}
use cs564_project.Search.Page
use cs564_project.Search.Index.{index_sections_with_content, index_section_names, section_at}
use cs564_project.Search.Escape.{escape}
use cs564_project.Search.Query.{Units, unescape-escape}
use cs564_project.Search.Box.{SearchBox, first_code, hex_code, content_at, results_page, search}
use cs564_project.Search.BoxLaws.{sections, search-Searched}
use cs564_project.Search.Address.{location_search, address_query, search_with}

-- A text without a '?'.
abbrev pub unmarked : Text → Bool
unmarked [] = true
unmarked (c ∷ s) = not (c == b'?') && unmarked s

unmarked-append : (s t : Text) → unmarked s ≡ true → unmarked t ≡ true → unmarked (s ++ t) ≡ true
unmarked-append [] t h k = k
unmarked-append (c ∷ s) t h k = ground (arith, unmarked-append s t (ground arith) k)

location_search-append :
    (s t : Text) → unmarked s ≡ true → location_search (s ++ codes "?" ++ t) ≡ codes "?" ++ t
unfolding location_search
location_search-append [] t h = refl
location_search-append (c ∷ s) t h = ground (arith, location_search-append s t (ground arith))

unmarked-hex_digits : (fuel n : ℕ) → unmarked (hex_digits fuel n) ≡ true
unfolding hex_digits hex_digit
unmarked-hex_digits zero n = refl
unmarked-hex_digits (suc fuel) n =
    let last : unmarked (hex_digit (n % 16) ∷ []) ≡ true = ground arith in
    elim (Bool-cases (ltb n 16)) [
      | inl small ↦ rw (hex_digits, small) (ground arith)
      | inr large ↦
          rw (hex_digits, large)
            (unmarked-append (hex_digits fuel (n / 16)) _ (unmarked-hex_digits fuel (n / 16)) last)
    ]

unmarked-hex_code : (c : Option ℕ) → unmarked (hex_code c) ≡ true
unfolding hex_code to_hex
unmarked-hex_code none = refl
unmarked-hex_code (some c) = elim (Bool-cases (ltb c 16)) [
  | inl small ↦
      rw small (unmarked-append (codes "0") (to_hex c) refl (unmarked-hex_digits (c + 1) c))
  | inr large ↦ rw large (unmarked-hex_digits (c + 1) c)
]

abbrev all_unmarked : List Text → Bool
all_unmarked [] = true
all_unmarked (s ∷ ss) = unmarked s && all_unmarked ss

unmarked-section_at :
    (ss : List Text) (i : ℕ) (s : Text)
    → all_unmarked ss ≡ true
    → section_at ss i ≡ some s
    → unmarked s ≡ true
unfolding section_at
unmarked-section_at [] i s h e = absurd (ground arith)
unmarked-section_at (t ∷ ss) zero s h e = ground arith
unmarked-section_at (t ∷ ss) (suc i) s h e = unmarked-section_at ss i s (ground arith) e

unmarked-results_page :
    (path name : Text) (code : Option ℕ)
    → unmarked path ≡ true
    → unmarked name ≡ true
    → unmarked (results_page path name code) ≡ true
unfolding results_page
unmarked-results_page path name code h k =
    let folder = unmarked-append path (codes "/") h refl in
    let file = unmarked-append (path ++ codes "/") name folder k in
    let stem = unmarked-append (path ++ codes "/" ++ name) (codes "_") file refl in
    let digits =
      unmarked-append (path ++ codes "/" ++ name ++ codes "_") (hex_code code) stem
        (unmarked-hex_code code) in
    unmarked-append (path ++ codes "/" ++ name ++ codes "_" ++ hex_code code) (codes ".html") digits
      refl

Units-strip_leading : (s : Text) → Units s → Units (strip_leading s)
unfolding strip_leading
Units-strip_leading [] h = h
Units-strip_leading (c ∷ s) h = elim (Bool-cases (c == b' ')) [
  | inl e ↦ rw e (Units-strip_leading s h.1)
  | inr e ↦ rw e h
]

strip_leading-twice : (s : Text) → strip_leading (strip_leading s) ≡ strip_leading s
unfolding strip_leading
strip_leading-twice [] = refl
strip_leading-twice (c ∷ s) = elim (Bool-cases (c == b' ')) [
  | inl e ↦ rw e (strip_leading-twice s)
  | inr e ↦ rw (e, e) refl
]

search-strip_leading :
    (s : Text) (page : Results) → Page.search (strip_leading s) page ≡ Page.search s page
unfolding Page.search search_id
search-strip_leading s page = rw (strip_leading-twice s) refl

-- Where the chosen section has entries at the first character of the value in the field, the path of
-- the results has no '?', and the value is of UTF-16 code units: Search of the panel sends the frame
-- to an address at which Search of the page, called without a text, does what it does when it is
-- called with the value of the field.
pub search-arrives :
    (b : SearchBox) (section : List ℕ) (page : Results)
    → unmarked b.results_path ≡ true
    → Units b.field
    → b.search_index < sections
    → section_at index_sections_with_content b.search_index ≡ some section
    → content_at section (first_code (to_lower (strip_leading b.field))) ≡ true
    → (b' : SearchBox) × (search b ≡ some b')
      × (search_with [] b'.location page ≡ Page.search b.field page)
unfolding search_with address_query
search-arrives b section page path units index at has =
    let (section', name, b', at', named, run, s) = search-Searched b index in
    let value = strip_leading b.field in
    elim s.page [
      | inr (lacks, _, _) ↦ absurd (ground arith)
      | inl (_, target, place) ↦
          let clear : unmarked b'.last_results_page ≡ true = rw target (
            unmarked-results_page b.results_path name (first_code (to_lower value)) path
              (unmarked-section_at index_section_names b.search_index name refl named)) in
          let read : address_query b'.location ≡ value =
            rw (place, location_search-append b'.last_results_page (escape value) clear)
              (unescape-escape value (Units-strip_leading b.field units)) in
          (b', run, ap (λ t. Page.search t page) read ∙ search-strip_leading b.field page)
    ]
