-- ===== src/Search/PageLaws.antt =====
-- What a search shows on a page of results of docs/search/search.js.
use cs564_project.Prelude.{
  ℕ, zero, suc, ◌+◌, ◌<◌, ◌≡◌, refl, inl, inr, List, [], ◌∷◌, ◌++◌, Option, none, some, ◌==◌,
  if◌then◌else◌, arith, Bool-cases, sym, ◌/◌, ◌%◌,
}
use cs564_project.Search.Text.{
  Text, codes, convert_char, convert_to_id, hex_digit, is_plain, lower_char, to_lower,
  strip_leading, strip_trailing, strip_sr, behind_digits, is_prefix,
}
use cs564_project.Search.Ids.{Bytes, convert_char-byte, is_prefix-convert_to_id}
use cs564_project.Search.Page.{
  block, hidden, is_block, Target, Entry, Row, create_row, create_results, Results, new_results,
  search_id, row_matches, show_rows, count_matches, search,
}
use cs564_project.Search.Nav.{row_at}

-- The rows of a page that are shown.
abbrev pub count_shown : List Row → ℕ
count_shown [] = 0
count_shown (r ∷ rs) = (if is_block r.display then 1 else 0) + count_shown rs

count_shown-show_rows :
    (id : Text) (rs : List Row) → count_shown (show_rows id rs) ≡ count_matches id rs
unfolding show_rows count_matches
count_shown-show_rows id [] = refl
count_shown-show_rows id (r ∷ rs) = ground (arith, count_shown-show_rows id rs)

row_at-show_rows :
    (id : Text) (rs : List Row) (i : ℕ) (r : Row)
    → row_at rs i ≡ some r
    → row_at (show_rows id rs) i
      ≡ some (record r { display = if row_matches id r then block else hidden })
unfolding row_at show_rows
row_at-show_rows id [] i r h = ground arith
row_at-show_rows id (q ∷ rs) zero r h = ground arith
row_at-show_rows id (q ∷ rs) (suc i) r h = row_at-show_rows id rs i r h

-- A search shows each row that matches and hides each other one, and changes nothing else of them;
-- the count it keeps is the number of rows that are shown, and the text on no matches is shown
-- exactly when there are none.
pub search-rows :
    (text : Text) (page : Results) (i : ℕ) (r : Row)
    → row_at page.rows i ≡ some r
    → (row_at (search text page).rows i
        ≡ some (record r { display = if row_matches (search_id text) r then block else hidden }))
      × ((search text page).last_match_count ≡ count_shown (search text page).rows)
      × (is_block (search text page).no_matches ≡ (count_shown (search text page).rows == 0))
unfolding search
search-rows text page i r h = (
  row_at-show_rows (search_id text) page.rows i r h,
  sym (count_shown-show_rows (search_id text) page.rows),
  rw (count_shown-show_rows) (ground arith),
)

hex_digit-lower : (d : ℕ) → d < 16 → lower_char (hex_digit d) ≡ hex_digit d
unfolding lower_char hex_digit
hex_digit-lower d h = ground arith

convert_char-lower : (c : ℕ) → c < 256 → to_lower (convert_char c) ≡ convert_char c
unfolding to_lower is_plain lower_char
convert_char-lower c h = elim (Bool-cases (is_plain c)) [
  | inl e ↦ rw (convert_char-byte c h, e) (ground arith)
  | inr e ↦
      rw (convert_char-byte c h, e)
        (ground (arith, hex_digit-lower (c / 16), hex_digit-lower (c % 16)))
]

to_lower-append : (s t : Text) → to_lower (s ++ t) ≡ to_lower s ++ to_lower t
unfolding to_lower
to_lower-append [] t = refl
to_lower-append (c ∷ s) t = rw (to_lower-append s t) refl

to_lower-convert_to_id : (s : Text) → Bytes s → to_lower (convert_to_id s) ≡ convert_to_id s
unfolding convert_to_id to_lower
to_lower-convert_to_id [] h = refl
to_lower-convert_to_id (c ∷ s) h =
    rw (to_lower-append, convert_char-lower c h.0, to_lower-convert_to_id s h.1)

strip_sr-row : (s : Text) → strip_sr (to_lower (codes "SR_" ++ s)) ≡ to_lower s
unfolding strip_sr behind_digits to_lower lower_char
strip_sr-row s = refl

create_row-id :
    (e : ℕ) (id symbol : Text) (ts : List Target)
    → (create_row e id symbol ts).id ≡ codes "SR_" ++ id
unfolding create_row
create_row-id e id symbol [] = refl
create_row-id e id symbol (t ∷ []) = refl
create_row-id e id symbol (t ∷ u ∷ ts) = refl

-- The text of a query that rows are compared with, before it is made an id.
abbrev pub query : Text → Text
query text = to_lower (strip_trailing (strip_leading text))

row_matches-create_row :
    (text name symbol : Text) (e : ℕ) (ts : List Target)
    → Bytes (query text)
    → Bytes name
    → row_matches (search_id text) (create_row e (convert_to_id name) symbol ts)
      ≡ is_prefix (query text) name
unfolding row_matches search_id
row_matches-create_row text name symbol e ts h k =
    rw (create_row-id, strip_sr-row, to_lower-convert_to_id name k)
      (is_prefix-convert_to_id (query text) name h k)

abbrev pub entry_at : List Entry → ℕ → Option Entry
entry_at [] i = none
entry_at (d ∷ ds) zero = some d
entry_at (d ∷ ds) (suc i) = entry_at ds i

row_at-create_results :
    (e i : ℕ) (entries : List Entry) (d : Entry)
    → entry_at entries i ≡ some d
    → row_at (create_results e entries) i ≡ some (create_row (e + i) d.id d.symbol d.targets)
unfolding row_at create_results
row_at-create_results e i [] d h = ground arith
row_at-create_results e zero (c ∷ cs) d h = ground arith
row_at-create_results e (suc i) (c ∷ cs) d h =
    rw (row_at-create_results (e + 1) i cs d h) (ground arith)

-- On a fresh page, where the id of an entry is made from a name of code units below 256, a search
-- whose text has such code units shows the row of the entry if the text, in lower case and without
-- its outer spaces, is a prefix of the name, and hides it otherwise; the row keeps its link.
pub search-new_results :
    (text : Text) (entries : List Entry) (i : ℕ) (d : Entry) (name : Text)
    → Bytes (query text)
    → Bytes name
    → entry_at entries i ≡ some d
    → d.id ≡ convert_to_id name
    → (r : Row) × (row_at (search text (new_results entries)).rows i ≡ some r)
      × (r.display ≡ (if is_prefix (query text) name then block else hidden))
      × (r.link ≡ (create_row i d.id d.symbol d.targets).link)
unfolding search new_results
search-new_results text entries i d name h k at named =
    let r : Row = create_row i d.id d.symbol d.targets in
    let id : Text = search_id text in
    let same : row_matches id r ≡ is_prefix (query text) name =
      rw (named) (row_matches-create_row text name d.symbol i d.targets h k) in
    let from_zero : 0 + i ≡ i = omega arith in
    let built : row_at (create_results 0 entries) i ≡ some r =
      rw (row_at-create_results 0 i entries d at, from_zero) refl in
    (_, row_at-show_rows id (create_results 0 entries) i r built, rw (same) refl, refl)
