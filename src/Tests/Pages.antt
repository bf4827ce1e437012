-- ===== src/Tests/Pages.antt =====
-- Runs of the pages of results of docs/search/search.js.
use cs564_project.Prelude.{
  ◌≡◌, refl, ◌⊎◌, List, [], ◌∷◌, some, true, false, ◌==◌, if◌then◌else◌, arith,
}
use cs564_project.Search.Text.{
  Text, codes, convert_char, convert_to_id, hex_digit, hex_digits, to_hex, is_plain, lower_char,
  to_lower, strip_leading, strip_trailing, strip_sr, behind_digits, is_prefix, text_eq, take,
}
use cs564_project.Search.Page.{
  unset, block, hidden, is_block, Target, Entry, Row, Children, create_children, create_row,
  create_results, Results, new_results, search_id, row_matches, show_rows, count_matches, search,
}
use cs564_project.Search.PageLaws.{count_shown, search-rows, query, search-new_results}
use cs564_project.Search.Nav.{
  row_at, nav_next, nav_next_from, drop, nav_prev, nav_prev_below, children_of, own_children,
  row_by_id, children_by_id, shown_children, update_by_id, show_children, show_by_id, set_children,
  toggle, focus_item, focus_child, up_target, down_targets,
}
use cs564_project.Search.NavLaws.{is_shown}
use cs564_project.Search.KeyLaws.{flipped, toggle_first, down_up, up_over_hidden}

abbrev target : Text → Target
target scope = record { href = codes "f.html"; in_parent = true; scope = scope }

abbrev entry : Text → List Target → Entry
entry name targets = record { id = convert_to_id name; symbol = name; targets = targets }

-- An entry with one target, and two with two.
abbrev entries : List Entry
entries =
    entry (codes "buf_mgr") (target (codes "a") ∷ target (codes "b") ∷ [])
    ∷ entry (codes "free") (target (codes "c") ∷ target (codes "d") ∷ [])
    ∷ entry (codes "bufs") (target (codes "e") ∷ [])
    ∷ []

abbrev start : Results
start = new_results entries

-- The page behind a search for "Buf", which hides the row between.
abbrev shown : Results
shown = search (codes " Buf ") start

-- The children of the first row are shown, too.
abbrev opened : Results
opened = set_children shown 0 block

search-rows_example :
    (row_at shown.rows 1
      ≡ some
          (record (create_row 1
            (convert_to_id (codes "free"))
            (codes "free")
            (target (codes "c") ∷ target (codes "d") ∷ [])) {
              display =
                  if row_matches (search_id (codes " Buf ")) (
                    create_row 1
                      (convert_to_id (codes "free"))
                      (codes "free")
                      (target (codes "c") ∷ target (codes "d") ∷ []))
                  then block
                  else hidden;
            }))
    × (shown.last_match_count ≡ count_shown shown.rows)
    × (is_block shown.no_matches ≡ (count_shown shown.rows == 0))
unfolding row_at new_results create_results
search-rows_example = search-rows (codes " Buf ") start 1 _ refl

search-new_results_example :
    (r : Row) × (row_at shown.rows 2 ≡ some r)
    × (r.display ≡ (if is_prefix (query (codes " Buf ")) (codes "bufs") then block else hidden))
    × (r.link
        ≡ (create_row 2
            (convert_to_id (codes "bufs"))
            (codes "bufs")
            (target (codes "e") ∷ [])).link)
unfolding strip_leading strip_trailing to_lower lower_char
search-new_results_example =
    search-new_results (codes " Buf ") entries 2 (entry (codes "bufs") (target (codes "e") ∷ []))
      (codes "bufs") (omega arith, (omega arith, (omega arith, tt)))
      (omega arith, (omega arith, (omega arith, (omega arith, tt)))) refl refl

-- Two rows of three are shown.
search_run :
    (shown.last_match_count ≡ 2)
    × (is_shown shown.rows 0 ≡ true)
    × (is_shown shown.rows 1 ≡ false)
    × (is_shown shown.rows 2 ≡ true)
unfolding search new_results create_results create_row create_children show_rows count_matches
    row_matches search_id is_prefix text_eq take strip_sr behind_digits strip_leading strip_trailing
    to_lower lower_char convert_to_id convert_char is_plain to_hex hex_digits hex_digit
search_run = (refl, refl, refl, refl)

down_up_example : (down_targets shown 0 ≡ focus_item 2 ∷ []) × (up_target shown 2 ≡ focus_item 0)
unfolding search new_results create_results create_row create_children show_rows count_matches
    row_matches search_id is_prefix text_eq take strip_sr behind_digits strip_leading strip_trailing
    to_lower lower_char convert_to_id convert_char is_plain to_hex hex_digits hex_digit row_at
    children_of row_by_id children_by_id shown_children nav_next nav_next_from drop
down_up_example = down_up shown 0 2 refl refl refl

up_over_hidden_example : (is_shown opened.rows 1 ≡ false) × (up_target opened 2 ≡ focus_child 1 1)
unfolding search new_results create_results create_row create_children show_rows count_matches
    row_matches search_id is_prefix text_eq take strip_sr behind_digits strip_leading strip_trailing
    to_lower lower_char convert_to_id convert_char is_plain to_hex hex_digits hex_digit row_at
    children_of own_children row_by_id children_by_id shown_children nav_prev nav_prev_below
    set_children show_by_id update_by_id show_children
up_over_hidden_example =
    up_over_hidden opened 2 0 (create_children 0 0 (target (codes "a") ∷ target (codes "b") ∷ []))
      (record {
        display = unset;
        links = create_children 1 0 (target (codes "c") ∷ target (codes "d") ∷ []);
      })
      (omega arith) refl (omega arith) refl refl (omega arith)

-- The rows of all_66.js: two of the same id, of which the second has children.
abbrev twins : List Entry
twins =
    entry (codes "file") (target (codes "a") ∷ [])
    ∷ entry (codes "file") (target (codes "b") ∷ target (codes "c") ∷ [])
    ∷ []

abbrev twin_page : Results
twin_page = new_results twins

abbrev first_twin : Row
first_twin = create_row 0 (convert_to_id (codes "file")) (codes "file") (target (codes "a") ∷ [])

twins_run : row_by_id twin_page.rows (codes "SR_file") ≡ some first_twin
unfolding new_results create_results create_row create_children convert_to_id convert_char is_plain
    to_hex hex_digits hex_digit row_by_id text_eq
twins_run = refl

toggle_first_example :
    (next : Results) × (toggle twin_page (codes "SR_file") ≡ some next)
    × (children_by_id next (codes "SR_file") ≡ flipped first_twin.children)
    × (((c : Children) × (first_twin.children ≡ some c)) ⊎ (next ≡ twin_page))
toggle_first_example = toggle_first twin_page (codes "SR_file") first_twin twins_run
