-- ===== src/Tests/Panel.antt =====
-- Runs of the search panel of docs/search/search.js.
use cs564_project.Prelude.{
  ℕ, ◌≡◌, refl, List, [], ◌∷◌, Option, none, some, true, false, arith, replicate,
}
use cs564_project.Search.Text.{
  Text, codes, to_lower, lower_char, to_hex, hex_digits, hex_digit, strip_all, strip_leading,
}
use cs564_project.Search.Page.{hidden}
use cs564_project.Search.Index.{index_sections_with_content, section_at, has_content}
use cs564_project.Search.Escape.{escape, escape_char, is_unescaped, upper_hex}
use cs564_project.Search.Box.{
  SearchBox, SelectChild, new_search_box, first_code, content_at, results_page, no_matches_page,
  hex_code, open_results, search_section, search, select_item_count, count_items,
  on_search_select_key,
}
use cs564_project.Search.Panel.{
  searches, focuses, presses, types, closes_results, Event, handle_all, Kept, handle_all-Closable,
}
use cs564_project.Search.Address.{search_with}
use cs564_project.Search.Arrival.{search-arrives}
use cs564_project.Search.Page
use cs564_project.Search.Page.{Results, new_results}
use cs564_project.Search.FilterLaws.{down_past_last}

abbrev window : List SelectChild
window = replicate 7 (record { is_item = true; marked = false })

abbrev start : SearchBox
start = new_search_box (codes "search") false (codes "Search") window

-- The user has typed "buf mgr".
abbrev typed : SearchBox
typed = record start { field = codes "buf mgr"; box_active = true; search_active = true }

-- The last of the filters is chosen.
abbrev last_filter : SearchBox
last_filter = record typed { search_index = 6 }

abbrev location_of : Option SearchBox → Text
location_of none = []
location_of (some b) = b.location

search_run : location_of (search typed) ≡ codes "search/all_62.html?buf%20mgr"
unfolding search search_section open_results results_page hex_code to_hex hex_digits hex_digit
    first_code content_at has_content section_at escape escape_char is_unescaped upper_hex
    strip_leading to_lower lower_char new_search_box
search_run = refl

missing_run :
    location_of (search (record typed { search_index = 2; field = codes "x" }))
    ≡ codes "search/nomatches.html"
unfolding search search_section open_results no_matches_page hex_code to_hex hex_digits hex_digit
    first_code content_at has_content section_at strip_leading to_lower lower_char new_search_box
missing_run = refl

down_past_last_example : on_search_select_key 40 last_filter ≡ none
unfolding select_item_count count_items replicate strip_all new_search_box
down_past_last_example = down_past_last last_filter refl refl refl refl

-- A search that is shown and then closed.
abbrev events : List Event
events =
    focuses true ∷ types (codes "buf") ∷ presses 70 false false ∷ searches ∷ closes_results ∷ []

handle_all-Closable_example :
    Kept (handle_all events (some (new_search_box (codes "search") false (codes "Search") window)))
handle_all-Closable_example =
    handle_all-Closable (codes "search") (codes "Search") false window events

-- The section of all entries has some at "b".
abbrev first_or_empty : List (List ℕ) → List ℕ
first_or_empty [] = []
first_or_empty (s ∷ ss) = s

abbrev all_section : List ℕ
all_section = first_or_empty index_sections_with_content

abbrev results : Results
results = new_results []

search-arrives_example :
    (b' : SearchBox) × (search typed ≡ some b')
    × (search_with [] b'.location results ≡ Page.search typed.field results)
unfolding section_at content_at has_content first_code to_lower lower_char strip_leading
    new_search_box
search-arrives_example =
    search-arrives typed all_section results refl
      (
        omega arith,
        (
          omega arith,
          (omega arith, (omega arith, (omega arith, (omega arith, (omega arith, tt))))),
        ),
      )
      (omega arith) refl refl
