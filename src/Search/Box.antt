-- ===== src/Search/Box.antt =====
-- docs/search/search.js: the search panel. Of the document the model keeps what the script reads and
-- writes, but for positions and widths in pixels; `key_timer` and `hide_timer` are whether
-- `keyTimeout` and `hideTimeout` are not 0. `none` for a state is the TypeError of a property of
-- undefined.
use cs564_project.Prelude.{
  ℕ, ◌+◌, ◌-◌, List, [], ◌∷◌, ◌++◌, Option, none, some, Bool, true, false, ◌&&◌, ◌||◌, ◌==◌, not,
  ltb, if◌then◌else◌,
}
use cs564_project.Search.Text.{Text, codes, text_eq, to_lower, to_hex, strip_leading, strip_all}
use cs564_project.Search.Page.{Display, unset, block, inline, hidden, is_block}
use cs564_project.Search.Escape.{escape}
use cs564_project.Search.Index.{
  index_sections_with_content, index_section_names, section_at, has_content,
}

-- A child of the window of the filters: whether its class is SelectItem, and whether its mark is the
-- bullet.
pub record SelectChild : Type 0 where
  pub is_item : Bool
  pub marked : Bool

pub data Focus : Type 0 where
  on_field : Focus
  on_select_child : ℕ → Focus
  on_result : Focus
  elsewhere : Focus

pub record SearchBox : Type 0 where
  pub results_path : Text
  pub key_timer : Bool
  pub hide_timer : Bool
  pub last_search_value : Text
  pub last_results_page : Text
  pub search_index : ℕ
  pub search_active : Bool
  pub inside_frame : Bool
  pub search_label : Text
  pub field : Text
  pub select_window : List SelectChild
  pub select_display : Display
  pub results_display : Display
  pub close_display : Display
  pub box_active : Bool
  pub location : Text
  pub focus : Focus

-- The constructor, on a document whose results have not been shown yet and whose window of filters
-- is `window`.
unfoldable pub new_search_box :
    (results_path : Text) (in_frame : Bool) (label : Text) → List SelectChild → SearchBox
new_search_box results_path in_frame label window = record {
  results_path = results_path;
  key_timer = false;
  hide_timer = false;
  last_search_value = [];
  last_results_page = [];
  search_index = 0;
  search_active = false;
  inside_frame = in_frame;
  search_label = label;
  field = label;
  select_window = window;
  select_display = unset;
  results_display = unset;
  close_display = unset;
  box_active = false;
  location = [];
  focus = elsewhere;
}

abbrev pub is_empty : Text → Bool
is_empty [] = true
is_empty (c ∷ s) = false

-- OnSearchSelectShow, but for the position of the window.
unfoldable pub on_search_select_show : SearchBox → SearchBox
on_search_select_show b = record b { select_display = block; hide_timer = false }

unfoldable pub on_search_select_hide : SearchBox → SearchBox
on_search_select_hide b = record b { hide_timer = true }

unfoldable pub close_selection_window : SearchBox → SearchBox
close_selection_window b = record b { select_display = hidden }

unfoldable pub activate : Bool → SearchBox → SearchBox
activate is_active b =
    if is_active || is_block b.results_display
    then (if text_eq b.field b.search_label
        then record b { box_active = true; field = []; search_active = true }
        else record b { box_active = true })
    else record b {
      box_active = false;
      field = b.search_label;
      search_active = false;
      last_search_value = [];
      last_results_page = [];
    }

unfoldable pub on_search_field_focus : Bool → SearchBox → SearchBox
on_search_field_focus is_active b = activate is_active b

-- The two assignments that hide the results.
unfoldable pub hide_results : SearchBox → SearchBox
hide_results b = record b { results_display = hidden; close_display = hidden }

unfoldable pub close_results_window : SearchBox → SearchBox
close_results_window b = activate false (hide_results b)

-- `charCodeAt(0)`: `none` is NaN.
unfoldable pub first_code : Text → Option ℕ
first_code [] = none
first_code (c ∷ s) = some c

-- The two digits at least of `code.toString(16)`.
unfoldable pub hex_code : Option ℕ → Text
hex_code none = codes "NaN"
hex_code (some c) = if ltb c 16 then codes "0" ++ to_hex c else to_hex c

-- `charAt(code) == '1'`; `charAt(NaN)` is `charAt(0)`.
unfoldable pub content_at : List ℕ → Option ℕ → Bool
content_at section none = has_content section 0
content_at section (some c) = has_content section c

-- The page of Search, and that page with the query.
unfoldable pub results_page : Text → Text → Option ℕ → Text
results_page path name code =
    path ++ codes "/" ++ name ++ codes "_" ++ hex_code code ++ codes ".html"

unfoldable pub no_matches_page : Text → Text
no_matches_page path = path ++ codes "/nomatches.html"

-- The end of Search: the frame goes to the page, and the results are shown if they are not.
unfoldable pub open_results : Text → Text → Text → SearchBox → SearchBox
open_results value page location b = record b {
  location = location;
  results_display = block;
  close_display = if is_block b.results_display then b.close_display else inline;
  last_search_value = value;
  last_results_page = page;
}

unfoldable pub search_section : Text → List ℕ → Text → SearchBox → SearchBox
search_section value section name b =
    let code = first_code (to_lower value) in
    let page = results_page b.results_path name code in
    let missing = no_matches_page b.results_path in
    if content_at section code
    then open_results value page (page ++ codes "?" ++ escape value) b
    else open_results value missing missing b

-- Search: a section that is not there is a TypeError.
unfoldable pub search : SearchBox → Option SearchBox
search b = elim (section_at index_sections_with_content b.search_index) [
  | none ↦ none
  | some section ↦ elim (section_at index_section_names b.search_index) [
    | none ↦ none
    | some name ↦
        some (search_section (strip_leading b.field) section name (record b { key_timer = false }))
  ]
]

unfoldable pub count_items : List SelectChild → ℕ
count_items [] = 0
count_items (c ∷ cs) = (if c.is_item then 1 else 0) + count_items cs

unfoldable pub select_item_count : SearchBox → ℕ
select_item_count b = count_items b.select_window

-- The loop of SelectItemSet, whose counter is `j`.
unfoldable pub mark_items : ℕ → ℕ → List SelectChild → List SelectChild
mark_items id j [] = []
mark_items id j (c ∷ cs) =
    (if c.is_item then record c { marked = j == id } else c)
    ∷ mark_items id (if c.is_item then j + 1 else j) cs

unfoldable pub select_item_set : ℕ → SearchBox → SearchBox
select_item_set id b = record b { select_window = mark_items id 0 b.select_window }

unfoldable pub on_select_item : ℕ → SearchBox → Option SearchBox
on_select_item id b =
    let next = select_item_set id (record b { search_index = id }) in
    if not (is_empty (strip_all next.field)) && next.search_active then search next else some next

-- The last branch of OnSearchSelectKey.
unfoldable pub close_selection : Option SearchBox → Option SearchBox
close_selection none = none
close_selection (some b) = some (record (close_selection_window b) { focus = on_field })

unfoldable pub on_search_select_key : ℕ → SearchBox → Option SearchBox
on_search_select_key key b =
    if key == 40 && ltb b.search_index (select_item_count b)
    then on_select_item (b.search_index + 1) (record b { search_index = b.search_index + 1 })
    else if key == 38 && ltb 0 b.search_index
    then on_select_item (b.search_index - 1) (record b { search_index = b.search_index - 1 })
    else if key == 13 || key == 27
    then close_selection (on_select_item b.search_index b)
    else some b
