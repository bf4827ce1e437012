-- ===== src/Search/Field.antt =====
-- docs/search/search.js: what the search field does on a key.
use cs564_project.Prelude.{
  ℕ, ◌+◌, List, [], ◌∷◌, Option, none, some, Bool, true, false, ◌||◌, ◌==◌, not, if◌then◌else◌,
}
use cs564_project.Search.Text.{text_eq, strip_all}
use cs564_project.Search.Box.{
  SearchBox, SelectChild, Focus, on_field, on_select_child, on_result, elsewhere, is_empty,
  on_search_select_show, hide_results, activate,
}

-- The loop that focuses the first item of the window of the filters.
unfoldable pub first_item : ℕ → List SelectChild → Option ℕ
first_item i [] = none
first_item i (c ∷ cs) = if c.is_item then some i else first_item (i + 1) cs

abbrev pub focus_select_child : Option ℕ → SearchBox → SearchBox
focus_select_child none b = b
focus_select_child (some i) b = record b { focus = on_select_child i }

abbrev pub blurred : Focus → Focus
blurred on_field = elsewhere
blurred f = f

-- The branch of Escape.
unfoldable pub escape_field : SearchBox → SearchBox
escape_field b =
    activate false
      (record (hide_results (record b { focus = blurred b.focus })) { last_search_value = [] })

-- The end of OnSearchFieldChange: a changed value starts the timer, or hides the results if it is
-- blank.
unfoldable pub compare_value : SearchBox → SearchBox
compare_value b =
    let value = strip_all b.field in
    if text_eq value b.last_search_value
    then b
    else if not (is_empty value)
    then record b { key_timer = true }
    else record (hide_results b) { last_search_value = [] }

-- OnSearchFieldChange; `found` says whether the frame has results, of which one is shown.
unfoldable pub on_search_field_change : (key : ℕ) (shift found : Bool) → SearchBox → SearchBox
on_search_field_change key shift found b =
    let stopped = record b { key_timer = false } in
    if key == 40 || key == 13
    then (if shift
        then focus_select_child (first_item 0 b.select_window) (on_search_select_show stopped)
        else compare_value (if found then record stopped { focus = on_result } else stopped))
    else if key == 27
    then escape_field stopped
    else compare_value stopped
