-- ===== src/Search/Panel.antt =====
-- docs/search/search.js: the handlers of SearchBox one after the other, and its button to close.
use cs564_project.Prelude.{
  ℕ, List, [], ◌∷◌, Option, none, some, Bool, true, false, ◌≡◌, refl, inl, inr, ◌&&◌, ◌||◌, ◌==◌,
  not, ltb, arith, Bool-cases, Option-cases,
}
use cs564_project.Search.Text.{Text, strip_all, strip_leading, to_lower}
use cs564_project.Search.Page.{Display, inline, is_block}
use cs564_project.Search.Index.{index_sections_with_content, index_section_names, section_at}
use cs564_project.Search.Box.{
  SearchBox, SelectChild, new_search_box, is_empty, on_search_select_show, on_search_select_hide,
  close_selection_window, close_selection, activate, on_search_field_focus, hide_results,
  close_results_window, first_code, content_at, open_results, search_section, search,
  select_item_count, select_item_set, on_select_item, on_search_select_key,
}
use cs564_project.Search.Field.{
  first_item, focus_select_child, escape_field, compare_value, on_search_field_change,
}

-- A call of a handler or an action, or a change of the field by the user.
pub data Event : Type 0 where
  shows_filters hides_filters closes_filters closes_results searches : Event
  focuses : (is_active : Bool) → Event
  presses : (key : ℕ) (shift found : Bool) → Event
  picks : (key : ℕ) → Event
  selects : (id : ℕ) → Event
  types : Text → Event

abbrev pub handle : Event → SearchBox → Option SearchBox
handle shows_filters b = some (on_search_select_show b)
handle hides_filters b = some (on_search_select_hide b)
handle closes_filters b = some (close_selection_window b)
handle closes_results b = some (close_results_window b)
handle searches b = search b
handle (focuses is_active) b = some (on_search_field_focus is_active b)
handle (presses key shift found) b = some (on_search_field_change key shift found b)
handle (picks key) b = on_search_select_key key b
handle (selects id) b = on_select_item id b
handle (types text) b = some (record b { field = text })

abbrev pub handle_all : List Event → Option SearchBox → Option SearchBox
handle_all es none = none
handle_all [] (some b) = some b
handle_all (e ∷ es) (some b) = handle_all es (handle e b)

abbrev pub is_inline : Display → Bool
is_inline inline = true
is_inline _ = false

-- The button to close stands exactly beside results that are shown.
abbrev pub Closable : SearchBox → Type 0
Closable b = is_inline b.close_display ≡ is_block b.results_display

-- Unless a TypeError was thrown.
abbrev pub Kept : Option SearchBox → Type 0
Kept none = Unit {0}
Kept (some b) = Closable b

activate-Closable : (a : Bool) (b : SearchBox) → Closable b → Closable (activate a b)
unfolding activate
activate-Closable a b h = ground arith

open_results-Closable :
    (value page location : Text) (b : SearchBox)
    → Closable b
    → Closable (open_results value page location b)
unfolding open_results
open_results-Closable value page location b h = ground arith

search_section-Closable :
    (value : Text) (section : List ℕ) (name : Text) (b : SearchBox)
    → Closable b
    → Closable (search_section value section name b)
unfolding search_section
search_section-Closable value section name b h =
    elim (Bool-cases (content_at section (first_code (to_lower value)))) [
      | inl e ↦ rw e (open_results-Closable value _ _ b h)
      | inr e ↦ rw e (open_results-Closable value _ _ b h)
    ]

search-Kept : (b : SearchBox) → Closable b → Kept (search b)
unfolding search
search-Kept b h = elim (Option-cases (section_at index_sections_with_content b.search_index)) [
  | inl gone ↦ rw (search, gone) tt
  | inr (section, e) ↦ elim (Option-cases (section_at index_section_names b.search_index)) [
    | inl gone ↦ rw (search, e, gone) tt
    | inr (name, e') ↦
        rw (search, e, e')
          (search_section-Closable (strip_leading b.field) section name
            (record b { key_timer = false }) h)
  ]
]

on_select_item-Kept : (id : ℕ) (b : SearchBox) → Closable b → Kept (on_select_item id b)
unfolding on_select_item select_item_set
on_select_item-Kept id b h =
    let next = select_item_set id (record b { search_index = id }) in
    elim (Bool-cases (not (is_empty (strip_all next.field)) && next.search_active)) [
      | inl e ↦ rw e (search-Kept next h)
      | inr e ↦ rw e h
    ]

close_selection-Kept : (o : Option SearchBox) → Kept o → Kept (close_selection o)
unfolding close_selection close_selection_window
close_selection-Kept none h = tt
close_selection-Kept (some b) h = h

on_search_select_key-Kept :
    (key : ℕ) (b : SearchBox) → Closable b → Kept (on_search_select_key key b)
unfolding on_search_select_key
on_search_select_key-Kept key b h =
    elim (Bool-cases (key == 40 && ltb b.search_index (select_item_count b))) [
      | inl e ↦ rw e (on_select_item-Kept _ _ h)
      | inr e ↦ elim (Bool-cases (key == 38 && ltb 0 b.search_index)) [
        | inl f ↦ rw (e, f) (on_select_item-Kept _ _ h)
        | inr f ↦ elim (Bool-cases (key == 13 || key == 27)) [
          | inl g ↦
              rw (e, f, g)
                (close_selection-Kept (on_select_item b.search_index b)
                  (on_select_item-Kept b.search_index b h))
          | inr g ↦ rw (e, f, g) h
        ]
      ]
    ]

compare_value-Closable : (b : SearchBox) → Closable b → Closable (compare_value b)
unfolding compare_value hide_results
compare_value-Closable b h = ground arith

focus_select_child-Closable :
    (o : Option ℕ) (b : SearchBox) → Closable b → Closable (focus_select_child o b)
focus_select_child-Closable none b h = h
focus_select_child-Closable (some i) b h = h

on_search_field_change-Closable :
    (key : ℕ) (shift found : Bool) (b : SearchBox)
    → Closable b
    → Closable (on_search_field_change key shift found b)
unfolding on_search_field_change on_search_select_show escape_field hide_results
on_search_field_change-Closable key shift found b h = elim (Bool-cases (key == 40 || key == 13)) [
  | inl e ↦ elim (Bool-cases shift) [
    | inl f ↦ rw (e, f) (focus_select_child-Closable (first_item 0 b.select_window) _ h)
    | inr f ↦ elim (Bool-cases found) [
      | inl g ↦ rw (e, f, g) (compare_value-Closable _ h)
      | inr g ↦ rw (e, f, g) (compare_value-Closable _ h)
    ]
  ]
  | inr e ↦ elim (Bool-cases (key == 27)) [
    | inl f ↦ rw (e, f) (activate-Closable false _ refl)
    | inr f ↦ rw (e, f) (compare_value-Closable _ h)
  ]
]

handle-Kept : (e : Event) (b : SearchBox) → Closable b → Kept (handle e b)
unfolding on_search_select_show on_search_select_hide close_selection_window close_results_window
    hide_results on_search_field_focus
handle-Kept shows_filters b h = h
handle-Kept hides_filters b h = h
handle-Kept closes_filters b h = h
handle-Kept closes_results b h = activate-Closable false (hide_results b) refl
handle-Kept searches b h = search-Kept b h
handle-Kept (focuses is_active) b h = activate-Closable is_active b h
handle-Kept (presses key shift found) b h = on_search_field_change-Closable key shift found b h
handle-Kept (picks key) b h = on_search_select_key-Kept key b h
handle-Kept (selects id) b h = on_select_item-Kept id b h
handle-Kept (types text) b h = h

handle_all-Kept : (es : List Event) (o : Option SearchBox) → Kept o → Kept (handle_all es o)
handle_all-Kept es none h = tt
handle_all-Kept [] (some b) h = h
handle_all-Kept (e ∷ es) (some b) h = handle_all-Kept es (handle e b) (handle-Kept e b h)

-- From the constructor on, after any calls of the handlers and actions and any changes of the field,
-- as long as none throws a TypeError: the button to close the results is displayed exactly if the
-- results are.
pub handle_all-Closable :
    (results_path label : Text) (in_frame : Bool) (window : List SelectChild) (es : List Event)
    → Kept (handle_all es (some (new_search_box results_path in_frame label window)))
unfolding new_search_box
handle_all-Closable results_path label in_frame window es =
    handle_all-Kept es (some (new_search_box results_path in_frame label window)) refl
