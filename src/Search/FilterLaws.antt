-- ===== src/Search/FilterLaws.antt =====
-- The window of the filters of docs/search/search.js.
use cs564_project.Prelude.{
  ℕ, zero, suc, ◌+◌, ◌<◌, ◌≡◌, refl, inl, inr, List, [], ◌∷◌, none, Bool, true, false, ◌==◌,
  if◌then◌else◌, arith, Bool-cases, get_or,
}
use cs564_project.Search.Text.{strip_all}
use cs564_project.Search.Box.{
  SearchBox, SelectChild, is_empty, select_item_count, count_items, mark_items, select_item_set,
  on_select_item, on_search_select_key,
}
use cs564_project.Search.BoxLaws.{sections, search-none}

count-mark_items :
    (id j : ℕ) (cs : List SelectChild) → count_items (mark_items id j cs) ≡ count_items cs
unfolding count_items mark_items
count-mark_items id j [] = refl
count-mark_items id j (c ∷ cs) =
    ground (arith, count-mark_items id (j + 1) cs, count-mark_items id j cs)

-- Down on the last of the filters throws a TypeError, where there are as many filters as sections and
-- the search field is active and not blank.
pub down_past_last :
    (b : SearchBox)
    → select_item_count b ≡ sections
    → b.search_index + 1 ≡ sections
    → b.search_active ≡ true
    → is_empty (strip_all b.field) ≡ false
    → on_search_select_key 40 b ≡ none
unfolding on_search_select_key on_select_item select_item_set
down_past_last b items last active value =
    let next : SearchBox =
      select_item_set (b.search_index + 1) (record b { search_index = b.search_index + 1 }) in
    ground (arith, search-none next)

-- The marks of the items of the window.
abbrev pub item_marks : List SelectChild → List Bool
item_marks [] = []
item_marks (c ∷ cs) = if c.is_item then c.marked ∷ item_marks cs else item_marks cs

item_marks-mark_items :
    (id j k : ℕ) (cs : List SelectChild)
    → k < count_items cs
    → get_or (item_marks (mark_items id j cs)) k false ≡ (j + k == id)
unfolding mark_items count_items get_or
item_marks-mark_items id j k [] h = absurd (omega arith)
item_marks-mark_items id j zero (c ∷ cs) h = elim (Bool-cases c.is_item) [
  | inl e ↦ ground arith
  | inr e ↦ ground (arith, item_marks-mark_items id j 0 cs)
]
item_marks-mark_items id j (suc k) (c ∷ cs) h = elim (Bool-cases c.is_item) [
  | inl e ↦ ground (arith, item_marks-mark_items id (j + 1) k cs)
  | inr e ↦ ground (arith, item_marks-mark_items id j (suc k) cs)
]

-- Setting item `id` of the window of the filters marks that item and no other.
pub select_item_set_marks :
    (b : SearchBox) (id k : ℕ)
    → k < select_item_count b
    → get_or (item_marks (select_item_set id b).select_window) k false ≡ (k == id)
unfolding select_item_set select_item_count
select_item_set_marks b id k h =
    let from_zero : 0 + k ≡ k = omega arith in
    rw (item_marks-mark_items id 0 k b.select_window h, from_zero) refl
