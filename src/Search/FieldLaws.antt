-- ===== src/Search/FieldLaws.antt =====
-- What a key in the search field of docs/search/search.js does.
use cs564_project.Prelude.{ℕ, ◌<◌, ◌≡◌, ◌≢◌, some, Bool, true, false, arith}
use cs564_project.Search.Text.{text_eq, strip_all, strip_leading}
use cs564_project.Search.Box.{SearchBox, is_empty, search}
use cs564_project.Search.Field.{on_search_field_change, compare_value}
use cs564_project.Search.BoxLaws.{sections, search-Searched}

-- A search for a value with other spaces than leading ones succeeds and keeps the field, and the
-- next key behind it, other than Escape and without Shift, starts the timer again though the field
-- is the same.
pub unchanged_value_researched :
    (b : SearchBox) (key : ℕ) (found : Bool)
    → b.search_index < sections
    → text_eq (strip_all b.field) (strip_leading b.field) ≡ false
    → is_empty (strip_all b.field) ≡ false
    → key ≢ 27
    → (b' : SearchBox) × (search b ≡ some b')
      × (b'.field ≡ b.field)
      × ((on_search_field_change key false found b').key_timer ≡ true)
unfolding on_search_field_change compare_value
unchanged_value_researched b key found h spaces full k =
    let (section, name, c, _, _, run, s) = search-Searched b h in
    let field : c.field ≡ b.field = s.field in
    let value : c.last_search_value ≡ strip_leading b.field = s.value in
    let other : text_eq (strip_all c.field) c.last_search_value ≡ false =
      rw (field, value) spaces in
    let some_value : is_empty (strip_all c.field) ≡ false = rw (field) full in
    (c, run, field, ground arith)
