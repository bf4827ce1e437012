-- ===== src/Search/Page.antt =====
-- docs/search/search.js: a page of results. createResults builds the rows from the index data of
-- docs/search/*.js, and Search shows those that match. Of the document the model keeps what the
-- script reads and writes; an element id `Item3` or `Item3_c1` is the value that it prints.
use cs564_project.Prelude.{
  ℕ, ◌+◌, List, [], ◌∷◌, ◌++◌, Option, none, some, Bool, true, false, ◌==◌, if◌then◌else◌,
}
use cs564_project.Search.Text.{
  Text, codes, convert_to_id, to_lower, strip_leading, strip_trailing, strip_sr, is_prefix,
}

-- `style.display`: empty, 'block' or 'none'.
pub data Display : Type 0 where
  unset block inline hidden : Display

abbrev pub is_block : Display → Bool
is_block block = true
is_block _ = false

-- A target of an entry of `searchData`: the address, whether it opens in the parent frame, and the
-- scope.
pub record Target : Type 0 where
  pub href : Text
  pub in_parent : Bool
  pub scope : Text

pub record Entry : Type 0 where
  pub id : Text
  pub symbol : Text
  pub targets : List Target

pub data ElementId : Type 0 where
  item : ℕ → ElementId
  child : ℕ → ℕ → ElementId

-- An address is one of the data, or the script that toggles the children of a row.
pub data Href : Type 0 where
  address : Text → Href
  toggles : Text → Href

-- An `a` element; its id also fixes the `Nav` or `NavChild` call of its key actions.
pub record Link : Type 0 where
  pub id : ElementId
  pub href : Href
  pub in_parent : Bool
  pub text : Text

-- The `div` of class SRChildren.
pub record Children : Type 0 where
  pub display : Display
  pub links : List Link

-- The `div` of class SRResult.
pub record Row : Type 0 where
  pub id : Text
  pub display : Display
  pub link : Link
  pub scope : Option Text
  pub children : Option Children

-- The loop over the further targets of one entry.
unfoldable pub create_children : ℕ → ℕ → List Target → List Link
create_children e c [] = []
create_children e c (t ∷ ts) =
    record { id = child e c; href = address t.href; in_parent = t.in_parent; text = t.scope }
    ∷ create_children e (c + 1) ts

-- The body of the loop of `createResults`: one target is linked from the symbol itself, and any
-- other number stands in a list of children.
unfoldable pub create_row : ℕ → Text → Text → List Target → Row
create_row e id symbol (t ∷ []) = record {
  id = codes "SR_" ++ id;
  display = unset;
  link = record { id = item e; href = address t.href; in_parent = t.in_parent; text = symbol };
  scope = some t.scope;
  children = none;
}
create_row e id symbol ts = record {
  id = codes "SR_" ++ id;
  display = unset;
  link = record {
    id = item e;
    href = toggles (codes "SR_" ++ id);
    in_parent = false;
    text = symbol;
  };
  scope = none;
  children = some (record { display = unset; links = create_children e 0 ts });
}

unfoldable pub create_results : ℕ → List Entry → List Row
create_results e [] = []
create_results e (d ∷ ds) = create_row e d.id d.symbol d.targets ∷ create_results (e + 1) ds

-- The object `searchResults` and its document.
pub record Results : Type 0 where
  pub rows : List Row
  pub searching : Display
  pub no_matches : Display
  pub last_match_count : ℕ
  pub last_key : ℕ
  pub repeat_on : Bool

-- The page behind its scripts, before the call of Search.
unfoldable pub new_results : List Entry → Results
new_results entries = record {
  rows = create_results 0 entries;
  searching = unset;
  no_matches = hidden;
  last_match_count = 0;
  last_key = 0;
  repeat_on = false;
}

-- The text that the rows are compared with.
unfoldable pub search_id : Text → Text
search_id search = convert_to_id (to_lower (strip_trailing (strip_leading search)))

-- The test of the loop of Search.
unfoldable pub row_matches : Text → Row → Bool
row_matches id row = is_prefix id (strip_sr (to_lower row.id))

-- The loop of Search: the rows as they are displayed, and the count of matches.
unfoldable pub show_rows : Text → List Row → List Row
show_rows id [] = []
show_rows id (r ∷ rs) =
    record r { display = if row_matches id r then block else hidden } ∷ show_rows id rs

unfoldable pub count_matches : Text → List Row → ℕ
count_matches id [] = 0
count_matches id (r ∷ rs) = (if row_matches id r then 1 else 0) + count_matches id rs

-- Search; `text` is its argument, or the query of the address where that is empty.
unfoldable pub search : Text → Results → Results
search text page =
    let id = search_id text in
    let matches = count_matches id page.rows in
    record page {
      rows = show_rows id page.rows;
      searching = hidden;
      no_matches = if matches == 0 then block else hidden;
      last_match_count = matches;
    }
