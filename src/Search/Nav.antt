-- ===== src/Search/Nav.antt =====
-- docs/search/search.js: moving about a page of results by keys. An index of an item is that of its
-- row; `none` for a state is the TypeError of a property of null.
use cs564_project.Prelude.{
  ℕ, zero, suc, ◌+◌, ◌-◌, List, [], ◌∷◌, Option, none, some, Bool, true, false, ◌==◌, not, ltb,
  if◌then◌else◌, length,
}
use cs564_project.Search.Text.{Text, text_eq}
use cs564_project.Search.Page.{Display, block, hidden, is_block, Link, Children, Row, Results}

unfoldable pub row_at : List Row → ℕ → Option Row
row_at [] i = none
row_at (r ∷ rs) zero = some r
row_at (r ∷ rs) (suc i) = row_at rs i

-- The loop of NavNext from a row on: the first row that is shown, if there is one before the end.
unfoldable pub nav_next_from : List Row → ℕ → Option ℕ
nav_next_from [] i = none
nav_next_from (r ∷ rs) i = if is_block r.display then some i else nav_next_from rs (i + 1)

unfoldable pub drop : ℕ → List Row → List Row
drop zero rs = rs
drop (suc n) [] = []
drop (suc n) (r ∷ rs) = drop n rs

unfoldable pub nav_next : Results → ℕ → Option ℕ
nav_next page i = nav_next_from (drop i page.rows) i

-- The loop of NavPrev, from index `k - 1` down; at `k = 0` the element `Item-1` is not there.
unfoldable pub nav_prev_below : List Row → ℕ → Option ℕ
nav_prev_below rs zero = none
nav_prev_below rs (suc i) = elim (row_at rs i) [
  | none ↦ none
  | some r ↦ if is_block r.display then some i else nav_prev_below rs i
]

unfoldable pub nav_prev : Results → ℕ → Option ℕ
nav_prev page k = nav_prev_below page.rows k

-- `getElementById` of the id of a row: the first row that has it. Two rows can have the same.
unfoldable pub row_by_id : List Row → Text → Option Row
row_by_id [] id = none
row_by_id (r ∷ rs) id = if text_eq r.id id then some r else row_by_id rs id

-- FindChildElement of that id.
unfoldable pub children_by_id : Results → Text → Option Children
children_by_id page id = elim (row_by_id page.rows id) [ none ↦ none | some r ↦ r.children ]

-- FindChildElement of the id of the row of item `i`.
unfoldable pub children_of : Results → ℕ → Option Children
children_of page i = elim (row_at page.rows i) [ none ↦ none | some r ↦ children_by_id page r.id ]

-- The children in row `i` itself, whose elements have the ids `Item<i>_c<n>`.
unfoldable pub own_children : Results → ℕ → Option Children
own_children page i = elim (row_at page.rows i) [ none ↦ none | some r ↦ r.children ]

unfoldable pub shown_children : Results → ℕ → Option (List Link)
shown_children page i = elim (children_of page i) [
  | none ↦ none
  | some c ↦ if is_block c.display then some c.links else none
]

unfoldable pub update_by_id : (Row → Row) → Text → List Row → List Row
update_by_id f id [] = []
update_by_id f id (r ∷ rs) = if text_eq r.id id then f r ∷ rs else r ∷ update_by_id f id rs

unfoldable pub show_children : Display → Row → Row
show_children d r = elim r.children [
  | none ↦ r
  | some c ↦ record r { children = some (record c { display = d }) }
]

-- The assignment to `style.display` of the children that FindChildElement finds by an id, if any.
unfoldable pub show_by_id : Results → Text → Display → Results
show_by_id page id d = record page { rows = update_by_id (show_children d) id page.rows }

-- The same by the id of the row of item `i`.
unfoldable pub set_children : Results → ℕ → Display → Results
set_children page i d = elim (row_at page.rows i) [ none ↦ page | some r ↦ show_by_id page r.id d ]

abbrev pub is_displayed : Option Children → Bool
is_displayed none = false
is_displayed (some c) = is_block c.display

-- Toggle: children that are shown are hidden, and the other way round.
unfoldable pub toggle : Results → Text → Option Results
toggle page id = elim (row_by_id page.rows id) [
  | none ↦ none
  | some r ↦ some (show_by_id page id (if is_displayed r.children then hidden else block))
]

pub data EventType : Type 0 where
  keydown keypress keyup other_event : EventType

pub record KeyEvent : Type 0 where
  pub type : EventType
  pub key_code : ℕ

-- ProcessKeys: the new state, and whether the event is to be acted upon.
unfoldable pub process_keys : KeyEvent → Results → Results × Bool
process_keys e page = elim e.type [
  | keydown ↦ (record page { repeat_on = false; last_key = e.key_code }, not (e.key_code == 0))
  | keypress ↦
      if page.repeat_on
      then (page, not (page.last_key == 0))
      else (record page { repeat_on = not (page.last_key == 0) }, false)
  | keyup ↦ (record page { last_key = 0; repeat_on = false }, false)
  | other_event ↦ (page, not (page.last_key == 0))
]

-- What a handler does outside the page: it moves the focus, or closes the panel of the parent.
pub data Effect : Type 0 where
  focus_item : ℕ → Effect
  focus_child : ℕ → ℕ → Effect
  focus_search_field : Effect
  close_results_window : Effect

pub record Reply : Type 0 where
  pub page : Results
  pub effects : List Effect
  pub value : Bool

abbrev pub reply : Results → List Effect → Bool → Reply
reply page effects value = record { page = page; effects = effects; value = value }

-- How many elements `Item<i>_c<n>` there are.
unfoldable pub child_count : Results → ℕ → ℕ
child_count page i = elim (own_children page i) [ none ↦ 0 | some c ↦ length c.links ]

-- The loop of Up that looks for the last child: it asks for the children of row `i`, and falls back
-- on the item `j` that NavPrev found.
unfoldable pub last_child : ℕ → ℕ → ℕ → Effect
last_child i j zero = focus_item j
last_child i j (suc n) = focus_child i n

-- Up from item `i`.
unfoldable pub up_target : Results → ℕ → Effect
up_target page i = elim (nav_prev page i) [
  | none ↦ focus_search_field
  | some j ↦ elim (shown_children page j) [
    | none ↦ focus_item j
    | some _ ↦ last_child (i - 1) j (child_count page (i - 1))
  ]
]

abbrev pub focus_next : Option ℕ → List Effect
focus_next none = []
focus_next (some j) = focus_item j ∷ []

-- Down from item `i`, which is there.
unfoldable pub down_targets : Results → ℕ → List Effect
down_targets page i = elim (shown_children page i) [
  | none ↦ focus_next (nav_next page (i + 1))
  | some [] ↦ focus_next (nav_next page (i + 1))
  | some (l ∷ ls) ↦ focus_child i 0 ∷ []
]

abbrev pub if_present : Option Row → Reply → Option Reply
if_present none r = none
if_present (some row) r = some r

-- The branches of Nav behind ProcessKeys, on `lastKey`.
unfoldable pub nav_key : Results → ℕ → Option Reply
nav_key page i =
    let here = row_at page.rows i in
    if page.last_key == 38
    then some (reply page (up_target page i ∷ []) false)
    else if page.last_key == 40
    then if_present here (reply page (down_targets page i) false)
    else if page.last_key == 39
    then if_present here (reply (set_children page i block) [] false)
    else if page.last_key == 37
    then if_present here (reply (set_children page i hidden) [] false)
    else if page.last_key == 27
    then some (reply page (close_results_window ∷ focus_search_field ∷ []) false)
    else some (reply page [] (page.last_key == 13))

unfoldable pub nav : KeyEvent → ℕ → Results → Option Reply
nav e i page =
    if e.key_code == 13
    then some (reply page [] true)
    else (let (next, act) = process_keys e page in
        if act then nav_key next i else some (reply next [] false))

-- The branches of NavChild behind ProcessKeys, at child `c` of item `i`.
unfoldable pub nav_child_key : Results → ℕ → ℕ → Reply
nav_child_key page i c =
    if page.last_key == 38
    then reply page ((if ltb 0 c then focus_child i (c - 1) else focus_item i) ∷ []) false
    else if page.last_key == 40
    then reply page
        (if ltb (c + 1) (child_count page i)
          then focus_child i (c + 1) ∷ []
          else focus_next (nav_next page (i + 1)))
        false
    else if page.last_key == 27
    then reply page (close_results_window ∷ focus_search_field ∷ []) false
    else reply page [] (page.last_key == 13)

-- The event comes from the element, which is there.
unfoldable pub nav_child : KeyEvent → ℕ → ℕ → Results → Reply
nav_child e i c page =
    if e.key_code == 13
    then reply page [] true
    else (let (next, act) = process_keys e page in
        if act then nav_child_key next i c else reply next [] false)
