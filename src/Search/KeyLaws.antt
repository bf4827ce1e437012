-- ===== src/Search/KeyLaws.antt =====
-- What the keys do on a page of results of docs/search/search.js.
use cs564_project.Prelude.{
  ℕ, zero, suc, ◌+◌, ◌-◌, ◌<◌, ◌≤◌, ◌≡◌, refl, ◌≢◌, ◌⊎◌, inl, inr, List, [], ◌∷◌, Option, none,
  some, Bool, true, false, ◌==◌, ltb, if◌then◌else◌, arith, length, replicate, Bool-cases,
  Option-cases, ap, sym,
}
use cs564_project.Search.Text.{Text, text_eq}
use cs564_project.Search.Page.{Display, block, hidden, is_block, Link, Children, Row, Results}
use cs564_project.Search.Nav.{
  nav_next, nav_prev, shown_children, own_children, children_by_id, row_by_id, update_by_id,
  show_children, show_by_id, toggle, keydown, keypress, KeyEvent, process_keys, focus_item,
  focus_child, child_count, last_child, up_target, down_targets,
}
use cs564_project.Search.NavLaws.{is_shown, nav_next_cases, nav_prev_cases}

-- Which of the events in a list are acted upon.
abbrev pub acted : List KeyEvent → Results → List Bool
acted [] page = []
acted (e ∷ es) page = let (next, act) = process_keys e page in act ∷ acted es next

abbrev pub presses : List ℕ → List KeyEvent
presses [] = []
presses (code ∷ codes) = record { type = keypress; key_code = code } ∷ presses codes

acted-presses :
    (codes : List ℕ) (page : Results)
    → page.repeat_on ≡ true
    → (page.last_key == 0) ≡ false
    → acted (presses codes) page ≡ replicate (length codes) true
unfolding process_keys replicate
acted-presses [] page on key = refl
acted-presses (c ∷ cs) page on key = simp (on, key, acted-presses cs page on key) refl

-- When a key whose code is not 0 goes down, that event is acted upon; of the presses that it repeats, the first is not,
-- and all further ones are.
pub repeated_key :
    (key first : ℕ) (codes : List ℕ) (page : Results)
    → key ≢ 0
    → acted (record { type = keydown; key_code = key } ∷ presses (first ∷ codes)) page
      ≡ true ∷ false ∷ replicate (length codes) true
unfolding process_keys
repeated_key key first codes page h =
    let some_key : (key == 0) ≡ false = ground arith in
    rw (some_key) (
      rw (acted-presses codes (record page { repeat_on = true; last_key = key }) refl some_key)
        refl)

-- The first row of an id, and what a change of it leaves.
row_by_id-update :
    (f : Row → Row) (id : Text) (rs : List Row) (r : Row)
    → row_by_id rs id ≡ some r
    → ((q : Row) → (f q).id ≡ q.id)
    → row_by_id (update_by_id f id rs) id ≡ some (f r)
unfolding row_by_id update_by_id
row_by_id-update f id [] r h keeps = absurd (ground arith)
row_by_id-update f id (q ∷ rs) r h keeps = elim (Bool-cases (text_eq q.id id)) [
  | inl mine ↦
      let same : q ≡ r = ground arith in
      let still : text_eq (f q).id id ≡ true = rw (keeps q) mine in
      rw (update_by_id, mine) (rw (row_by_id, still) (ap (λ x. some (f x)) same))
  | inr other ↦
      let later : row_by_id rs id ≡ some r = ground arith in
      rw (update_by_id, other) (rw (row_by_id, other) (row_by_id-update f id rs r later keeps))
]

show_children-none :
    (d : Display) (q : Row) (o : Option Children)
    → q.children ≡ o
    → o ≡ none
    → show_children d q ≡ q
unfolding show_children
show_children-none d q none e h = simp (show_children, e) refl
show_children-none d q (some c) e h = absurd (ground arith)

update_by_id-childless :
    (d : Display) (id : Text) (rs : List Row) (r : Row)
    → row_by_id rs id ≡ some r
    → r.children ≡ none
    → update_by_id (show_children d) id rs ≡ rs
unfolding row_by_id update_by_id show_children
update_by_id-childless d id [] r h none_there = absurd (ground arith)
update_by_id-childless d id (q ∷ rs) r h none_there = elim (Bool-cases (text_eq q.id id)) [
  | inl mine ↦
      let same : q ≡ r = ground arith in
      let alone : q.children ≡ none = rw same none_there in
      rw (update_by_id, mine) (ap (λ x. x ∷ rs) (show_children-none d q q.children refl alone))
  | inr other ↦
      let later : row_by_id rs id ≡ some r = ground arith in
      rw (update_by_id, other) (ap (λ x. q ∷ x) (update_by_id-childless d id rs r later none_there))
]

show_children-id : (d : Display) (q : Row) → (show_children d q).id ≡ q.id
unfolding show_children
show_children-id d q = elim (Option-cases q.children) [
  | inl gone ↦ rw (show_children, gone) refl
  | inr (c, there) ↦ rw (show_children, there) refl
]

-- What Toggle makes of the children of a row.
abbrev pub flipped : Option Children → Option Children
flipped none = none
flipped (some c) = some (record c { display = if is_block c.display then hidden else block })

-- Toggle of an id acts on the children of the first row that has it: they are hidden if they were
-- shown, and shown otherwise. Where that row has none, nothing changes, also if a later row of the
-- same id has children.
pub toggle_first :
    (page : Results) (id : Text) (r : Row)
    → row_by_id page.rows id ≡ some r
    → (next : Results) × (toggle page id ≡ some next)
      × (children_by_id next id ≡ flipped r.children)
      × (((c : Children) × (r.children ≡ some c)) ⊎ (next ≡ page))
unfolding toggle show_by_id children_by_id show_children
toggle_first page id r h = elim (Option-cases r.children) [
  | inl alone ↦
      let same = update_by_id-childless block id page.rows r h alone in
      (page, rw (toggle, h, alone, same) refl, rw (children_by_id, h) (ground arith), inr refl)
  | inr (c, there) ↦
      let d : Display = if is_block c.display then hidden else block in
      let first = row_by_id-update (show_children d) id page.rows r h (show_children-id d) in
      (
        show_by_id page id d,
        rw (toggle, h, there) refl,
        rw (children_by_id, first, show_children, there) refl,
        inl (c, there),
      )
]

row_at-length : (rs : List Row) (i : ℕ) → is_shown rs i ≡ true → i < length rs
row_at-length [] i h = absurd (ground arith)
row_at-length (r ∷ rs) zero h = omega arith
row_at-length (r ∷ rs) (suc i) h = ground (arith, row_at-length rs i h)

-- Nothing is shown between `i` and `j` nor between `q` and `j`, and `i` and `q` are shown.
between :
    (i q j : ℕ) (rs : List Row)
    → is_shown rs i ≡ true
    → is_shown rs q ≡ true
    → i < j
    → q < j
    → ((k : ℕ) → i + 1 ≤ k → k < j → is_shown rs k ≡ false)
    → ((k : ℕ) → q < k → k < j → is_shown rs k ≡ false)
    → q ≡ i
between i q j rs here there h k f g = elim (Bool-cases (ltb i q)) [
  | inl e ↦ absurd (ground (arith, f q))
  | inr e ↦ elim (Bool-cases (ltb q i)) [
    | inl e' ↦ absurd (ground (arith, g i))
    | inr e' ↦ ground arith
  ]
]

-- Down from a row that is shown, where FindChildElement gives no children that are shown, goes to the next row that is shown, if
-- there is one, and Up from there comes back.
pub down_up :
    (page : Results) (i j : ℕ)
    → is_shown page.rows i ≡ true
    → shown_children page i ≡ none
    → nav_next page (i + 1) ≡ some j
    → (down_targets page i ≡ focus_item j ∷ []) × (up_target page j ≡ focus_item i)
unfolding down_targets up_target
down_up page i j here alone next = elim (nav_next_cases page (i + 1)) [
  | inl (n, _) ↦ absurd (ground arith)
  | inr (j', n, l, s, f) ↦
      let same : j' ≡ j = ground arith in
      let later : (k : ℕ) → i + 1 ≤ k → k < j → is_shown page.rows k ≡ false =
        λ k a b. f k a (omega arith) in
      let inside : j < length page.rows = rw (sym same) (row_at-length page.rows j' s) in
      elim (nav_prev_cases page j (omega arith)) [
        | inl (p, g) ↦ absurd (ground (arith, g i))
        | inr (q, p, m, t, g) ↦
            let back : q ≡ i = between i q j page.rows here t (omega arith) m later g in
            (
              rw (down_targets, alone, next) refl,
              rw (up_target, p, back, alone) (ap focus_item back),
            )
      ]
]

last_child-suc : (i j n : ℕ) → 0 < n → last_child i j n ≡ focus_child i (n - 1)
unfolding last_child
last_child-suc i j zero h = absurd (omega arith)
last_child-suc i j (suc n) h = ap (focus_child i) (omega arith)

-- Up from item `i`, when the next shown row above is `j`, FindChildElement gives children that are
-- shown for the id of that row, and the row directly above `i` is another one and has children: that
-- row is hidden, and the focus still goes to the last of its children, not of those of `j`.
pub up_over_hidden :
    (page : Results) (i j : ℕ) (ls : List Link) (c : Children)
    → i ≤ length page.rows
    → nav_prev page i ≡ some j
    → j + 1 < i
    → shown_children page j ≡ some ls
    → own_children page (i - 1) ≡ some c
    → 0 < length c.links
    → (is_shown page.rows (i - 1) ≡ false)
      × (up_target page i ≡ focus_child (i - 1) (length c.links - 1))
unfolding up_target child_count
up_over_hidden page i j ls c inside prev apart shown above some_links = (
  elim (nav_prev_cases page i inside) [
    | inl (n, _) ↦ absurd (ground arith)
    | inr (q, p, m, t, g) ↦ let same : q ≡ j = ground arith in g (i - 1) (omega arith) (omega arith)
  ],
  rw (up_target, prev, shown, child_count, above)
      (last_child-suc (i - 1) j (length c.links) some_links),
)
