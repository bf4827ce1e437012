-- ===== src/Search/NavLaws.antt =====
-- What moving about a page of results of docs/search/search.js comes to.
use cs564_project.Prelude.{
  ℕ, zero, suc, ◌+◌, ◌-◌, ◌<◌, ◌≤◌, ◌≡◌, refl, ◌⊎◌, inl, inr, List, [], ◌∷◌, Option, none, some,
  Bool, true, false, ltb, arith, length, Bool-cases, ap,
}
use cs564_project.Search.Page.{is_block, Row, Results}
use cs564_project.Search.Nav.{row_at, nav_next_from, drop, nav_next, nav_prev_below, nav_prev}

-- Whether the row of an index is shown.
abbrev pub is_shown : List Row → ℕ → Bool
is_shown [] i = false
is_shown (r ∷ rs) zero = is_block r.display
is_shown (r ∷ rs) (suc i) = is_shown rs i

Nat-cases : (k : ℕ) → (k ≡ 0) ⊎ (0 < k)
Nat-cases zero = inl refl
Nat-cases (suc k) = inr (omega arith)

Below-cases : (i k : ℕ) → i < suc k → (i < k) ⊎ (i ≡ k)
Below-cases i k h = elim (Bool-cases (ltb i k)) [
  | inl e ↦ inl (ground arith)
  | inr e ↦ inr (ground arith)
]

is_shown-drop : (rs : List Row) (n k : ℕ) → is_shown (drop n rs) k ≡ is_shown rs (n + k)
unfolding drop
is_shown-drop rs zero k = ap (is_shown rs) (omega arith)
is_shown-drop [] (suc n) k = refl
is_shown-drop (r ∷ rs) (suc n) k =
    let next : suc (n + k) ≡ suc n + k = omega arith in
    rw (is_shown-drop rs n k) (ap (is_shown (r ∷ rs)) next)

-- Which row is the first shown one of a list that begins at index `i`.
pub data First (rs : List Row) (i : ℕ) : Option ℕ → Type 0 where
  no_first : ((k : ℕ) → is_shown rs k ≡ false) → First rs i none
  first_is :
      (m j : ℕ)
      → j ≡ i + m
      → is_shown rs m ≡ true
      → ((k : ℕ) → k < m → is_shown rs k ≡ false)
      → First rs i (some j)

hidden-cons :
    (r : Row) (rs : List Row) (k : ℕ)
    → is_block r.display ≡ false
    → is_shown rs (k - 1) ≡ false
    → is_shown (r ∷ rs) k ≡ false
hidden-cons r rs zero h f = h
hidden-cons r rs (suc k) h f = ground arith

First-skip :
    (r : Row) (rs : List Row) (i : ℕ) (o : Option ℕ)
    → is_block r.display ≡ false
    → First rs (i + 1) o
    → First (r ∷ rs) i o
First-skip r rs i none h (no_first f) = no_first λ k. hidden-cons r rs k h (f (k - 1))
First-skip r rs i (some j) h (first_is m _ e s f) = first_is (suc m) j (omega arith) s λ k l.
    elim (Nat-cases k) [ inl z ↦ rw (z) h | inr z ↦ hidden-cons r rs k h (f (k - 1) (omega arith)) ]

nav_next_from-First : (rs : List Row) (i : ℕ) → First rs i (nav_next_from rs i)
unfolding nav_next_from
nav_next_from-First [] i = no_first λ k. refl
nav_next_from-First (r ∷ rs) i = elim (Bool-cases (is_block r.display)) [
  | inl e ↦ rw (e) (first_is 0 i (omega arith) e λ k l. absurd (omega arith))
  | inr e ↦ rw (e) (First-skip r rs i (nav_next_from rs (i + 1)) e (nav_next_from-First rs (i + 1)))
]

hidden_from :
    (rs : List Row) (i k : ℕ) → i ≤ k → is_shown (drop i rs) (k - i) ≡ false → is_shown rs k ≡ false
hidden_from rs i k l f =
    let e : i + (k - i) ≡ k = omega arith in ground (arith, is_shown-drop rs i (k - i))

next_cases :
    (rs : List Row) (i : ℕ) (o : Option ℕ)
    → First (drop i rs) i o
    → ((o ≡ none) × ((k : ℕ) → i ≤ k → is_shown rs k ≡ false))
      ⊎ ((j : ℕ) × (o ≡ some j)
          × (i ≤ j)
          × (is_shown rs j ≡ true)
          × ((k : ℕ) → i ≤ k → k < j → is_shown rs k ≡ false))
next_cases rs i none (no_first f) = inl (refl, λ k l. hidden_from rs i k l (f (k - i)))
next_cases rs i (some j) (first_is m _ e s f) =
    let here : is_shown rs j ≡ true = ground (arith, is_shown-drop rs i m) in
    inr (j, refl, omega arith, here, λ k l m. hidden_from rs i k l (f (k - i) (omega arith)))

row_at-present : (rs : List Row) (i : ℕ) → i < length rs → (r : Row) × (row_at rs i ≡ some r)
unfolding row_at
row_at-present [] i h = absurd (omega arith)
row_at-present (r ∷ rs) zero h = (r, refl)
row_at-present (r ∷ rs) (suc i) h = row_at-present rs i (omega arith)

is_shown-row_at :
    (rs : List Row) (i : ℕ) (r : Row) → row_at rs i ≡ some r → is_shown rs i ≡ is_block r.display
unfolding row_at
is_shown-row_at [] i r h = ground arith
is_shown-row_at (q ∷ rs) zero r h = ground arith
is_shown-row_at (q ∷ rs) (suc i) r h = is_shown-row_at rs i r h

prev_cases :
    (rs : List Row) (k : ℕ)
    → k ≤ length rs
    → ((nav_prev_below rs k ≡ none) × ((i : ℕ) → i < k → is_shown rs i ≡ false))
      ⊎ ((j : ℕ) × (nav_prev_below rs k ≡ some j)
          × (j < k)
          × (is_shown rs j ≡ true)
          × ((i : ℕ) → j < i → i < k → is_shown rs i ≡ false))
unfolding nav_prev_below
prev_cases rs zero h = inl (refl, λ i l. absurd (omega arith))
prev_cases rs (suc k) h =
    let (r, at) = row_at-present rs k (omega arith) in
    let shown = is_shown-row_at rs k r at in
    elim (Bool-cases (is_block r.display)) [
      | inl e ↦ inr (
        k,
        rw (nav_prev_below, at, e) refl,
        omega arith,
        ground arith,
        λ i l m. absurd (omega arith),
      )
      | inr e ↦
          let none_here : is_shown rs k ≡ false = ground arith in
          elim (prev_cases rs k (omega arith)) [
            | inl (n, f) ↦ inl (
              rw (nav_prev_below, at, e) n,
              λ i l. elim (Below-cases i k l) [ inl b ↦ f i b | inr b ↦ rw (b) none_here ],
            )
            | inr (j, n, l, s, f) ↦ inr (
              j,
              rw (nav_prev_below, at, e) n,
              omega arith,
              s,
              λ i a b. elim (Below-cases i k b) [ inl c ↦ f i a c | inr c ↦ rw (c) none_here ],
            )
          ]
    ]

-- NavNext finds the first row from index `i` on that is shown, and nothing if there is none.
pub nav_next_cases :
    (page : Results) (i : ℕ)
    → ((nav_next page i ≡ none) × ((k : ℕ) → i ≤ k → is_shown page.rows k ≡ false))
      ⊎ ((j : ℕ) × (nav_next page i ≡ some j)
          × (i ≤ j)
          × (is_shown page.rows j ≡ true)
          × ((k : ℕ) → i ≤ k → k < j → is_shown page.rows k ≡ false))
unfolding nav_next
nav_next_cases page i =
    next_cases page.rows i (nav_next_from (drop i page.rows) i)
      (nav_next_from-First (drop i page.rows) i)

-- NavPrev finds the last row below index `k` that is shown, and nothing if there is none, where `k`
-- is at most the number of rows.
pub nav_prev_cases :
    (page : Results) (k : ℕ)
    → k ≤ length page.rows
    → ((nav_prev page k ≡ none) × ((i : ℕ) → i < k → is_shown page.rows i ≡ false))
      ⊎ ((j : ℕ) × (nav_prev page k ≡ some j)
          × (j < k)
          × (is_shown page.rows j ≡ true)
          × ((i : ℕ) → j < i → i < k → is_shown page.rows i ≡ false))
unfolding nav_prev
nav_prev_cases page k h = prev_cases page.rows k h
