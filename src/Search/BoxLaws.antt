-- ===== src/Search/BoxLaws.antt =====
-- What the search panel of docs/search/search.js does.
use cs564_project.Prelude.{
  ℕ, zero, suc, ◌<◌, ◌≤◌, ◌≡◌, refl, ◌⊎◌, inl, inr, List, [], ◌∷◌, ◌++◌, none, some, true, false,
  arith, length, Bool-cases,
}
use cs564_project.Search.Text.{Text, codes, text_eq, to_lower, strip_leading}
use cs564_project.Search.Page.{block, hidden}
use cs564_project.Search.Index.{index_sections_with_content, index_section_names, section_at}
use cs564_project.Search.Escape.{escape}
use cs564_project.Search.Box.{
  SearchBox, activate, hide_results, close_results_window, first_code, content_at, results_page,
  no_matches_page, open_results, search_section, search, on_search_field_focus,
}

text_eq_refl : (s : Text) → text_eq s s ≡ true
unfolding text_eq
text_eq_refl [] = refl
text_eq_refl (c ∷ s) = ground (arith, text_eq_refl s)

-- Closing the results hides them and leaves the panel inactive with its label in the field, and then the focus
-- activates it with an empty field.
pub close_then_focus :
    (b : SearchBox)
    → let closed = close_results_window b in
      (closed.results_display ≡ hidden)
      × (closed.close_display ≡ hidden)
      × (closed.box_active ≡ false)
      × (closed.field ≡ b.search_label)
      × (closed.last_search_value ≡ [])
      × ((on_search_field_focus true closed).box_active ≡ true)
      × ((on_search_field_focus true closed).field ≡ [])
      × ((on_search_field_focus true closed).search_active ≡ true)
unfolding close_results_window hide_results activate on_search_field_focus
close_then_focus b = ground (arith, text_eq_refl b.search_label)

section_at-some {ℓ} :
    {A : Type ℓ} (xs : List A) (i : ℕ) → i < length xs → (x : A) × (section_at xs i ≡ some x)
unfolding section_at
section_at-some [] i h = absurd (omega arith)
section_at-some (x ∷ xs) zero h = (x, refl)
section_at-some (x ∷ xs) (suc i) h = section_at-some xs i (omega arith)

section_at-none {ℓ} : {A : Type ℓ} (xs : List A) (i : ℕ) → length xs ≤ i → section_at xs i ≡ none
unfolding section_at
section_at-none [] i h = refl
section_at-none (x ∷ xs) zero h = absurd (omega arith)
section_at-none (x ∷ xs) (suc i) h = section_at-none xs i (omega arith)

abbrev pub sections : ℕ
sections = 7

-- The number of tables and of names.
section_lengths :
    (length index_sections_with_content ≡ sections) × (length index_section_names ≡ sections)
section_lengths = (refl, refl)

pub search-none : (b : SearchBox) → sections ≤ b.search_index → search b ≡ none
unfolding search
search-none b h =
    rw (search, section_at-none index_sections_with_content b.search_index (omega arith))

-- What a search comes to, where its filter is a section.
pub record Searched (b : SearchBox) (section : List ℕ) (name : Text) (b' : SearchBox) : Type 0 where
  pub timer : b'.key_timer ≡ false
  pub shown : b'.results_display ≡ block
  pub value : b'.last_search_value ≡ strip_leading b.field
  pub field : b'.field ≡ b.field
  pub page :
      ((content_at section (first_code (to_lower (strip_leading b.field))) ≡ true)
        × (b'.last_results_page
            ≡ results_page b.results_path name (first_code (to_lower (strip_leading b.field))))
        × (b'.location ≡ b'.last_results_page ++ codes "?" ++ escape (strip_leading b.field)))
      ⊎ ((content_at section (first_code (to_lower (strip_leading b.field))) ≡ false)
          × (b'.last_results_page ≡ no_matches_page b.results_path)
          × (b'.location ≡ b'.last_results_page))

search_section-Searched :
    (b : SearchBox) (section : List ℕ) (name : Text)
    → Searched b section name
        (search_section (strip_leading b.field) section name (record b { key_timer = false }))
unfolding search_section open_results
search_section-Searched b section name = record {
  timer = ground arith;
  shown = ground arith;
  value = ground arith;
  field = ground arith;
  page = elim (Bool-cases (content_at section (first_code (to_lower (strip_leading b.field))))) [
    | inl e ↦ inl (e, ground arith, ground arith)
    | inr e ↦ inr (e, ground arith, ground arith)
  ];
}

pub search-Searched :
    (b : SearchBox)
    → b.search_index < sections
    → (section : List ℕ) × (name : Text) × (b' : SearchBox) × (section_at
          index_sections_with_content b.search_index
        ≡ some section)
      × (section_at index_section_names b.search_index ≡ some name)
      × (search b ≡ some b')
      × Searched b section name b'
unfolding search
search-Searched b h =
    let (section, e) = section_at-some index_sections_with_content b.search_index (omega arith) in
    let (name, e') = section_at-some index_section_names b.search_index (omega arith) in
    (section, name, _, e, e', rw (search, e, e'), search_section-Searched b section name)
