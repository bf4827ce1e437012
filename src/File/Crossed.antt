-- ===== src/File/Crossed.antt =====
-- `allocatePage` of src/file.cpp in a file that has free pages and no used one: the page that is used
-- again keeps its link to the next free page.
use cs564_project.Prelude.{
  ℕ, suc, ◌+◌, ◌-◌, ◌≡◌, refl, true, false, ◌||◌, ltb, ◌==◌, arith, if◌then◌else◌, List, [], ◌∷◌,
  sym, ap, ◌∙◌,
}
use mathlib.Core.Path.{subst}
use cs564_project.Exceptions.{ok, err, invalid_page}
use cs564_project.Effects.{◌>>=◌}
use cs564_project.Page.State.{Page, page_number, set_page_number}
use cs564_project.File.State.{FileHeader, File, with_page, read_header, file_begin, visit_pages}
use cs564_project.File.Alloc.{
  file_allocate_page, reuse_page, insert_page, checked_store, free_lists_agree,
}
use cs564_project.File.Chains.{Lists, next_of, read_header-run, read_any_page-run}
use cs564_project.File.Store.{store_pages-one}
use cs564_project.File.Walk.{visit_pages-stops}

module _ (f : File) (b : ℕ) (rest : List ℕ)
    (v : Lists f [] (f.header.first_free_page ∷ b ∷ rest)) where
  abbrev a : ℕ
  a = f.header.first_free_page

  reused : Page
  reused = set_page_number (f.pages a) a

  after_header : FileHeader
  after_header = record {
    num_pages = f.header.num_pages;
    first_used_page = a;
    num_free_pages = f.header.num_free_pages - 1;
    first_free_page = next_of f.pages a;
  }

  -- The file after the call.
  crossed : File
  crossed = record {
    filename = f.filename;
    good = true;
    header = after_header;
    extent = if ltb a f.extent then f.extent else a + 1;
    pages = with_page f.pages a reused;
  }

  insert_page-crossed : insert_page f.header (f.pages a) f ≡ (ok reused, crossed)
  unfolding insert_page checked_store crossed after_header reused set_page_number
  insert_page-crossed =
      let (_, low, high, free, absent, tail) = v.free in
      let (at', low', _, _, _, _) = tail in
      let u = v.used in
      let n = v.num_free in
      let first : (f.header.first_used_page == 0 || ltb a f.header.first_used_page) ≡ true =
        ground arith in
      let not_before : ltb a f.header.first_used_page ≡ false = ground arith in
      let agree : free_lists_agree after_header ≡ true = ground arith in
      let run = store_pages-one f (set_page_number (f.pages a) a) after_header v.good in
      rw (insert_page, first, not_before, checked_store, agree) run

  allocate-crossed : file_allocate_page f ≡ (ok reused, crossed)
  unfolding file_allocate_page reuse_page
  allocate-crossed =
      let (_, low, high, free, absent, tail) = v.free in
      let n = v.num_free in
      let some_free : ltb 0 f.header.num_free_pages ≡ true = ground arith in
      let read = read_any_page-run f a v.good v.extent low high in
      rw (read_header-run f v.good, some_free, read) insert_page-crossed

  reused-numbers : (page_number reused ≡ a) × (reused.header.next_page_number ≡ next_of f.pages a)
  unfolding reused set_page_number
  reused-numbers = (refl, refl)

  crossed-visit :
      (fuel : ℕ)
      → visit_pages (suc (suc fuel)) a crossed ≡ (err (invalid_page b f.filename), crossed)
  unfolding crossed after_header
  crossed-visit fuel =
      let (_, low, high, free, (ne, _), tail) = v.free in
      let (at', low', high', free', _, _) = tail in
      let e = v.extent in
      let extent : crossed.extent ≡ crossed.header.num_pages = ground arith in
      let at : crossed.pages a ≡ reused = ground arith in
      let at' : crossed.pages b ≡ f.pages b = ground arith in
      let (own, link) = reused-numbers in
      visit_pages-stops crossed fuel a b refl extent low high (ap (λ x. page_number x) at ∙ own)
        (ap (λ x. x.header.next_page_number) at ∙ (link ∙ tail.0)) low' high'
        (ap (λ x. page_number x) at' ∙ free')

  crossed-begin : file_begin crossed ≡ (ok a, crossed)
  unfolding crossed after_header file_begin read_header
  crossed-begin = refl

  all_crossed :
      (fuel : ℕ)
      → (g : File) × (page : Page) × (file_allocate_page f ≡ (ok page, g))
        × (page_number page ≡ a)
        × (page.header.next_page_number ≡ b)
        × ((file_begin >>= visit_pages (suc (suc fuel))) g ≡ (err (invalid_page b f.filename), g))
  all_crossed fuel =
      let tail = v.free.5 in
      (
        crossed,
        reused,
        allocate-crossed,
        reused-numbers.0,
        reused-numbers.1 ∙ tail.0,
        rw crossed-begin (crossed-visit fuel),
      )

-- After an allocation in a file whose lists are in order and of which all pages are free, two at
-- least, the link of the new page
-- leads to a free page, and an iteration over the file throws at that page.
pub file_allocate_page-crossed :
    (f : File) (a b : ℕ) (rest : List ℕ) (fuel : ℕ)
    → Lists f [] (a ∷ b ∷ rest)
    → (g : File) × (page : Page) × (file_allocate_page f ≡ (ok page, g))
      × (page_number page ≡ a)
      × (page.header.next_page_number ≡ b)
      × ((file_begin >>= visit_pages (suc (suc fuel))) g ≡ (err (invalid_page b f.filename), g))
file_allocate_page-crossed f a b rest fuel v =
    let at : f.header.first_free_page ≡ a = v.free.0 in
    subst
      (λ x.
        (g : File) × (page : Page) × (file_allocate_page f ≡ (ok page, g))
        × (page_number page ≡ x)
        × (page.header.next_page_number ≡ b)
        × ((file_begin >>= visit_pages (suc (suc fuel))) g ≡ (err (invalid_page b f.filename), g)))
      at (all_crossed f b rest (subst (λ x. Lists f [] (x ∷ b ∷ rest)) (sym at) v) fuel)
