-- ===== src/File/Allocation.antt =====
-- `allocatePage` of src/file.cpp on all its branches.
use cs564_project.Prelude.{
  ℕ, ◌+◌, ◌%◌, ◌^◌, ◌<◌, ◌≡◌, ◌⊎◌, inl, refl, true, false, ltb, ◌==◌, arith, List, [], ◌∷◌, length,
  sym, ◌∙◌,
}
use mathlib.Core.Path.{subst}
use cs564_project.Exceptions.{ok}
use cs564_project.Page.State.{Page, initialize, is_used, page_number, set_page_number}
use cs564_project.File.State.{FileHeader, File, blank_page, file_begin}
use cs564_project.File.Alloc.{append_page, file_allocate_page}
use cs564_project.File.Chains.{Used, Lists, number_of, next_of, read_header-run}
use cs564_project.File.Places.{before, last, find_tail-last}
use cs564_project.File.Linking.{le-before, Used-Absent}
use cs564_project.File.Walk.{length-Used}
use cs564_project.File.AllocLaws.{allocated, others_free, Allocated, Ready, linked-Allocated}
use cs564_project.File.Heading.{headed-Allocated}
use cs564_project.File.Reusing.{reuse_all, file_begin-run}

-- What an allocation promises.
abbrev pub Allocates : File → List ℕ → List ℕ → Type 0
Allocates f us fs =
    (g : File) × (page : Page) × (file_allocate_page f ≡ (ok page, g))
    × (page_number page ≡ allocated f fs)
    × Allocated f g us (others_free fs) (allocated f fs)

-- With no free page.
module _ (f : File) (us : List ℕ) (v : Lists f us [])
    (small : f.header.num_pages + 2 < 2 ^ 32) where
  abbrev next_page : ℕ
  next_page = f.header.num_pages

  abbrev appended : Page
  appended = set_page_number blank_page next_page

  abbrev longer : ℕ → FileHeader
  longer first = record {
    num_pages = (f.header.num_pages + 1) % 2 ^ 32;
    first_used_page = first;
    num_free_pages = f.header.num_free_pages;
    first_free_page = f.header.first_free_page;
  }

  appended-numbers : (page_number appended ≡ next_page) × (appended.header.next_page_number ≡ 0)
  unfolding set_page_number blank_page initialize
  appended-numbers = (refl, refl)

  append-Ready : (first : ℕ) → Ready f us [] next_page appended (longer first)
  append-Ready first =
      let ext = v.extent in
      let end = v.free in
      let c = v.counted in
      let n = v.num_free in
      record {
        number = appended-numbers.0;
        positive = c;
        inside = omega arith;
        grows = omega arith;
        small = omega arith;
        extent = ground arith;
        fresh =
            Used-Absent f.pages f.header.num_pages next_page 0 f.header.first_used_page us v.used
              λ p q r. omega arith;
        free = end;
        apart = tt;
        num_free = n;
      }

  append-run :
      (page : Page) (g : File)
      → append_page f.header f ≡ (ok page, g)
      → file_allocate_page f ≡ (ok page, g)
  unfolding file_allocate_page
  append-run page g run =
      let n = v.num_free in
      let none_free : ltb 0 f.header.num_free_pages ≡ false = ground arith in
      rw (read_header-run f v.good, none_free) run

  Appends : Type 0
  Appends =
      (g : File) × (page : Page) × (file_allocate_page f ≡ (ok page, g))
      × (page_number page ≡ next_page)
      × Allocated f g us [] next_page

  append_alone : f.header.first_used_page ≡ 0 → Appends
  unfolding Appends append_page set_page_number
  append_alone none_used =
      let own = appended-numbers.0 in
      let (g, run, all) =
        headed-Allocated f next_page us [] [] appended (longer next_page) v (append-Ready next_page)
          (inl none_used) refl (appended-numbers.1 ∙ sym none_used) in
      let none_there : (f.header.first_used_page == 0) ≡ true = ground arith in
      (g, appended, append-run appended g (rw (append_page, none_there) run), own, all)

  append_behind : (x : ℕ) (xs : List ℕ) → us ≡ x ∷ xs → Appends
  unfolding Appends append_page is_used set_page_number
  append_behind x xs shape =
      let w : Lists f (x ∷ xs) [] = subst (λ z. Lists f z []) shape v in
      let at : f.header.first_used_page ≡ x = w.used.0 in
      let (_, low, high, _, _) = w.used in
      let few =
        length-Used f.pages f.header.num_pages 0 f.header.first_used_page (x ∷ xs) w.counted
          w.used in
      let chain : Used f.pages f.header.num_pages 0 x (x ∷ xs) =
        subst (λ z. Used f.pages f.header.num_pages 0 z (x ∷ xs)) at w.used in
      let found =
        find_tail-last f w.good w.extent (f.header.num_pages + 1) 0 x xs chain (omega arith) in
      let start : file_begin f ≡ (ok x, f) =
        subst (λ z. file_begin f ≡ (ok z, f)) at (file_begin-run f w.good) in
      let (same, ends) = last-before f.pages f.header.num_pages 0 x xs chain in
      let own = appended-numbers.0 in
      let rd : Ready f (x ∷ xs) [] next_page appended (longer f.header.first_used_page) =
        subst (λ z. Ready f z [] next_page appended (longer f.header.first_used_page)) shape
          (append-Ready f.header.first_used_page) in
      let (g, run, all) =
        linked-Allocated f x next_page xs [] [] appended (longer f.header.first_used_page) w rd high
          refl (appended-numbers.1 ∙ sym ends) in
      let there : (f.header.first_used_page == 0) ≡ false = ground arith in
      let (ge, _, num) = le-before f.pages f.header.num_pages next_page 0 x xs chain in
      let used : (number_of f.pages (before next_page x xs) == 0) ≡ false = ground arith in
      (
        g,
        appended,
        append-run appended g (rw (append_page, there, start, found, same, used) run),
        own,
        subst (λ z. Allocated f g z [] next_page) (sym shape) all,
      )
    where
      last-before :
          (pages : ℕ → Page) (count m x : ℕ) (xs : List ℕ)
          → Used pages count m x (x ∷ xs)
          → (last x xs ≡ before count x xs) × (next_of pages (before count x xs) ≡ 0)
      last-before pages count m x [] (_, _, _, _, end) = (refl, end)
      last-before pages count m x (y ∷ ys) (_, _, _, _, (_, low, high, own, rest)) =
          let later : ltb count y ≡ false = ground arith in
          rw later (last-before pages count x y ys (refl, low, high, own, rest))

-- In a file whose lists are in order and whose numbers of pages fit 32 bits, `allocatePage` returns
-- the new page, which comes to its place among the used ones, which stay in ascending order: the first free
-- page, else a new one at the end. The links of the file stay in order, and the other pages keep
-- their numbers and contents. With no used page there is to be one free page at most.
pub file_allocate_page-Allocated :
    (f : File) (us fs : List ℕ)
    → Lists f us fs
    → f.header.num_pages + 2 < 2 ^ 32
    → (0 < length us) ⊎ (length fs < 2)
    → Allocates f us fs
unfolding Appends
file_allocate_page-Allocated f [] [] v small few = append_alone f [] v small v.used
file_allocate_page-Allocated f (x ∷ xs) [] v small few = append_behind f (x ∷ xs) v small x xs refl
file_allocate_page-Allocated f us (n ∷ fs) v small few =
    let at : f.header.first_free_page ≡ n = v.free.0 in
    let w : Lists f us (f.header.first_free_page ∷ fs) =
      subst (λ z. Lists f us (z ∷ fs)) (sym at) v in
    subst
      (λ z.
        (g : File) × (page : Page) × (file_allocate_page f ≡ (ok page, g))
        × (page_number page ≡ z)
        × Allocated f g us fs z)
      at (reuse_all f us fs w few)
