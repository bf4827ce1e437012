-- ===== src/File/Reusing.antt =====
-- `allocatePage` of src/file.cpp with a free page.
use cs564_project.Prelude.{
  ℕ, ◌+◌, ◌-◌, ◌<◌, ◌≡◌, ◌≢◌, ◌⊎◌, inl, inr, refl, true, false, ◌||◌, not, ltb, ◌==◌, arith,
  if◌then◌else◌, List, [], ◌∷◌, length, sym, ◌∙◌, Bool-cases,
}
use mathlib.Core.Path.{subst}
use cs564_project.Exceptions.{ok}
use cs564_project.Page.State.{Page, page_number, set_page_number, set_next_page_number}
use cs564_project.File.State.{FileHeader, File, file_begin}
use cs564_project.File.Alloc.{
  checked_store, free_lists_agree, insert_page, reuse_page, file_allocate_page,
}
use cs564_project.File.Chains.{
  Used, Free, Lists, number_of, next_of, read_header-run, read_any_page-run,
}
use cs564_project.File.Places.{before, find_place-before}
use cs564_project.File.Linking.{Used-Absent}
use cs564_project.File.Walk.{length-Used}
use cs564_project.File.AllocLaws.{Allocated, Ready, linked-Allocated}
use cs564_project.File.Heading.{headed-Allocated}

pub file_begin-run : (f : File) → f.good ≡ true → file_begin f ≡ (ok f.header.first_used_page, f)
unfolding file_begin
file_begin-run f good = rw (read_header-run f good) refl

-- With a free page, `a`.
module _ (f : File) (us fs : List ℕ) (v : Lists f us (f.header.first_free_page ∷ fs)) where
  abbrev a : ℕ
  a = f.header.first_free_page

  abbrev taken : Page
  taken = set_page_number (f.pages a) a

  abbrev header_with : ℕ → FileHeader
  header_with first = record {
    num_pages = f.header.num_pages;
    first_used_page = first;
    num_free_pages = f.header.num_free_pages - 1;
    first_free_page = next_of f.pages a;
  }

  agree : (first : ℕ) → free_lists_agree (header_with first) ≡ true
  agree first =
      let (_, _, _, _, _, tail) = v.free in
      let n = v.num_free in
      agree_at fs (next_of f.pages a) (f.header.num_free_pages - 1) tail (omega arith)
    where
      agree_at :
          (gs : List ℕ) (h n : ℕ)
          → Free f.pages f.header.num_pages h gs
          → n ≡ length gs
          → (if n == 0 then h == 0 else not (h == 0)) ≡ true
      agree_at [] h n e q = ground arith
      agree_at (x ∷ xs) h n (at, low, _, _, _, _) q = ground arith

  reuse-Ready :
      (first : ℕ) (new_page : Page)
      → page_number new_page ≡ a
      → Ready f us fs a new_page (header_with first)
  reuse-Ready first new_page number =
      let (_, low, high, free, once, tail) = v.free in
      let ext = v.extent in
      let n = v.num_free in
      record {
        number = number;
        positive = low;
        inside = high;
        grows = omega arith;
        small = v.small;
        extent = ground arith;
        fresh =
            Used-Absent f.pages f.header.num_pages a 0 f.header.first_used_page us v.used
              λ p q r. omega arith;
        free = tail;
        apart = once;
        num_free = omega arith;
      }

  taken-numbers :
      (page_number taken ≡ a)
      × (taken.header.next_page_number ≡ next_of f.pages a)
      × ((x : ℕ) → page_number (set_next_page_number taken x) ≡ a)
      × ((x : ℕ) → (set_next_page_number taken x).header.next_page_number ≡ x)
  unfolding set_page_number set_next_page_number
  taken-numbers = (refl, refl, λ x. refl, λ x. refl)

  reuse-run :
      (page : Page) (g : File)
      → insert_page f.header (f.pages a) f ≡ (ok page, g)
      → file_allocate_page f ≡ (ok page, g)
  unfolding file_allocate_page reuse_page
  reuse-run page g run =
      let (_, low, high, _, _, _) = v.free in
      let n = v.num_free in
      let some_free : ltb 0 f.header.num_free_pages ≡ true = ground arith in
      let read = read_any_page-run f a v.good v.extent low high in
      rw (read_header-run f v.good, some_free, read) run

  abbrev pub Reuses : Type 0
  Reuses =
      (g : File) × (page : Page) × (file_allocate_page f ≡ (ok page, g))
      × (page_number page ≡ a)
      × Allocated f g us fs a

  -- No used page, and no other free one.
  reuse_alone : f.header.first_used_page ≡ 0 → fs ≡ [] → Reuses
  unfolding insert_page checked_store set_page_number
  reuse_alone none_used one =
      let (_, _, _, _, _, tail) = v.free in
      let end : next_of f.pages a ≡ 0 =
        subst (λ z. Free f.pages f.header.num_pages (next_of f.pages a) z) one tail in
      let (g, run, all) =
        headed-Allocated f a us (a ∷ fs) fs taken (header_with a) v
          (reuse-Ready a taken taken-numbers.0) (inl none_used) refl (end ∙ sym none_used) in
      let front : (f.header.first_used_page == 0 || ltb a f.header.first_used_page) ≡ true =
        ground arith in
      let not_before : ltb a f.header.first_used_page ≡ false = ground arith in
      let ok_lists = agree a in
      (
        g,
        taken,
        reuse-run taken g (rw (insert_page, front, not_before, checked_store, ok_lists) run),
        taken-numbers.0,
        all,
      )

  -- Before the first used page.
  reuse_front : a < f.header.first_used_page → Reuses
  unfolding insert_page checked_store set_page_number
  reuse_front less =
      let nw = set_next_page_number taken f.header.first_used_page in
      let (g, run, all) =
        headed-Allocated f a us (a ∷ fs) fs nw (header_with a) v
          (reuse-Ready a nw (taken-numbers.2 f.header.first_used_page)) (inr less) refl
          (taken-numbers.3 f.header.first_used_page) in
      let front : (f.header.first_used_page == 0 || ltb a f.header.first_used_page) ≡ true =
        ground arith in
      let is_before : ltb a f.header.first_used_page ≡ true = ground arith in
      let ok_lists = agree a in
      (
        g,
        nw,
        reuse-run nw g (rw (insert_page, front, is_before, checked_store, ok_lists) run),
        taken-numbers.2 f.header.first_used_page,
        all,
      )

  -- Behind a used page.
  reuse_behind : (x : ℕ) (xs : List ℕ) → us ≡ x ∷ xs → x < a → Reuses
  unfolding insert_page checked_store set_page_number
  reuse_behind x xs shape less =
      let w : Lists f (x ∷ xs) (a ∷ fs) = subst (λ z. Lists f z (a ∷ fs)) shape v in
      let at : f.header.first_used_page ≡ x = w.used.0 in
      let (_, low, _, _, _) = w.used in
      let few =
        length-Used f.pages f.header.num_pages 0 f.header.first_used_page (x ∷ xs) w.counted
          w.used in
      let chain : Used f.pages f.header.num_pages 0 x (x ∷ xs) =
        subst (λ z. Used f.pages f.header.num_pages 0 z (x ∷ xs)) at w.used in
      let found =
        find_place-before f w.good w.extent a (f.header.num_pages + 1) 0 x 0 xs chain
          (omega arith) in
      let start : file_begin f ≡ (ok x, f) =
        subst (λ z. file_begin f ≡ (ok z, f)) at (file_begin-run f w.good) in
      let nw = set_next_page_number taken (next_of f.pages (before a x xs)) in
      let h = header_with f.header.first_used_page in
      let rd : Ready f (x ∷ xs) fs a nw h =
        subst (λ z. Ready f z fs a nw h) shape
          (reuse-Ready f.header.first_used_page nw
            (taken-numbers.2 (next_of f.pages (before a x xs)))) in
      let (g, run, all) =
        linked-Allocated f x a xs (a ∷ fs) fs nw h w rd less refl
          (taken-numbers.3 (next_of f.pages (before a x xs))) in
      let front : (f.header.first_used_page == 0 || ltb a f.header.first_used_page) ≡ false =
        ground arith in
      let ok_lists = agree f.header.first_used_page in
      (
        g,
        nw,
        reuse-run nw g (rw (insert_page, front, start, found, checked_store, ok_lists) run),
        taken-numbers.2 (next_of f.pages (before a x xs)),
        subst (λ z. Allocated f g z fs a) (sym shape) all,
      )

-- On each of its branches.
pub reuse_all :
    (f : File) (us fs : List ℕ) (v : Lists f us (f.header.first_free_page ∷ fs))
    → (0 < length us) ⊎ (length (f.header.first_free_page ∷ fs) < 2)
    → Reuses f us fs v
reuse_all f [] [] v few = reuse_alone f [] [] v v.used refl
reuse_all f [] (y ∷ ys) v few = absurd (ground arith)
reuse_all f (x ∷ xs) fs v few =
    let (_, low, _, free, _, _) = v.free in
    let (at, low', _, own, _) = v.used in
    elim (Bool-cases (ltb f.header.first_free_page x)) [
      | inl front ↦ reuse_front f (x ∷ xs) fs v (ground arith)
      | inr later ↦
          let ne : x ≢ f.header.first_free_page = λ q.
            let zero : number_of f.pages x ≡ 0 =
              subst (λ z. number_of f.pages z ≡ 0) (sym q) free in
            omega arith in
          reuse_behind f (x ∷ xs) fs v x xs refl (ground arith)
    ]
