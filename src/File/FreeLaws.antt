-- ===== src/File/FreeLaws.antt =====
-- `deletePage` of src/file.cpp on a file whose lists are in order.
use cs564_project.Prelude.{
  ℕ, ◌+◌, ◌%◌, ◌^◌, ◌<◌, ◌≡◌, ◌≢◌, refl, true, false, ltb, ◌==◌, arith, List, [], ◌∷◌, sym, ap, ◌∙◌,
}
use mathlib.Core.Path.{subst}
use cs564_project.Exceptions.{ok}
use cs564_project.Page.State.{Page, initialize, is_used, page_number, set_next_page_number}
use cs564_project.File.State.{FileHeader, File, blank_page, with_page, put_page, write_header}
use cs564_project.File.Free.{store_freed}
use cs564_project.File.Chains.{Used, Free, Absent, Lists, number_of, next_of}
use cs564_project.File.Linking.{Free-keep}
use cs564_project.File.Previous.{In, remove_page, Used-In}

-- The page `n` is no longer used and is the first free one; the other pages have what they had.
pub record Freed (f g : File) (us fs : List ℕ) (n : ℕ) : Type 0 where
  pub lists : Lists g (remove_page n us) (n ∷ fs)
  pub same_numbers : (k : ℕ) → k ≢ n → number_of g.pages k ≡ number_of f.pages k
  pub same_data : (k : ℕ) → k ≢ n → (g.pages k).data_ ≡ (f.pages k).data_

abbrev pub cleared : Page → FileHeader → Page
cleared page h = set_next_page_number (initialize page) h.first_free_page

abbrev pub freed_header : FileHeader → ℕ → FileHeader
freed_header h n = record {
  num_pages = h.num_pages;
  first_used_page = h.first_used_page;
  num_free_pages = (h.num_free_pages + 1) % 2 ^ 32;
  first_free_page = n;
}

abbrev pub freed_file : File → FileHeader → ℕ → (ℕ → Page) → File
freed_file f h n pages = record {
  filename = f.filename;
  good = true;
  header = freed_header h n;
  extent = f.extent;
  pages = pages;
}

pub store_freed-one :
    (f : File) (n : ℕ) (page : Page) (h : FileHeader)
    → f.good ≡ true
    → n < f.extent
    → store_freed n page blank_page h f
      ≡ (ok tt, freed_file f h n (with_page f.pages n (cleared page h)))
unfolding store_freed put_page write_header is_used blank_page initialize
store_freed-one f n page h good inside =
    let e : ltb n f.extent ≡ true = ground arith in rw (store_freed, good, e) refl

pub store_freed-two :
    (f : File) (n : ℕ) (page prev : Page) (h : FileHeader)
    → f.good ≡ true
    → n < f.extent
    → 0 < page_number prev
    → page_number prev < f.extent
    → store_freed n page prev h f ≡ (
      ok tt,
      freed_file f h n (with_page (with_page f.pages (page_number prev) prev) n (cleared page h)),
    )
unfolding store_freed put_page write_header is_used
store_freed-two f n page prev h good inside low high =
    let is : (page_number prev == 0) ≡ false = ground arith in
    let e : ltb n f.extent ≡ true = ground arith in
    let e' : ltb (page_number prev) f.extent ≡ true = ground arith in
    rw (store_freed, is, good, e', e) refl

pub Free-Absent :
    (pages : ℕ → Page) (count n h : ℕ) (fs : List ℕ)
    → Free pages count h fs
    → 0 < n
    → number_of pages n ≡ n
    → Absent n fs
Free-Absent pages count n h [] u p own = tt
Free-Absent pages count n h (x ∷ xs) (at, low, high, free, once, rest) p own = (
  λ e.
      let zero : number_of pages n ≡ 0 = subst (λ z. number_of pages z ≡ 0) (sym e) free in
      omega arith,
  Free-Absent pages count n (next_of pages x) xs rest p own,
)

-- What both branches share: the free list, once the page is cleared.
module _ (f : File) (n : ℕ) (us fs : List ℕ) (h : FileHeader) (pages : ℕ → Page) (v : Lists f us fs)
    (is : In n us) (few : f.header.num_free_pages + 1 < 2 ^ 32)
    (count : h.num_pages ≡ f.header.num_pages)
    (free_count : h.num_free_pages ≡ f.header.num_free_pages)
    (first_free : h.first_free_page ≡ f.header.first_free_page)
    (clear : pages n ≡ cleared (f.pages n) h)
    (used : Used pages f.header.num_pages 0 h.first_used_page (remove_page n us))
    (others : (k : ℕ)
      → k ≢ n
      → (number_of pages k ≡ number_of f.pages k) × ((pages k).data_ ≡ (f.pages k).data_))
    (free_same : (k : ℕ) → k ≢ n → 0 < k → number_of f.pages k ≡ 0 → pages k ≡ f.pages k) where
  cleared-numbers :
      (page_number (cleared (f.pages n) h) ≡ 0)
      × ((cleared (f.pages n) h).header.next_page_number ≡ h.first_free_page)
  unfolding set_next_page_number initialize
  cleared-numbers = (refl, refl)

  pub file-Freed : Freed f (freed_file f h n pages) us fs n
  file-Freed =
      let (low, high, own) =
        Used-In f.pages f.header.num_pages n 0 f.header.first_used_page us v.used is in
      let once =
        Free-Absent f.pages f.header.num_pages n f.header.first_free_page fs v.free low own in
      let kept =
        Free-keep f.pages pages f.header.num_pages f.header.num_pages n f.header.first_free_page fs
          v.free (omega arith) once free_same in
      let ext = v.extent in
      let nf = v.num_free in
      let c = v.counted in
      let s = v.small in
      let link : next_of pages n ≡ f.header.first_free_page =
        ap (λ (p : Page). p.header.next_page_number) clear ∙ cleared-numbers.1 ∙ first_free in
      record {
        lists = record {
          good = refl;
          extent = omega arith;
          counted = omega arith;
          small = omega arith;
          used = subst (λ z. Used pages z 0 h.first_used_page (remove_page n us)) (sym count) used;
          free = (
            refl,
            low,
            omega arith,
            ap (λ (p : Page). page_number p) clear ∙ cleared-numbers.0,
            once,
            subst (λ z. Free pages z (next_of pages n) fs) (sym count)
                (subst (λ z. Free pages f.header.num_pages z fs) (sym link) kept),
          );
          num_free = omega arith;
        };
        same_numbers = λ k ne. (others k ne).0;
        same_data = λ k ne. (others k ne).1;
      }
