-- ===== src/File/Access.antt =====
-- `readPage` and `writePage` of src/file.cpp, and what a read of page 0 does to the stream.
use cs564_project.Prelude.{
  ℕ, ◌≡◌, ◌≢◌, refl, true, false, ◌&&◌, ltb, leb, ◌==◌, arith, List, [], ◌∷◌, ap,
}
use mathlib.Core.Path.{subst}
use cs564_project.Exceptions.{ok, err, invalid_page, indeterminate}
use cs564_project.Page.State.{Page, initialize, is_used, page_number}
use cs564_project.File.State.{
  File, blank_page, create, with_page, failed, put_page, read_header, read_page_header,
  read_any_page, file_read_page, file_write_page,
}
use cs564_project.File.Alloc.{file_allocate_page}
use cs564_project.File.Free.{file_delete_page}
use cs564_project.File.Chains.{
  Used, Lists, number_of, next_of, read_header-run, file_read_page-used,
}
use cs564_project.File.Linking.{Free-keep}
use cs564_project.File.Previous.{In, Used-In}
use cs564_project.File.FreeLaws.{Free-Absent}

pub create-Lists : (name : ℕ) → Lists (create name) [] []
unfolding create
create-Lists name = record {
  good = refl;
  extent = refl;
  counted = omega arith;
  small = omega arith;
  used = refl;
  free = refl;
  num_free = refl;
}

-- The used pages where one has other contents.
Used-update :
    (pages : ℕ → Page) (count n m h : ℕ) (us : List ℕ) (page : Page)
    → page_number page ≡ n
    → page.header.next_page_number ≡ next_of pages n
    → Used pages count m h us
    → Used (with_page pages n page) count m h us
Used-update pages count n m h [] page num link u = u
Used-update pages count n m h (x ∷ xs) page num link (at, low, high, own, rest) =
    let tail = Used-update pages count n x (next_of pages x) xs page num link rest in
    (
      at,
      low,
      high,
      ground arith,
      subst (λ z. Used (with_page pages n page) count x z xs) (ground arith) tail,
    )

abbrev pub with_link : Page → ℕ → Page
with_link page n = record page { header = record page.header { next_page_number = n } }

-- In a file whose lists are in order, a used page that is written reads back with its link to the next page as it was on disk; the lists
-- and all other pages stay.
pub file_write_page-reads :
    (f : File) (us fs : List ℕ) (page : Page)
    → Lists f us fs
    → In (page_number page) us
    → (g : File) × (file_write_page page f ≡ (ok tt, g))
      × Lists g us fs
      × (file_read_page (page_number page) g
          ≡ (ok (with_link page (next_of f.pages (page_number page))), g))
      × ((k : ℕ) → k ≢ page_number page → g.pages k ≡ f.pages k)
unfolding file_write_page read_page_header put_page
file_write_page-reads f us fs page v is =
    let n = page_number page in
    let (low, high, own) =
      Used-In f.pages f.header.num_pages n 0 f.header.first_used_page us v.used is in
    let ext = v.extent in
    let new_page = with_link page (next_of f.pages n) in
    let pages = with_page f.pages n new_page in
    let inside : (f.good && (ltb 0 n && ltb n f.extent)) ≡ true = let g = v.good in ground arith in
    let there : ltb n f.extent ≡ true = ground arith in
    let mine : (number_of f.pages n == 0) ≡ false = ground arith in
    let other : (k : ℕ) → k ≢ n → pages k ≡ f.pages k = λ k ne. ground arith in
    let here : pages n ≡ new_page = ground arith in
    let g : File = record {
      filename = f.filename;
      good = true;
      header = f.header;
      extent = f.extent;
      pages = pages;
    } in
    let once =
      Free-Absent f.pages f.header.num_pages n f.header.first_free_page fs v.free low own in
    let lists : Lists g us fs = record {
      good = refl;
      extent = v.extent;
      counted = v.counted;
      small = v.small;
      used =
          Used-update f.pages f.header.num_pages n 0 f.header.first_used_page us new_page refl refl
            v.used;
      free =
          Free-keep f.pages pages f.header.num_pages f.header.num_pages n f.header.first_free_page
            fs v.free (omega arith) once λ k a b c. other k a;
      num_free = v.num_free;
    } in
    let read =
      file_read_page-used g n refl v.extent low high (ap (λ (p : Page). page_number p) here) in
    (
      g,
      rw (file_write_page, inside, mine) (rw (v.good, there) refl),
      lists,
      subst (λ z. file_read_page n g ≡ (ok z, g)) here read,
      other,
    )

-- In a file whose lists are in order, a read of page 0, which no file has, throws as for any page that is not there, but leaves the
-- stream failed: then no page can be read, written, allocated or deleted any more.
pub file_read_page-zero :
    (f : File) (us fs : List ℕ) (n : ℕ) (page : Page)
    → Lists f us fs
    → (file_read_page 0 f ≡ (err (invalid_page 0 f.filename), failed f))
      × (file_read_page n (failed f) ≡ (err indeterminate, failed f))
      × (file_write_page page (failed f) ≡ (err indeterminate, failed f))
      × (file_allocate_page (failed f) ≡ (err indeterminate, failed f))
      × (file_delete_page n (failed f) ≡ (err indeterminate, failed f))
unfolding file_read_page read_any_page read_header is_used blank_page initialize file_write_page
    read_page_header file_allocate_page file_delete_page
file_read_page-zero f us fs n page v =
    let c = v.counted in
    let some_page : leb f.header.num_pages 0 ≡ false = ground arith in
    let out : (f.good && (ltb 0 0 && ltb 0 f.extent)) ≡ false = ground arith in
    (rw (read_header-run f v.good, some_page, out) refl, refl, refl, refl, refl)
