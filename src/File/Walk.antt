-- ===== src/File/Walk.antt =====
-- The iteration over a file, src/file_iterator.h, and what a written page reads as.
use cs564_project.Prelude.{
  ℕ, zero, suc, ◌+◌, ◌<◌, ◌≡◌, refl, true, false, ◌==◌, List, [], ◌∷◌, length, arith, map, sym,
}
use mathlib.Core.Path.{subst}
use cs564_project.Exceptions.{ok, err, invalid_page}
use cs564_project.Effects.{◌>>=◌}
use cs564_project.Page.State.{Page}
use cs564_project.File.State.{File, file_begin, file_next, visit_pages}
use cs564_project.File.Chains.{
  Used, Lists, number_of, next_of, file_read_page-used, file_read_page-free, file_next-run,
  read_header-run,
}

visit_pages-Used :
    (f : File) (fuel m h : ℕ) (us : List ℕ)
    → f.good ≡ true
    → f.extent ≡ f.header.num_pages
    → Used f.pages f.header.num_pages m h us
    → length us < fuel
    → visit_pages fuel h f ≡ (ok (map f.pages us), f)
unfolding visit_pages
visit_pages-Used f zero m h us g e u more = absurd (omega arith)
visit_pages-Used f (suc fuel) m h [] g e u more = rw u refl
visit_pages-Used f (suc fuel) m h (x ∷ xs) g e (at, low, high, own, rest) more =
    let positive : (x == 0) ≡ false = ground arith in
    let read = file_read_page-used f x g e (omega arith) high own in
    let step = file_next-run f x g e (omega arith) high in
    let tail = visit_pages-Used f fuel x (next_of f.pages x) xs g e rest (omega arith) in
    let here : visit_pages (suc fuel) x f ≡ (ok (f.pages x ∷ map f.pages xs), f) =
      rw (visit_pages, positive, read, step, tail) refl in
    subst (λ y. visit_pages (suc fuel) y f ≡ (ok (f.pages x ∷ map f.pages xs), f)) (sym at) here

-- Used pages in ascending order are fewer than the pages of the file.
pub length-Used :
    (pages : ℕ → Page) (count m h : ℕ) (us : List ℕ)
    → m < count
    → Used pages count m h us
    → m + length us < count
length-Used pages count m h [] b u = omega arith
length-Used pages count m h (x ∷ xs) b (at, low, high, own, rest) =
    omega (arith, length-Used pages count x (next_of pages x) xs high rest)

-- In a file whose lists are in order, the loop from `begin` to `end` ends, visits the used pages in
-- ascending order and leaves the file.
pub visit_pages-all :
    (f : File) (us fs : List ℕ)
    → Lists f us fs
    → (file_begin >>= visit_pages (f.header.num_pages + 1)) f ≡ (ok (map f.pages us), f)
unfolding file_begin
visit_pages-all f us fs v =
    let few =
      length-Used f.pages f.header.num_pages 0 f.header.first_used_page us v.counted v.used in
    let walk =
      visit_pages-Used f (f.header.num_pages + 1) 0 f.header.first_used_page us v.good v.extent
        v.used (omega arith) in
    rw (read_header-run f v.good) walk

visit_pages-free :
    (f : File) (fuel n : ℕ)
    → f.good ≡ true
    → f.extent ≡ f.header.num_pages
    → 0 < n
    → n < f.header.num_pages
    → number_of f.pages n ≡ 0
    → visit_pages (suc fuel) n f ≡ (err (invalid_page n f.filename), f)
unfolding visit_pages
visit_pages-free f fuel n g e low high free =
    let positive : (n == 0) ≡ false = ground arith in
    let stop = file_read_page-free f n g e low high free in rw (visit_pages, positive, stop) refl

-- An iteration that comes from a used page to a free one throws there.
pub visit_pages-stops :
    (f : File) (fuel n m : ℕ)
    → f.good ≡ true
    → f.extent ≡ f.header.num_pages
    → 0 < n
    → n < f.header.num_pages
    → number_of f.pages n ≡ n
    → next_of f.pages n ≡ m
    → 0 < m
    → m < f.header.num_pages
    → number_of f.pages m ≡ 0
    → visit_pages (suc (suc fuel)) n f ≡ (err (invalid_page m f.filename), f)
unfolding visit_pages
visit_pages-stops f fuel n m g e low high own link low' high' free =
    let positive : (n == 0) ≡ false = ground arith in
    let read = file_read_page-used f n g e low high own in
    let step : file_next n f ≡ (ok m, f) =
      subst (λ y. file_next n f ≡ (ok y, f)) link (file_next-run f n g e low high) in
    let stop = visit_pages-free f fuel m g e low' high' free in
    rw (visit_pages, positive, read, step, stop) refl
