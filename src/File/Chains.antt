-- ===== src/File/Chains.antt =====
-- The lists of used and of free pages of a file of src/file.cpp.
use cs564_project.Prelude.{
  ℕ, ◌+◌, ◌^◌, ◌<◌, ◌≡◌, ◌≢◌, refl, true, false, ◌&&◌, ltb, leb, ◌==◌, List, [], ◌∷◌, length, arith,
}
use cs564_project.Exceptions.{ok, err, invalid_page}
use cs564_project.Page.State.{Page, is_used, page_number}
use cs564_project.File.State.{
  File, read_header, read_page_header, read_any_page, file_read_page, file_next,
}

abbrev pub number_of : (ℕ → Page) → ℕ → ℕ
number_of pages n = page_number (pages n)

abbrev pub next_of : (ℕ → Page) → ℕ → ℕ
next_of pages n = (pages n).header.next_page_number

-- The used pages from `h` on, above `m` and in ascending order, each with its own number.
abbrev pub Used : (ℕ → Page) → ℕ → ℕ → ℕ → List ℕ → Type 0
Used pages count m h [] = h ≡ 0
Used pages count m h (x ∷ xs) =
    (h ≡ x)
    × (m < x)
    × (x < count)
    × (number_of pages x ≡ x)
    × Used pages count x (next_of pages x) xs

abbrev pub Absent : ℕ → List ℕ → Type 0
Absent n [] = Unit {0}
Absent n (x ∷ xs) = (n ≢ x) × Absent n xs

-- The free pages from `h` on, each once and of number 0.
abbrev pub Free : (ℕ → Page) → ℕ → ℕ → List ℕ → Type 0
Free pages count h [] = h ≡ 0
Free pages count h (x ∷ xs) =
    (h ≡ x)
    × (0 < x)
    × (x < count)
    × (number_of pages x ≡ 0)
    × Absent x xs
    × Free pages count (next_of pages x) xs

-- The file's used pages are `us`, and its free pages are `fs`.
pub record Lists (f : File) (us fs : List ℕ) : Type 0 where
  pub good : f.good ≡ true
  pub extent : f.extent ≡ f.header.num_pages
  pub counted : 0 < f.header.num_pages
  pub small : f.header.num_pages + 1 < 2 ^ 32
  pub used : Used f.pages f.header.num_pages 0 f.header.first_used_page us
  pub free : Free f.pages f.header.num_pages f.header.first_free_page fs
  pub num_free : f.header.num_free_pages ≡ length fs

pub read_header-run : (f : File) → f.good ≡ true → read_header f ≡ (ok f.header, f)
unfolding read_header
read_header-run f good = rw (read_header, good) refl

-- Reads of a page that the file has.
module _ (f : File) (n : ℕ) (good : f.good ≡ true) (extent : f.extent ≡ f.header.num_pages)
    (low : 0 < n) (high : n < f.header.num_pages) where
  there : (f.good && (ltb 0 n && ltb n f.extent)) ≡ true
  there = ground arith

  inside : leb f.header.num_pages n ≡ false
  inside = ground arith

  any_page-used : number_of f.pages n ≡ n → read_any_page n false f ≡ (ok (f.pages n), f)
  unfolding read_any_page is_used
  any_page-used own =
      let mine : (number_of f.pages n == 0) ≡ false = ground arith in rw (there, mine) refl

  any_page-free :
      number_of f.pages n ≡ 0 → read_any_page n false f ≡ (err (invalid_page n f.filename), f)
  unfolding read_any_page is_used
  any_page-free free =
      let mine : (number_of f.pages n == 0) ≡ true = ground arith in rw (there, mine) refl

  pub file_read_page-used : number_of f.pages n ≡ n → file_read_page n f ≡ (ok (f.pages n), f)
  unfolding file_read_page
  file_read_page-used own = rw (read_header-run f good, inside) (any_page-used own)

  pub file_read_page-free :
      number_of f.pages n ≡ 0 → file_read_page n f ≡ (err (invalid_page n f.filename), f)
  unfolding file_read_page
  file_read_page-free free = rw (read_header-run f good, inside) (any_page-free free)

  pub read_any_page-run : read_any_page n true f ≡ (ok (f.pages n), f)
  unfolding read_any_page
  read_any_page-run = rw there refl

  pub file_next-run : file_next n f ≡ (ok (next_of f.pages n), f)
  unfolding file_next read_page_header
  file_next-run = rw there refl
