-- ===== src/File/State.antt =====
-- src/file.h, src/file.cpp, src/file_iterator.h: an open file, its stream, and its pages one by one.
use cs564_project.Prelude.{
  ℕ, zero, suc, ◌+◌, Bool, true, false, ◌&&◌, not, ltb, leb, ◌==◌, if◌then◌else◌, List, [], ◌∷◌,
}
use cs564_project.Exceptions.{invalid_page, indeterminate, cut_off}
use cs564_project.Effects.{M, ◌>>=◌, return, throw, modify}
use cs564_project.Page.State.{PageHeader, Page, initialize, is_used, page_number, invalid_number}

pub record FileHeader : Type 0 where
  pub num_pages : ℕ
  pub first_used_page : ℕ
  pub num_free_pages : ℕ
  pub first_free_page : ℕ

-- The file behind an open stream: its header, and the page at each place 1 to `extent` less one;
-- `good` is whether the stream's flags are clear.
pub record File : Type 0 where
  pub filename : ℕ
  pub good : Bool
  pub header : FileHeader
  pub extent : ℕ
  pub pages : ℕ → Page

-- A page as `Page()` makes it.
unfoldable pub blank_page : Page
blank_page = initialize (record {
  header = record {
    free_space_lower_bound = 0;
    free_space_upper_bound = 0;
    num_slots = 0;
    num_free_slots = 0;
    current_page_number = 0;
    next_page_number = 0;
  };
  data_ = record { size = 0; byte = λ _. 0 };
})

-- The header that the constructor writes into a new file.
unfoldable pub create : ℕ → File
create name = record {
  filename = name;
  good = true;
  header = record { num_pages = 1; first_used_page = 0; num_free_pages = 0; first_free_page = 0 };
  extent = 1;
  pages = λ _. blank_page;
}

-- A read at the place of page `n`. The place of page 0 is far behind the end, where a read fails.
abbrev pub readable : File → ℕ → Bool
readable f n = f.good && (ltb 0 n && ltb n f.extent)

abbrev pub failed : File → File
failed f = record f { good = false }

unfoldable pub read_header : M File FileHeader
read_header f = if f.good then return f.header f else throw indeterminate f

unfoldable pub write_header : FileHeader → M File (Unit {0})
write_header h = modify λ f. if f.good then record f { header = h } else f

unfoldable pub read_page_header : ℕ → M File PageHeader
read_page_header n f =
    if readable f n then return (f.pages n).header f else throw indeterminate (failed f)

-- `readPage` with `allow_free`: a page that cannot be read stays as `Page()` makes it.
unfoldable pub read_any_page : ℕ → Bool → M File Page
read_any_page n allow_free f =
    let page = if readable f n then f.pages n else blank_page in
    let g = if readable f n then f else failed f in
    if not allow_free && not (is_used page)
    then throw (invalid_page n f.filename) g
    else return page g

unfoldable pub file_read_page : ℕ → M File Page
file_read_page n = do
  header ← read_header
  if leb header.num_pages n
      then (λ f. throw (invalid_page n f.filename) f)
      else read_any_page n false

abbrev pub with_page : (ℕ → Page) → ℕ → Page → ℕ → Page
with_page pages n page k = if n == k then page else pages k

-- `writePage` with a number, a header and the page whose data is written; the number is not 0.
unfoldable pub put_page : ℕ → PageHeader → Page → M File (Unit {0})
put_page n header page = modify λ f.
    if f.good
    then record f {
      extent = if ltb n f.extent then f.extent else n + 1;
      pages = with_page f.pages n (record page { header = header });
    }
    else f

unfoldable pub file_write_page : Page → M File (Unit {0})
file_write_page page = do
  header ← read_page_header (page_number page)
  if header.current_page_number == invalid_number
      then (λ f. throw (invalid_page (page_number page) f.filename) f)
      else put_page (page_number page)
          (record page.header { next_page_number = header.next_page_number }) page

-- A `FileIterator` over this file is its current page number: `begin`, and `++`.
unfoldable pub file_begin : M File ℕ
file_begin = do header ← read_header; return header.first_used_page

unfoldable pub file_next : ℕ → M File ℕ
file_next n = do header ← read_page_header n; return header.next_page_number

-- The loop `for (it = file.begin(); it != file.end(); ++it)` from `cur` on: the pages that it visits.
unfoldable pub visit_pages : ℕ → ℕ → M File (List Page)
visit_pages zero cur = throw cut_off
visit_pages (suc fuel) cur = elim (cur == invalid_number) [
  | true ↦ return []
  | false ↦ (do
    page ← file_read_page cur
    next ← file_next cur
    rest ← visit_pages fuel next
    return (page ∷ rest))
]
