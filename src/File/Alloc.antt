-- ===== src/File/Alloc.antt =====
-- `allocatePage` of src/file.cpp.
use cs564_project.Prelude.{
  ℕ, zero, suc, ◌+◌, ◌-◌, ◌%◌, ◌^◌, Bool, true, false, ◌||◌, not, ltb, ◌==◌, if◌then◌else◌,
}
use cs564_project.Exceptions.{assertion_failed, cut_off}
use cs564_project.Effects.{M, ◌>>=◌, ◌>>◌, return, throw}
use cs564_project.Page.State.{
  Page, is_used, page_number, set_page_number, set_next_page_number, invalid_number,
}
use cs564_project.File.State.{
  FileHeader, File, blank_page, read_header, write_header, read_any_page, file_read_page, put_page,
  file_begin, file_next,
}

-- `existing_page` and `next_page_number` after a loop.
pub record Place : Type 0 where
  pub existing_page : Page
  pub next_page_number : ℕ

-- The loop for a page that is used again: the last page before `n`, from `cur` on.
unfoldable pub find_place : ℕ → ℕ → ℕ → ℕ → M File Place
find_place n zero cur last = throw cut_off
find_place n (suc fuel) cur last = elim (cur == invalid_number) [
  | true ↦ return (record { existing_page = blank_page; next_page_number = last })
  | false ↦ (do
    page ← file_read_page cur
    elim (ltb n page.header.next_page_number || page.header.next_page_number == invalid_number) [
      | true ↦ (do
        again ← file_read_page cur
        return (record { existing_page = again; next_page_number = page.header.next_page_number }))
      | false ↦ (do next ← file_next cur; find_place n fuel next page.header.next_page_number)
    ])
]

-- The loop for a new page: the last page of the used ones, from `cur` on.
unfoldable pub find_tail : ℕ → ℕ → M File Page
find_tail zero cur = throw cut_off
find_tail (suc fuel) cur = elim (cur == invalid_number) [
  | true ↦ return blank_page
  | false ↦ (do
    page ← file_read_page cur
    elim (page.header.next_page_number == invalid_number) [
      | true ↦ file_read_page cur
      | false ↦ (do next ← file_next cur; find_tail fuel next)
    ])
]

-- The writes at the end.
unfoldable pub store_pages : Page → Page → FileHeader → M File Page
store_pages new_page existing_page header = do
  put_page (page_number new_page) new_page.header new_page
  if page_number existing_page == invalid_number
      then return tt
      else put_page (page_number existing_page) existing_page.header existing_page
  write_header header
  return new_page

abbrev pub free_lists_agree : FileHeader → Bool
free_lists_agree h =
    if h.num_free_pages == 0
    then h.first_free_page == invalid_number
    else not (h.first_free_page == invalid_number)

unfoldable pub checked_store : Page → Page → FileHeader → M File Page
checked_store new_page existing_page h =
    if free_lists_agree h then store_pages new_page existing_page h else throw assertion_failed

-- The branch with a free page, once that page is read. As many rounds as the file has pages and one
-- more are allowed to the loop.
unfoldable pub insert_page : FileHeader → Page → M File Page
insert_page header page =
    let n = header.first_free_page in
    let new_page = set_page_number page n in
    let rest = record header {
      first_free_page = new_page.header.next_page_number;
      num_free_pages = header.num_free_pages - 1;
    } in
    if header.first_used_page == invalid_number || ltb n header.first_used_page
    then checked_store
        (if ltb n header.first_used_page
          then set_next_page_number new_page header.first_used_page
          else new_page)
        blank_page (record rest { first_used_page = n })
    else (do
      cur ← file_begin
      place ← find_place n (header.num_pages + 1) cur invalid_number
      checked_store (set_next_page_number new_page place.next_page_number)
          (set_next_page_number place.existing_page n) rest)

unfoldable pub reuse_page : FileHeader → M File Page
reuse_page header = do page ← read_any_page header.first_free_page true; insert_page header page

-- The branch without one.
unfoldable pub append_page : FileHeader → M File Page
append_page header =
    let new_page = set_page_number blank_page header.num_pages in
    let rest = record header { num_pages = (header.num_pages + 1) % 2 ^ 32 } in
    if header.first_used_page == invalid_number
    then store_pages new_page blank_page (record rest { first_used_page = page_number new_page })
    else (do
      cur ← file_begin
      existing_page ← find_tail (header.num_pages + 1) cur
      if is_used existing_page
          then store_pages new_page (set_next_page_number existing_page (page_number new_page)) rest
          else throw assertion_failed)

unfoldable pub file_allocate_page : M File Page
file_allocate_page = do
  header ← read_header
  if ltb 0 header.num_free_pages then reuse_page header else append_page header
