-- ===== src/File/Free.antt =====
-- `deletePage` of src/file.cpp.
use cs564_project.Prelude.{ℕ, zero, suc, ◌+◌, ◌%◌, ◌^◌, true, false, ◌==◌, if◌then◌else◌}
use cs564_project.Exceptions.{cut_off}
use cs564_project.Effects.{M, ◌>>=◌, ◌>>◌, return, throw}
use cs564_project.Page.State.{
  Page, initialize, is_used, page_number, set_next_page_number, invalid_number,
}
use cs564_project.File.State.{
  FileHeader, File, blank_page, read_header, write_header, file_read_page, put_page, file_begin,
  file_next,
}

-- The loop for `previous_page`, which links over the page `n` to `next`.
unfoldable pub find_previous : ℕ → ℕ → ℕ → ℕ → Page → M File Page
find_previous n next zero cur last = throw cut_off
find_previous n next (suc fuel) cur last = elim (cur == invalid_number) [
  | true ↦ return last
  | false ↦ (do
    page ← file_read_page cur
    elim (page.header.next_page_number == n) [
      | true ↦ return (set_next_page_number page next)
      | false ↦ (do following ← file_next cur; find_previous n next fuel following page)
    ])
]

-- The page is cleared and becomes the first of the free ones.
unfoldable pub store_freed : ℕ → Page → Page → FileHeader → M File (Unit {0})
store_freed n existing_page previous_page header =
    let cleared = set_next_page_number (initialize existing_page) header.first_free_page in
    (do
      if is_used previous_page
          then put_page (page_number previous_page) previous_page.header previous_page
          else return tt
      put_page n cleared.header cleared
      write_header (record header {
        first_free_page = n;
        num_free_pages = (header.num_free_pages + 1) % 2 ^ 32;
      }))

unfoldable pub file_delete_page : ℕ → M File (Unit {0})
file_delete_page n = do
  header ← read_header
  existing_page ← file_read_page n
  if n == header.first_used_page
      then store_freed n existing_page blank_page
          (record header { first_used_page = existing_page.header.next_page_number })
      else (do
        cur ← file_begin
        previous_page ←
            find_previous (page_number existing_page) existing_page.header.next_page_number
              (header.num_pages + 1) cur blank_page
        store_freed n existing_page previous_page header)
