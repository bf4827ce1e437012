-- ===== src/Tests/FileRuns.antt =====
-- Runs of the operations of src/file.cpp, and their laws at concrete files.
use cs564_project.Prelude.{
  ℕ, ◌≡◌, ◌≢◌, refl, inl, inr, true, ◌==◌, List, [], ◌∷◌, map, arith, if◌then◌else◌,
}
use cs564_project.Exceptions.{Result, ok, err, invalid_page, indeterminate, cut_off}
use cs564_project.Effects.{◌>>=◌, ◌>>◌}
use cs564_project.Page.Bytes.{assign_bytes}
use cs564_project.Page.State.{
  Page, initialize, is_used, page_number, set_page_number, set_next_page_number,
}
use cs564_project.File.State.{
  File, blank_page, create, failed, put_page, read_header, write_header, read_page_header,
  read_any_page, file_read_page, file_write_page, file_begin, file_next, visit_pages,
}
use cs564_project.File.Alloc.{
  file_allocate_page, reuse_page, insert_page, append_page, checked_store, store_pages, find_place,
  find_tail,
}
use cs564_project.File.Free.{file_delete_page, find_previous, store_freed}
use cs564_project.File.Chains.{Lists, next_of}
use cs564_project.File.Walk.{visit_pages-all}
use cs564_project.File.Crossed.{file_allocate_page-crossed}
use cs564_project.File.Allocation.{Allocates, file_allocate_page-Allocated}
use cs564_project.File.Deleting.{DeletesPage, file_delete_page-Freed}
use cs564_project.File.Access.{with_link, file_write_page-reads, file_read_page-zero}

-- A page with its number and its link.
abbrev sheet : ℕ → ℕ → Page
sheet number next = record {
  header = record {
    free_space_lower_bound = 0;
    free_space_upper_bound = 8176;
    num_slots = 0;
    num_free_slots = 0;
    current_page_number = number;
    next_page_number = next;
  };
  data_ = record { size = 8176; byte = λ _. 0 };
}

-- The used pages 1 and 3, and the free pages 4 and 2.
abbrev shelf : File
shelf = record {
  filename = 7;
  good = true;
  header = record { num_pages = 5; first_used_page = 1; num_free_pages = 2; first_free_page = 4 };
  extent = 5;
  pages = λ k.
      if k == 1
      then sheet 1 3
      else if k == 3
      then sheet 3 0
      else if k == 4
      then sheet 0 2
      else sheet 0 0;
}

shelf-Lists : Lists shelf (1 ∷ 3 ∷ []) (4 ∷ 2 ∷ [])
shelf-Lists = record {
  good = refl;
  extent = refl;
  counted = omega arith;
  small = omega arith;
  used = (refl, omega arith, omega arith, refl, (refl, omega arith, omega arith, refl, refl));
  free = (
    refl,
    omega arith,
    omega arith,
    refl,
    (λ e. omega arith, tt),
    (refl, omega arith, omega arith, refl, tt, refl),
  );
  num_free = refl;
}

-- The pages 2 and 1 are free, and none is used.
abbrev all_free : File
all_free = record {
  filename = 7;
  good = true;
  header = record { num_pages = 3; first_used_page = 0; num_free_pages = 2; first_free_page = 2 };
  extent = 3;
  pages = λ k. if k == 2 then sheet 0 1 else sheet 0 0;
}

all_free-Lists : Lists all_free [] (2 ∷ 1 ∷ [])
all_free-Lists = record {
  good = refl;
  extent = refl;
  counted = omega arith;
  small = omega arith;
  used = refl;
  free = (
    refl,
    omega arith,
    omega arith,
    refl,
    (λ e. omega arith, tt),
    (refl, omega arith, omega arith, refl, tt, refl),
  );
  num_free = refl;
}

file_allocate_page-Allocated_example : Allocates shelf (1 ∷ 3 ∷ []) (4 ∷ 2 ∷ [])
file_allocate_page-Allocated_example =
    file_allocate_page-Allocated shelf (1 ∷ 3 ∷ []) (4 ∷ 2 ∷ []) shelf-Lists (omega arith)
      (inl (omega arith))

file_delete_page-Freed_example : DeletesPage shelf (1 ∷ 3 ∷ []) (4 ∷ 2 ∷ []) 3
file_delete_page-Freed_example =
    file_delete_page-Freed shelf (1 ∷ 3 ∷ []) (4 ∷ 2 ∷ []) 3 shelf-Lists (inr (inl refl))
      (omega arith)

visit_pages-all_example :
    (file_begin >>= visit_pages 6) shelf ≡ (ok (map shelf.pages (1 ∷ 3 ∷ [])), shelf)
visit_pages-all_example = visit_pages-all shelf (1 ∷ 3 ∷ []) (4 ∷ 2 ∷ []) shelf-Lists

file_allocate_page-crossed_example :
    (g : File) × (page : Page) × (file_allocate_page all_free ≡ (ok page, g))
    × (page_number page ≡ 2)
    × (page.header.next_page_number ≡ 1)
    × ((file_begin >>= visit_pages 2) g ≡ (err (invalid_page 1 7), g))
file_allocate_page-crossed_example = file_allocate_page-crossed all_free 2 1 [] 0 all_free-Lists

file_write_page-reads_example :
    (g : File) × (file_write_page (sheet 3 0) shelf ≡ (ok tt, g))
    × Lists g (1 ∷ 3 ∷ []) (4 ∷ 2 ∷ [])
    × (file_read_page 3 g ≡ (ok (with_link (sheet 3 0) (next_of shelf.pages 3)), g))
    × ((k : ℕ) → k ≢ 3 → g.pages k ≡ shelf.pages k)
file_write_page-reads_example =
    file_write_page-reads shelf (1 ∷ 3 ∷ []) (4 ∷ 2 ∷ []) (sheet 3 0) shelf-Lists (inr (inl refl))

file_read_page-zero_example :
    (file_read_page 0 shelf ≡ (err (invalid_page 0 7), failed shelf))
    × (file_read_page 1 (failed shelf) ≡ (err indeterminate, failed shelf))
    × (file_write_page (sheet 3 0) (failed shelf) ≡ (err indeterminate, failed shelf))
    × (file_allocate_page (failed shelf) ≡ (err indeterminate, failed shelf))
    × (file_delete_page 1 (failed shelf) ≡ (err indeterminate, failed shelf))
file_read_page-zero_example =
    file_read_page-zero shelf (1 ∷ 3 ∷ []) (4 ∷ 2 ∷ []) 1 (sheet 3 0) shelf-Lists

-- The numbers of the pages that an iteration visits.
abbrev numbers : {A : Type 0} → Result (List Page) × A → Result (List ℕ)
numbers (ok pages, f) = ok (map page_number pages)
numbers (err e, f) = err e

-- Pages come back into their places.
reused_pages :
    numbers (
      (do
        a ← file_allocate_page
        b ← file_allocate_page
        c ← file_allocate_page
        file_delete_page 2
        d ← file_allocate_page
        file_delete_page 1
        e ← file_allocate_page
        f ← file_allocate_page
        cur ← file_begin
        visit_pages 9 cur)
        (create 7))
    ≡ ok (1 ∷ 2 ∷ 3 ∷ 4 ∷ [])
unfolding create file_allocate_page reuse_page insert_page append_page checked_store store_pages
    find_place find_tail file_delete_page find_previous store_freed file_read_page read_any_page
    read_header read_page_header write_header put_page file_begin file_next visit_pages is_used
    set_page_number set_next_page_number initialize blank_page assign_bytes
reused_pages = refl

-- After one allocation more than in file_allocate_page-crossed the links go in a circle.
circle :
    numbers (
      (do
        a ← file_allocate_page
        b ← file_allocate_page
        file_delete_page 1
        file_delete_page 2
        c ← file_allocate_page
        d ← file_allocate_page
        cur ← file_begin
        visit_pages 50 cur)
        (create 7))
    ≡ err cut_off
unfolding create file_allocate_page reuse_page insert_page append_page checked_store store_pages
    find_place find_tail file_delete_page find_previous store_freed file_read_page read_any_page
    read_header read_page_header write_header put_page file_begin file_next visit_pages is_used
    set_page_number set_next_page_number initialize blank_page assign_bytes
circle = refl
