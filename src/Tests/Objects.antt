-- ===== src/Tests/Objects.antt =====
-- A run of the table of open files of src/file.cpp.
use cs564_project.Prelude.{ℕ, ◌≡◌, refl, false, ◌==◌, arith}
use cs564_project.Exceptions.{err, file_open}
use cs564_project.File.Registry.{
  Registry, at_start, open_if_needed, open_stream, close_file, copy_file, assign_file, remove_file,
  is_open, count_of,
}
use cs564_project.File.Handles.{Counts, more, fewer}
use cs564_project.File.Sharing.{done, opened, copied, assigned, destroyed, removed, Uses-Counts}

-- File 3 is on disk and is opened; the object is copied, the copy assigned to itself and the first
-- one destroyed; then a removal is refused.
abbrev start : Registry
start = at_start (λ f. f == 3)

abbrev after_open : Registry
after_open = (open_if_needed 3 false start).1

abbrev after_assign : Registry
after_assign = (assign_file 3 3 (copy_file 3 after_open).1).1

abbrev after_destroy : Registry
after_destroy = (close_file 3 after_assign).1

abbrev two_objects : ℕ → ℕ
two_objects = more (more (λ _. 0) 3) 3

removal_refused : remove_file 3 after_destroy ≡ (err (file_open 3), after_destroy)
unfolding at_start open_if_needed open_stream copy_file assign_file close_file remove_file is_open
    count_of
removal_refused = refl

Uses-Counts_example :
    Counts (remove_file 3 after_destroy).1 (fewer (more (fewer two_objects 3) 3) 3)
unfolding at_start open_if_needed open_stream
Uses-Counts_example =
    Uses-Counts (λ f. f == 3) (remove_file 3 after_destroy).1
      (fewer (more (fewer two_objects 3) 3) 3)
      (opened start after_open _ _ _ 3 false (omega arith) refl (
        copied after_open _ _ _ 3 (omega arith) (omega arith) (
          assigned _ _ two_objects _ 3 3 (omega arith) (omega arith) (omega arith) (
            destroyed after_assign _ _ _ 3 (omega arith)
              (removed after_destroy _ _ _ 3 (done _ _))))))
