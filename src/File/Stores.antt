-- ===== src/File/Stores.antt =====
-- The files of src/file.cpp as the interface of src/buffer.cpp, each file behind one `File*`.
use cs564_project.Prelude.{ℕ, ◌≡◌, true, false, ◌==◌, if◌then◌else◌}
use cs564_project.Exceptions.{Result, ok, err}
use cs564_project.Files.{Files}
use cs564_project.Page.Bytes.{Bytes}
use cs564_project.Page.State.{Page}
use cs564_project.File.State.{File, blank_page, file_read_page, file_write_page}
use cs564_project.File.Alloc.{file_allocate_page}
use cs564_project.File.Free.{file_delete_page}
use cs564_project.File.Chains.{number_of}

-- A page but for its link to the next page, which `writePage` takes from the file.
pub record Contents : Type 0 where
  pub free_space_lower_bound : ℕ
  pub free_space_upper_bound : ℕ
  pub num_slots : ℕ
  pub num_free_slots : ℕ
  pub current_page_number : ℕ
  pub data_ : Bytes

abbrev pub contents : Page → Contents
contents p = record {
  free_space_lower_bound = p.header.free_space_lower_bound;
  free_space_upper_bound = p.header.free_space_upper_bound;
  num_slots = p.header.num_slots;
  num_free_slots = p.header.num_free_slots;
  current_page_number = p.header.current_page_number;
  data_ = p.data_;
}

abbrev pub page_of : Contents → Page
page_of c = record {
  header = record {
    free_space_lower_bound = c.free_space_lower_bound;
    free_space_upper_bound = c.free_space_upper_bound;
    num_slots = c.num_slots;
    num_free_slots = c.num_free_slots;
    current_page_number = c.current_page_number;
    next_page_number = 0;
  };
  data_ = c.data_;
}

abbrev pub put_file : (ℕ → File) → ℕ → File → ℕ → File
put_file st f x g = if f == g then x else st g

abbrev pub read_result : Result Page × File → Result Contents
read_result (ok p, f) = ok (contents p)
read_result (err e, f) = err e

abbrev pub call_result : (ℕ → File) → ℕ → Result (Unit {0}) × File → Result (ℕ → File)
call_result st f (ok _, g) = ok (put_file st f g)
call_result st f (err e, g) = err e

abbrev pub page_result : (ℕ → File) → ℕ → Result Page × File → Result (Contents × (ℕ → File))
page_result st f (ok p, g) = ok (contents p, put_file st f g)
page_result st f (err e, g) = err e

-- The stream is good, the file has the pages that its header counts, and a used page has the number
-- of its place.
pub record InOrder (f : File) : Type 0 where
  pub good : f.good ≡ true
  pub extent : f.extent ≡ f.header.num_pages
  pub numbers : (n : ℕ) → (number_of f.pages n == 0) ≡ false → number_of f.pages n ≡ n

-- The files of the program, by the address of the one `File` object of each.
abbrev pub open_files : Files
open_files = record {
  Page = Contents;
  Store = ℕ → File;
  Fit = λ st. (f : ℕ) → InOrder (st f);
  blank = contents blank_page;
  page_number = λ c. c.current_page_number;
  read_page = λ st f p. read_result (file_read_page p (st f));
  unread = λ st f p. put_file st f (file_read_page p (st f)).1;
  write_page = λ st f c. call_result st f (file_write_page (page_of c) (st f));
  unwritten = λ st f c. put_file st f (file_write_page (page_of c) (st f)).1;
  allocate_page = λ st f. page_result st f (file_allocate_page (st f));
  unallocated = λ st f. put_file st f (file_allocate_page (st f)).1;
  delete_page = λ st f p. call_result st f (file_delete_page p (st f));
  undeleted = λ st f p. put_file st f (file_delete_page p (st f)).1;
}
