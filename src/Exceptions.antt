-- ===== src/Exceptions.antt =====
-- src/exceptions: the exceptions that the storage manager throws, as one data type, and results.
-- A `File*` is its address (0 is NULL); it stands where the source stores the file's name.
use cs564_project.Prelude.{ℕ, Bool, ◌≡◌, refl, ◌⊎◌, inl, inr}

pub data Exception : Type 0 where
  hash_already_present : (file page_no frame_no : ℕ) → Exception
  hash_not_found : (file page_no : ℕ) → Exception
  buffer_exceeded : Exception
  page_not_pinned : (file page_no frame_no : ℕ) → Exception
  page_pinned : (file page_no frame_no : ℕ) → Exception
  bad_buffer : (frame_no : ℕ) (dirty valid refbit : Bool) → Exception
  invalid_page : (page_no file : ℕ) → Exception
  insufficient_space : (page_no requested available : ℕ) → Exception
  invalid_record : (record_page record_slot page_no : ℕ) → Exception
  invalid_slot : (page_no slot_no : ℕ) → Exception
  slot_in_use : (page_no slot_no : ℕ) → Exception
  file_exists : (file : ℕ) → Exception
  file_not_found : (file : ℕ) → Exception
  file_open : (file : ℕ) → Exception
  -- `std::out_of_range` of a string's methods, and an `assert` that fails and ends the program.
  out_of_range : Exception
  assertion_failed : Exception
  -- No exceptions of the code: a value that was never set is read, and a loop is cut off.
  indeterminate : Exception
  cut_off : Exception

pub data Result {ℓ} (A : Type ℓ) : Type ℓ where
  ok : A → Result A
  err : Exception → Result A

pub Result-cases {ℓ} :
    {A : Type ℓ} (r : Result A) → ((a : A) × (r ≡ ok a)) ⊎ ((e : Exception) × (r ≡ err e))
Result-cases (ok a) = inl (a, refl)
Result-cases (err e) = inr (e, refl)
