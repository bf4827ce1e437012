-- ===== src/Files.antt =====
-- What the buffer manager uses of src/file.h and src/page.h, as an interface: a store that holds
-- the files, each behind one `File*`, and the four calls that the manager makes on a `File*`.
use cs564_project.Prelude.{ℕ}
use cs564_project.Exceptions.{Result}

-- A call of `readPage` that returns leaves the store as it was. `unread`, `unwritten`, `unallocated`
-- and `undeleted` are what a call that throws leaves. `Fit` is that the files are in order.
pub record Files : Type 1 where
  pub Page : Type 0
  pub Store : Type 0
  pub Fit : Store → Type 0
  pub blank : Page
  pub page_number : Page → ℕ
  pub read_page : Store → (file page_no : ℕ) → Result Page
  pub unread : Store → (file page_no : ℕ) → Store
  pub write_page : Store → (file : ℕ) → Page → Result Store
  pub unwritten : Store → (file : ℕ) → Page → Store
  pub allocate_page : Store → (file : ℕ) → Result (Page × Store)
  pub unallocated : Store → (file : ℕ) → Store
  pub delete_page : Store → (file page_no : ℕ) → Result Store
  pub undeleted : Store → (file page_no : ℕ) → Store
