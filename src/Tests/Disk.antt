-- ===== src/Tests/Disk.antt =====
-- A disk for the runs of src/buffer.cpp: the pages of all files in one list, the latest write first.
use cs564_project.Prelude.{
  ◌≡◌, arith, inl, inr, Option-cases, ℕ, ◌+◌, List, [], ◌∷◌, Option, none, some, true, ◌&&◌, ◌==◌,
  if◌then◌else◌, length,
}
use cs564_project.Exceptions.{Result, ok, err, invalid_page}
use cs564_project.Files.{Files}
use cs564_project.BufMgr.State.{BufMgr, new}
use cs564_project.BufMgr.Coherence.{FileLaws}
use cs564_project.BufMgr.History.{Request, run, reads, unpins, writes}

pub record Sheet : Type 0 where
  pub number : ℕ
  pub text : ℕ

pub record Stored : Type 0 where
  pub file : ℕ
  pub sheet : Sheet

abbrev pub found : List Stored → ℕ → ℕ → Option Stored
found [] f p = none
found (x ∷ xs) f p = if x.file == f && x.sheet.number == p then some x else found xs f p

abbrev pub without : List Stored → ℕ → ℕ → List Stored
without [] f p = []
without (x ∷ xs) f p =
    if x.file == f && x.sheet.number == p then without xs f p else x ∷ without xs f p

abbrev pub or_invalid {ℓ} : {A : Type ℓ} → Option Stored → ℕ → ℕ → (Stored → A) → Result A
or_invalid none f p g = err (invalid_page p f)
or_invalid (some x) f p g = ok (g x)

abbrev pub sheet : ℕ → ℕ → Sheet
sheet p text = record { number = p; text = text }

abbrev pub page : ℕ → ℕ → ℕ → Stored
page f p text = record { file = f; sheet = sheet p text }

abbrev pub disk : Files
disk = record {
  Page = Sheet;
  Store = List Stored;
  Fit = λ _. Unit {0};
  blank = sheet 0 0;
  page_number = λ x. x.number;
  read_page = λ st f p. or_invalid (found st f p) f p (λ x. x.sheet);
  write_page = λ st f x.
      or_invalid (found st f x.number) f x.number (λ _. record { file = f; sheet = x } ∷ st);
  unread = λ st f p. st;
  unwritten = λ st f x. st;
  unallocated = λ st f. st;
  undeleted = λ st f p. st;
  allocate_page =
      λ st f. let x = sheet (length st + 1) 0 in ok (x, record { file = f; sheet = x } ∷ st);
  delete_page = λ st f p. or_invalid (found st f p) f p (λ _. without st f p);
}

abbrev pub three_pages : List Stored
three_pages = page 8 1 10 ∷ page 8 2 20 ∷ page 8 3 30 ∷ []

-- A pool of two frames, before any call.
abbrev pub fresh : BufMgr disk
fresh = new 2 three_pages

-- One page is pinned, and the other is dirty and unpinned.
abbrev pub history : List (Request disk)
history = reads 8 1 ∷ reads 8 2 ∷ writes 1 (sheet 2 21) ∷ unpins 8 2 true ∷ []

abbrev pub busy : BufMgr disk
busy = run fresh history

-- Both frames are pinned.
abbrev pub full : BufMgr disk
full = run fresh (reads 8 1 ∷ reads 8 2 ∷ [])

-- The disk reads what was written.
found-number :
    (st : List Stored) (f p : ℕ) (x : Stored) → found st f p ≡ some x → x.sheet.number ≡ p
found-number [] f p x h = ground arith
found-number (y ∷ st) f p x h = ground (arith, found-number st f p x)

write_page_store :
    (st st' : List Stored) (f : ℕ) (pg : Sheet)
    → disk.write_page st f pg ≡ ok st'
    → st' ≡ record { file = f; sheet = pg } ∷ st
write_page_store st st' f pg h = elim (Option-cases (found st f pg.number)) [
  | inl none_found ↦ absurd (ground arith)
  | inr (x, e) ↦ ground arith
]

pub disk-FileLaws : FileLaws disk
disk-FileLaws = record {
  reads_written = λ st st' f pg fit h. rw (write_page_store st st' f pg h) (ground arith);
  reads_other = λ st st' f pg g q fit h other. rw (write_page_store st st' f pg h) (ground arith);
  write-Fit = λ st st' f pg fit h. tt;
  numbers = λ st f p pg fit h. elim (Option-cases (found st f p)) [
    | inl none_found ↦ absurd (ground arith)
    | inr (x, e) ↦ ground (arith, found-number st f p x)
  ];
}
