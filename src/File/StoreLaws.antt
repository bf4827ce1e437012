-- ===== src/File/StoreLaws.antt =====
-- `readPage` and `writePage` of src/file.cpp obey the laws that src/buffer.cpp relies on.
use cs564_project.Prelude.{
  ℕ, ◌≡◌, refl, inl, inr, ◌∙◌, Bool, true, false, ◌&&◌, not, ltb, leb, ◌==◌, arith, Bool-cases,
  ℕ_discrete, ap, sym,
}
use cs564_project.Exceptions.{Exception, ok, err, invalid_page, indeterminate}
use cs564_project.Page.State.{Page, initialize, is_used}
use cs564_project.File.State.{
  File, blank_page, with_page, put_page, read_page_header, read_any_page, file_read_page,
  file_write_page,
}
use cs564_project.File.Chains.{
  number_of, next_of, read_header-run, file_read_page-used, file_read_page-free,
}
use cs564_project.File.Access.{with_link}
use cs564_project.BufMgr.Coherence.{FileLaws}
use cs564_project.File.Stores.{
  Contents, contents, page_of, put_file, read_result, call_result, InOrder, open_files,
}

-- Whether page `n` is a used one.
abbrev held : File → ℕ → Bool
held f n = ltb 0 n && (ltb n f.extent && not (number_of f.pages n == 0))

read_page-held :
    (f : File) (n : ℕ)
    → InOrder f
    → held f n ≡ true
    → read_result (file_read_page n f) ≡ ok (contents (f.pages n))
read_page-held f n v h =
    let used : (number_of f.pages n == 0) ≡ false = ground arith in
    let ext = v.extent in
    rw (file_read_page-used f n v.good v.extent (ground arith) (ground arith) (v.numbers n used))
      refl

read_page-lacked :
    (f : File) (n : ℕ)
    → InOrder f
    → held f n ≡ false
    → read_result (file_read_page n f) ≡ err (invalid_page n f.filename)
unfolding file_read_page read_any_page is_used blank_page initialize
read_page-lacked f n v h =
    let ext = v.extent in
    elim (Bool-cases (leb f.header.num_pages n)) [
      | inl high ↦ rw (read_header-run f v.good, high) refl
      | inr low ↦ elim (Bool-cases (ltb 0 n)) [
        | inr none ↦
            let out : (f.good && (ltb 0 n && ltb n f.extent)) ≡ false = ground arith in
            rw (read_header-run f v.good, low, out) refl
        | inl some ↦
            rw
              (file_read_page-free f n v.good v.extent (ground arith) (ground arith) (ground arith))
              refl
      ]
    ]

abbrev written : File → Contents → File
written f c = record f {
  pages =
      with_page f.pages c.current_page_number
        (with_link (page_of c) (next_of f.pages c.current_page_number));
}

write_page-held :
    (f : File) (c : Contents)
    → InOrder f
    → held f c.current_page_number ≡ true
    → file_write_page (page_of c) f ≡ (ok tt, written f c)
unfolding file_write_page read_page_header put_page
write_page-held f c v h =
    let n = c.current_page_number in
    let inside : (f.good && (ltb 0 n && ltb n f.extent)) ≡ true = let g = v.good in ground arith in
    let there : ltb n f.extent ≡ true = ground arith in
    let mine : (number_of f.pages n == 0) ≡ false = ground arith in
    rw (file_write_page, inside, mine) (rw (v.good, there) refl)

write_page-lacked :
    (st : ℕ → File) (f : ℕ) (c : Contents)
    → InOrder (st f)
    → held (st f) c.current_page_number ≡ false
    → (x : Exception) × (call_result st f (file_write_page (page_of c) (st f)) ≡ err x)
unfolding file_write_page read_page_header
write_page-lacked st f c v h =
    let n = c.current_page_number in
    elim (Bool-cases ((st f).good && (ltb 0 n && ltb n (st f).extent))) [
      | inr out ↦ (indeterminate, rw (file_write_page, out) refl)
      | inl inside ↦
          let free : (number_of (st f).pages n == 0) ≡ true = ground arith in
          (invalid_page n (st f).filename, rw (file_write_page, inside, free) refl)
    ]

-- A write that returns is that of a page that the file holds.
record Wrote (st : ℕ → File) (f : ℕ) (c : Contents) (st' : ℕ → File) : Type 0 where
  held_page : held (st f) c.current_page_number ≡ true
  store : st' ≡ put_file st f (written (st f) c)

write_page-Wrote :
    (st st' : ℕ → File) (f : ℕ) (c : Contents)
    → InOrder (st f)
    → call_result st f (file_write_page (page_of c) (st f)) ≡ ok st'
    → Wrote st f c st'
write_page-Wrote st st' f c v e = elim (Bool-cases (held (st f) c.current_page_number)) [
  | inr lacks ↦
      let (x, throws) = write_page-lacked st f c v lacks in absurd (ground (arith, throws))
  | inl has ↦
      let run : call_result st f (file_write_page (page_of c) (st f))
          ≡ ok (put_file st f (written (st f) c)) =
        ap (call_result st f) (write_page-held (st f) c v has) in
      record { held_page = has; store = ground arith }
]

written-InOrder : (f : File) (c : Contents) → InOrder f → InOrder (written f c)
written-InOrder f c v = record {
  good = v.good;
  extent = v.extent;
  numbers = λ n used. ground (arith, v.numbers n);
}

put_file-InOrder :
    (st : ℕ → File) (f g : ℕ) (x : File) → InOrder (st g) → InOrder x → InOrder (put_file st f x g)
put_file-InOrder st f g x v w = elim (Bool-cases (f == g)) [
  | inl same ↦ rw same w
  | inr other ↦ rw other v
]

-- The other pages of the file that is written read as before.
written-reads :
    (f : File) (c : Contents) (q : ℕ)
    → InOrder f
    → (c.current_page_number == q) ≡ false
    → read_result (file_read_page q (written f c)) ≡ read_result (file_read_page q f)
written-reads f c q v other =
    let w = written-InOrder f c v in
    let same : (written f c).pages q ≡ f.pages q = ground arith in
    elim (Bool-cases (held f q)) [
      | inl has ↦
          read_page-held (written f c) q w (rw same has)
          ∙ ap (λ (p : Page). ok (contents p)) same
          ∙ sym (read_page-held f q v has)
      | inr lacks ↦
          read_page-lacked (written f c) q w (rw same lacks) ∙ sym (read_page-lacked f q v lacks)
    ]

written-reads_here :
    (f : File) (c : Contents)
    → InOrder f
    → held f c.current_page_number ≡ true
    → read_result (file_read_page c.current_page_number (written f c)) ≡ ok c
written-reads_here f c v has =
    let n = c.current_page_number in
    let here : (written f c).pages n ≡ with_link (page_of c) (next_of f.pages n) = ground arith in
    let mine : held (written f c) n ≡ true = ground arith in
    read_page-held (written f c) n (written-InOrder f c v) mine
    ∙ ap (λ (p : Page). ok (contents p)) here

-- The files of src/file.cpp, each behind one `File` object and in order, obey FileLaws, which the
-- theorems on the buffer manager ask for: after a `writePage` that returns, `readPage` gives what was
-- written, any other page of any file reads as before, and the files are in order; and a page that
-- `readPage` gives has the number that was asked for.
pub open_files-FileLaws : FileLaws open_files
open_files-FileLaws = record {
  reads_written = λ st st' f c v e.
      let w = write_page-Wrote st st' f c (v f) e in
      let at : st' f ≡ written (st f) c = rw w.store (ground arith) in
      rw at (written-reads_here (st f) c (v f) w.held_page);
  reads_other = λ st st' f c g q v e other.
      let w = write_page-Wrote st st' f c (v f) e in
      elim (ℕ_discrete f g) [
        | no apart ↦ let at : st' g ≡ st g = rw w.store (ground arith) in rw at refl
        | yes same ↦
            let at : st' g ≡ written (st g) c = rw w.store (ground arith) in
            rw at (written-reads (st g) c q (v g) (ground arith))
      ];
  write-Fit = λ st st' f c v e g.
      let w = write_page-Wrote st st' f c (v f) e in
      rw w.store
        (put_file-InOrder st f g (written (st f) c) (v g) (written-InOrder (st f) c (v f)));
  numbers = λ st f p c v e. elim (Bool-cases (held (st f) p)) [
    | inr lacks ↦ absurd (ground (arith, read_page-lacked (st f) p (v f) lacks))
    | inl has ↦
        let read = read_page-held (st f) p (v f) has in
        let own = (v f).numbers p (ground arith) in
        let same : c ≡ contents ((st f).pages p) = ground arith in rw same own
  ];
}
