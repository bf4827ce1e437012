-- ===== src/File/Orders.antt =====
-- The files that calls of src/file.cpp make from a new one.
use cs564_project.Prelude.{
  ℕ, ◌+◌, ◌^◌, ◌<◌, ◌≡◌, ◌≢◌, ◌⊎◌, inl, inr, refl, arith, List, [], ◌∷◌, length, ℕ_discrete, ap,
}
use cs564_project.Page.State.{Page, initialize, page_number}
use cs564_project.File.State.{File, blank_page, create, file_read_page, file_write_page}
use cs564_project.File.Alloc.{file_allocate_page}
use cs564_project.File.Free.{file_delete_page}
use cs564_project.File.Chains.{Lists, number_of, file_read_page-used}
use cs564_project.File.Places.{insert_sorted}
use cs564_project.File.Previous.{In, Used-In, remove_page}
use cs564_project.File.AllocLaws.{allocated, others_free}
use cs564_project.File.Allocation.{file_allocate_page-Allocated}
use cs564_project.File.Deleting.{file_delete_page-Freed}
use cs564_project.File.Access.{create-Lists, file_write_page-reads}
use cs564_project.File.Stores.{InOrder}

-- The files that come of a new one, with their used and their free pages. The numbers of pages fit 32
-- bits, an allocation without used pages has one free page at most, and pages that are deleted,
-- written or read are used ones.
pub data Calls : File → List ℕ → List ℕ → Type 0 where
  created : (name : ℕ) → Calls (create name) [] []
  allocates :
      (f : File) (us fs : List ℕ)
      → Calls f us fs
      → f.header.num_pages + 2 < 2 ^ 32
      → (0 < length us) ⊎ (length fs < 2)
      → Calls (file_allocate_page f).1 (insert_sorted (allocated f fs) us) (others_free fs)
  deletes :
      (f : File) (us fs : List ℕ) (n : ℕ)
      → Calls f us fs
      → In n us
      → f.header.num_free_pages + 1 < 2 ^ 32
      → Calls (file_delete_page n f).1 (remove_page n us) (n ∷ fs)
  writes :
      (f : File) (us fs : List ℕ) (page : Page)
      → Calls f us fs
      → In (page_number page) us
      → Calls (file_write_page page f).1 us fs
  reads :
      (f : File) (us fs : List ℕ) (n : ℕ)
      → Calls f us fs
      → In n us
      → Calls (file_read_page n f).1 us fs

abbrev pub Orderly : List ℕ → List ℕ → File → Type 0
Orderly us fs f = Lists f us fs × InOrder f

create-InOrder : (name : ℕ) → InOrder (create name)
unfolding create blank_page initialize
create-InOrder name = record {
  good = refl;
  extent = refl;
  numbers = λ n used. absurd (ground arith);
}

-- A page has the number of its place or none, and the others are as they were.
changed-InOrder :
    (f g : File) (us fs : List ℕ) (n : ℕ)
    → Lists g us fs
    → InOrder f
    → (number_of g.pages n ≡ n) ⊎ (number_of g.pages n ≡ 0)
    → ((k : ℕ) → k ≢ n → number_of g.pages k ≡ number_of f.pages k)
    → InOrder g
changed-InOrder f g us fs n v o here others = record {
  good = v.good;
  extent = v.extent;
  numbers = λ k used. elim (ℕ_discrete k n) [
    | yes e ↦ ground (arith, here, e)
    | no ne ↦ ground (arith, others k ne, o.numbers k)
  ];
}

allocates-Orderly :
    (f : File) (us fs : List ℕ)
    → Orderly us fs f
    → f.header.num_pages + 2 < 2 ^ 32
    → (0 < length us) ⊎ (length fs < 2)
    → Orderly (insert_sorted (allocated f fs) us) (others_free fs) (file_allocate_page f).1
allocates-Orderly f us fs (v, o) small few =
    let (g, page, run, number, a) = file_allocate_page-Allocated f us fs v small few in
    rw run (
      a.lists,
      changed-InOrder f g (insert_sorted (allocated f fs) us) (others_free fs) (allocated f fs)
          a.lists o (inl a.own) a.same_numbers,
    )

deletes-Orderly :
    (f : File) (us fs : List ℕ) (n : ℕ)
    → Orderly us fs f
    → In n us
    → f.header.num_free_pages + 1 < 2 ^ 32
    → Orderly (remove_page n us) (n ∷ fs) (file_delete_page n f).1
deletes-Orderly f us fs n (v, o) is few =
    let (g, run, d) = file_delete_page-Freed f us fs n v is few in
    let (_, _, _, none_there, _, _) = d.lists.free in
    rw run (
      d.lists,
      changed-InOrder f g (remove_page n us) (n ∷ fs) n d.lists o (inr none_there) d.same_numbers,
    )

writes-Orderly :
    (f : File) (us fs : List ℕ) (page : Page)
    → Orderly us fs f
    → In (page_number page) us
    → Orderly us fs (file_write_page page f).1
writes-Orderly f us fs page (v, o) is =
    let n = page_number page in
    let (g, run, w, _, others) = file_write_page-reads f us fs page v is in
    let (_, _, own) =
      Used-In g.pages g.header.num_pages n 0 g.header.first_used_page us w.used is in
    rw run (
      w,
      changed-InOrder f g us fs n w o (inl own)
          (λ k ne. ap (λ (p : Page). page_number p) (others k ne)),
    )

reads-Orderly :
    (f : File) (us fs : List ℕ) (n : ℕ)
    → Orderly us fs f
    → In n us
    → Orderly us fs (file_read_page n f).1
reads-Orderly f us fs n (v, o) is =
    let (low, high, own) =
      Used-In f.pages f.header.num_pages n 0 f.header.first_used_page us v.used is in
    rw (file_read_page-used f n v.good v.extent low high own) (v, o)

-- A file that calls make from a new one has its lists of used and of free pages in order, and is as
-- the buffer manager needs it: the stream is good, the file has the pages that its header counts,
-- and a used page has the number of its place. The numbers of pages are to fit 32 bits, an allocation
-- without used pages is to have one free page at most, and the pages that are deleted, written or
-- read are to be used ones.
pub Calls-Orderly : (f : File) (us fs : List ℕ) → Calls f us fs → Lists f us fs × InOrder f
Calls-Orderly _ _ _ (created name) = (create-Lists name, create-InOrder name)
Calls-Orderly _ _ _ (allocates f us fs c small few) =
    allocates-Orderly f us fs (Calls-Orderly f us fs c) small few
Calls-Orderly _ _ _ (deletes f us fs n c is few) =
    deletes-Orderly f us fs n (Calls-Orderly f us fs c) is few
Calls-Orderly _ _ _ (writes f us fs page c is) =
    writes-Orderly f us fs page (Calls-Orderly f us fs c) is
Calls-Orderly _ _ _ (reads f us fs n c is) = reads-Orderly f us fs n (Calls-Orderly f us fs c) is
