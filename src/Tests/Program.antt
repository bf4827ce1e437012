-- ===== src/Tests/Program.antt =====
-- The pool of src/buffer.cpp over the files of src/file.cpp.
use cs564_project.Prelude.{ℕ, inr, [], arith}
use cs564_project.File.State.{File, create}
use cs564_project.File.Alloc.{file_allocate_page}
use cs564_project.File.Chains.{Lists}
use cs564_project.File.Places.{insert_sorted}
use cs564_project.File.AllocLaws.{allocated, others_free}
use cs564_project.File.Stores.{InOrder, open_files}
use cs564_project.File.StoreLaws.{open_files-FileLaws}
use cs564_project.File.Orders.{Calls, created, allocates, Calls-Orderly}
use cs564_project.BufMgr.State.{BufMgr, new}
use cs564_project.BufMgr.Calls.{read_page}
use cs564_project.BufMgr.History.{new-Inv, new-Coherent}
use cs564_project.BufMgr.Transparent.{Transparent, read_page-Transparent}

-- A new file of one page.
abbrev one_page : ℕ → File
one_page name = (file_allocate_page (create name)).1

one_page-Calls :
    (name : ℕ)
    → Calls (one_page name) (insert_sorted (allocated (create name) []) []) (others_free [])
unfolding create
one_page-Calls name = allocates (create name) [] [] (created name) (omega arith) (inr (omega arith))

Calls-Orderly_example :
    Lists (one_page 8) (insert_sorted (allocated (create 8) []) []) (others_free [])
    × InOrder (one_page 8)
Calls-Orderly_example =
    Calls-Orderly (one_page 8) (insert_sorted (allocated (create 8) []) []) (others_free [])
      (one_page-Calls 8)

one_page-InOrder : (name : ℕ) → InOrder (one_page name)
one_page-InOrder name =
    let (_, order) =
      Calls-Orderly (one_page name) (insert_sorted (allocated (create name) []) []) (others_free [])
        (one_page-Calls name) in
    order

-- Two frames over such files.
abbrev pool : BufMgr open_files
pool = new 2 one_page

first_read : Transparent pool 8 1 (read_page 8 1 pool)
first_read =
    read_page-Transparent pool 8 1 open_files-FileLaws
      (new-Inv 2 one_page (omega arith) (omega arith)) (new-Coherent 2 one_page one_page-InOrder)
