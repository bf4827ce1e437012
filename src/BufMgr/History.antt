-- ===== src/BufMgr/History.antt =====
-- Any history of calls of the buffer manager of src/buffer.cpp, from its constructor on.
use cs564_project.Prelude.{
  ℕ, zero, suc, ◌+◌, ◌^◌, ◌<◌, ◌≡◌, refl, ◌≢◌, List, [], ◌∷◌, Bool, false, arith, length, get_or,
  length-replicate, ap,
}
use cs564_project.Files.{Files}
use cs564_project.HashTbl.Laws.{view-new, new-IsValid}
use cs564_project.BufMgr.State.{BufMgr, no_desc, number_descs, new, clear, set_page, table_size}
use cs564_project.BufMgr.Calls.{read_page, un_pin_page, alloc_page, dispose_page}
use cs564_project.BufMgr.Flush.{flush_file}
use cs564_project.BufMgr.Inv.{Inv, IsIdle}
use cs564_project.BufMgr.Load.{set_page-Inv}
use cs564_project.BufMgr.Read.{read_page-Inv}
use cs564_project.BufMgr.Unpin.{un_pin_page-Inv}
use cs564_project.BufMgr.AllocPage.{alloc_page-Inv}
use cs564_project.BufMgr.Dispose.{dispose_page-Inv}
use cs564_project.BufMgr.FlushLaws.{flush_file-Inv}
use cs564_project.BufMgr.Coherence.{Coherent}

length-number_descs : (i n : ℕ) → length (number_descs i n) ≡ n
unfolding number_descs
length-number_descs i zero = refl
length-number_descs i (suc n) = ap suc (length-number_descs (i + 1) n)

number_descs-unused : (i n j : ℕ) → (get_or (number_descs i n) j no_desc).valid ≡ false
unfolding number_descs get_or clear
number_descs-unused i zero j = refl
number_descs-unused i (suc n) zero = refl
number_descs-unused i (suc n) (suc j) = number_descs-unused (i + 1) n j

number_descs-IsIdle : (i n j : ℕ) → IsIdle (get_or (number_descs i n) j no_desc)
unfolding number_descs get_or clear
number_descs-IsIdle i zero j = ground arith
number_descs-IsIdle i (suc n) zero = ground arith
number_descs-IsIdle i (suc n) (suc j) = number_descs-IsIdle (i + 1) n j

frame_no-number_descs : (i n j : ℕ) → j < n → (get_or (number_descs i n) j no_desc).frame_no ≡ i + j
unfolding number_descs get_or clear
frame_no-number_descs i zero j h = absurd (omega arith)
frame_no-number_descs i (suc n) zero h = omega arith
frame_no-number_descs i (suc n) (suc j) h =
    omega (arith, frame_no-number_descs (i + 1) n j (omega arith))

-- The calls of a client, and its writes to a page through the pointer that a call returned.
pub data Request (files : Files) : Type 0 where
  reads : (file page_no : ℕ) → Request files
  unpins : (file page_no : ℕ) (dirty : Bool) → Request files
  allocs : (file : ℕ) → Request files
  disposes : (file page_no : ℕ) → Request files
  flushes : (file : ℕ) → file ≢ 0 → Request files
  writes : (frame : ℕ) → files.Page → Request files

module _ {files : Files} where
  -- The constructor builds a pool that satisfies the invariant.
  pub new-Inv :
      (bufs : ℕ) (st : files.Store) → 0 < bufs → bufs < 2 ^ 32 → Inv (new {files = files} bufs st)
  unfolding new
  new-Inv bufs st h small = record {
    pos = h;
    small = small;
    hand = omega arith;
    descs = length-number_descs 0 bufs;
    pool = length-replicate bufs files.blank;
    table = new-IsValid (table_size bufs) (omega arith);
    mapped = λ i used. ground (arith, number_descs-unused 0 bufs i);
    owned = λ f p i e. ground (arith, view-new (table_size bufs) f p);
    idle = λ i _. number_descs-IsIdle 0 bufs i;
    numbered = λ i h. omega (arith, frame_no-number_descs 0 bufs i h);
  }

  -- A new pool holds no page.
  pub new-Coherent :
      (bufs : ℕ) (st : files.Store) → files.Fit st → Coherent (new {files = files} bufs st)
  unfolding new
  new-Coherent bufs st fit = record {
    fit = fit;
    number = λ i used. absurd (ground (arith, number_descs-unused 0 bufs i));
    synced = λ i used free clean. absurd (ground (arith, number_descs-unused 0 bufs i));
  }

  -- The state that a call leaves, also when it throws.
  unfoldable pub step : BufMgr files → Request files → BufMgr files
  step s (reads f p) = (read_page f p s).1
  step s (unpins f p dirty) = (un_pin_page f p dirty s).1
  step s (allocs f) = (alloc_page f s).1
  step s (disposes f p) = (dispose_page f p s).1
  step s (flushes f real) = (flush_file f s).1
  step s (writes frame page) = set_page frame page s

  unfoldable pub run : BufMgr files → List (Request files) → BufMgr files
  run s [] = s
  run s (r ∷ rs) = run (step s r) rs

  pub step-Inv : (s : BufMgr files) (r : Request files) → Inv s → Inv (step s r)
  unfolding step
  step-Inv s (reads f p) v = read_page-Inv s f p v
  step-Inv s (unpins f p dirty) v = un_pin_page-Inv s f p dirty v
  step-Inv s (allocs f) v = alloc_page-Inv s f v
  step-Inv s (disposes f p) v = dispose_page-Inv s f p v
  step-Inv s (flushes f real) v = flush_file-Inv s f real v
  step-Inv s (writes frame page) v = set_page-Inv frame page v

  pub run-Inv : (rs : List (Request files)) (s : BufMgr files) → Inv s → Inv (run s rs)
  unfolding run
  run-Inv [] s v = v
  run-Inv (r ∷ rs) s v = run-Inv rs (step s r) (step-Inv s r v)

  -- The descriptors, the hash table and the pool agree after any history of calls and of writes to
  -- pages, calls that throw included, on a new manager of at least one frame and less than 2 ^ 32.
  -- The files that are flushed are not NULL.
  pub run-new-Inv :
      (bufs : ℕ) (st : files.Store) (rs : List (Request files))
      → 0 < bufs
      → bufs < 2 ^ 32
      → Inv (run (new bufs st) rs)
  run-new-Inv bufs st rs h small = run-Inv rs (new bufs st) (new-Inv bufs st h small)
