-- ===== src/Tests/Pool.antt =====
-- Runs of src/buffer.cpp on the disk.
use cs564_project.Prelude.{
  ℕ, ◌+◌, zero, suc, ◌<◌, ◌≡◌, refl, ◌⊎◌, [], ◌∷◌, none, some, true, false, arith, get_or, set,
  replicate,
}
use cs564_project.Exceptions.{ok, err, buffer_exceeded, page_not_pinned}
use cs564_project.Effects.{Outcome}
use cs564_project.HashTbl
use cs564_project.HashTbl.Laws.{view}
use cs564_project.BufMgr.State.{
  BufMgr, desc, set_desc, clear, assign, new, number_descs, table_size, write_frame, remove_entry,
  insert_entry, clear_desc,
}
use cs564_project.BufMgr.Clock.{advance_clock, evict, visit, alloc_loop, alloc_buf}
use cs564_project.BufMgr.Calls.{
  lookup_frame, pin, mark_referenced, fetch, assign_desc, load, lookup_pin, read_page, unpin,
  un_pin_page, alloc_page, dispose_page,
}
use cs564_project.BufMgr.Flush.{
  flush_file, check_frame, clean_desc, write_back, drop_frame, flush_frame, for_frames,
}
use cs564_project.BufMgr.Inv.{Inv}
use cs564_project.BufMgr.Sweep.{Swept, IsFree}
use cs564_project.BufMgr.Rounds.{Picked}
use cs564_project.BufMgr.Alloc.{AllPinned, alloc_buf-cases, alloc_loop_ends}
use cs564_project.BufMgr.Evict.{Allocated, alloc_buf-Allocated}
use cs564_project.BufMgr.Read.{Answers, read_page-Answers}
use cs564_project.BufMgr.Unpin.{released, un_pin_page_cases}
use cs564_project.BufMgr.Dispose.{Discarded, Deletes, dispose_page_cases}
use cs564_project.BufMgr.AllocPage.{alloc_page_leaks}
use cs564_project.BufMgr.FlushLaws.{Done, Fails, flush_file-Outcome}
use cs564_project.BufMgr.History.{step, step-Inv, run, run-new-Inv, reads, unpins}
use cs564_project.Tests.Disk.{disk, three_pages, fresh, history, busy, full, page, sheet}

pub busy-Inv : Inv busy
busy-Inv = run-new-Inv 2 three_pages history (omega arith) (omega arith)

full-Inv : Inv full
full-Inv = run-new-Inv 2 three_pages (reads 8 1 ∷ reads 8 2 ∷ []) (omega arith) (omega arith)

-- Both pages are in the pool, the first pinned, the second dirty.
busy_run :
    (view busy.hash_table 8 1 ≡ some 0)
    × (view busy.hash_table 8 2 ≡ some 1)
    × ((desc busy 0).pin_cnt ≡ 1)
    × ((desc busy 1).pin_cnt ≡ 0)
    × ((desc busy 1).dirty ≡ true)
unfolding run step read_page un_pin_page unpin load lookup_pin lookup_frame pin mark_referenced
    fetch assign_desc alloc_buf alloc_loop advance_clock visit evict insert_entry assign new
    number_descs clear table_size view HashTbl.new HashTbl.hash HashTbl.find HashTbl.insert
    HashTbl.lookup get_or set replicate
busy_run = (refl, refl, refl, refl, refl)

run-new-Inv_example : Inv (run fresh history)
run-new-Inv_example = run-new-Inv 2 three_pages history (omega arith) (omega arith)

full_fuel : full.num_bufs + full.num_bufs < 9
unfolding run step read_page load lookup_pin lookup_frame pin mark_referenced fetch assign_desc
    alloc_buf alloc_loop advance_clock visit evict insert_entry assign new number_descs clear
    table_size HashTbl.new HashTbl.hash HashTbl.find HashTbl.insert HashTbl.lookup get_or set
    replicate
full_fuel = omega arith

alloc_buf-cases_example :
    (Picked busy (alloc_buf busy) × ((j : ℕ) × (j < busy.num_bufs) × IsFree (desc busy j)))
    ⊎ ((t : BufMgr disk) × (alloc_buf busy ≡ (err buffer_exceeded, t))
        × Swept busy t
        × AllPinned busy)
alloc_buf-cases_example = alloc_buf-cases busy busy-Inv

alloc_loop_ends_example : alloc_loop 9 full.clock_hand 0 full ≡ some (alloc_buf full)
alloc_loop_ends_example = alloc_loop_ends full 9 full-Inv full_fuel

alloc_buf-Allocated_example : Allocated busy (alloc_buf busy)
alloc_buf-Allocated_example = alloc_buf-Allocated busy busy-Inv

read_page-Answers_example : Answers busy 8 2 (read_page 8 2 busy)
read_page-Answers_example = read_page-Answers busy 8 2 busy-Inv

flush_file-Outcome_example : Outcome (λ _. Done busy 8) (Fails busy 8) (flush_file 8 busy)
flush_file-Outcome_example = flush_file-Outcome busy 8 (omega arith) busy-Inv

un_pin_page_cases_example :
    ((view busy.hash_table 8 2 ≡ none) × (un_pin_page 8 2 false busy ≡ (ok tt, busy)))
    ⊎ ((k : ℕ) × (view busy.hash_table 8 2 ≡ some k)
        × ((((desc busy k).pin_cnt ≡ 0)
              × (un_pin_page 8 2 false busy ≡ (err (page_not_pinned 8 2 k), busy)))
            ⊎ ((0 < (desc busy k).pin_cnt)
                × (un_pin_page 8 2 false busy
                    ≡ (ok tt, set_desc k (released (desc busy k) false) busy))
                × Inv (set_desc k (released (desc busy k) false) busy))))
un_pin_page_cases_example = un_pin_page_cases busy 8 2 false busy-Inv

dispose_page_cases_example :
    (t : BufMgr disk) × Discarded busy 8 2 t × Deletes t 8 2 (dispose_page 8 2 busy)
dispose_page_cases_example = dispose_page_cases busy 8 2 busy-Inv

-- The file of the busy pool gives page 4, and the pool does not hold it.
pub busy_gives : disk.allocate_page busy.store 8 ≡ ok (sheet 4 0, page 8 4 0 ∷ three_pages)
unfolding run step read_page un_pin_page unpin load lookup_pin lookup_frame pin mark_referenced
    fetch assign_desc alloc_buf alloc_loop advance_clock visit evict insert_entry assign new
    number_descs clear table_size HashTbl.new HashTbl.hash HashTbl.find HashTbl.insert
    HashTbl.lookup get_or set replicate
busy_gives = refl

pub busy_lacks : view busy.hash_table 8 4 ≡ none
unfolding run step read_page un_pin_page unpin load lookup_pin lookup_frame pin mark_referenced
    fetch assign_desc alloc_buf alloc_loop advance_clock visit evict insert_entry assign new
    number_descs clear table_size HashTbl.new HashTbl.hash HashTbl.find HashTbl.insert
    HashTbl.lookup get_or set replicate view
busy_lacks = refl

full_gives : disk.allocate_page full.store 8 ≡ ok (sheet 4 0, page 8 4 0 ∷ three_pages)
unfolding run step read_page un_pin_page unpin load lookup_pin lookup_frame pin mark_referenced
    fetch assign_desc alloc_buf alloc_loop advance_clock visit evict insert_entry assign new
    number_descs clear table_size HashTbl.new HashTbl.hash HashTbl.find HashTbl.insert
    HashTbl.lookup get_or set replicate
full_gives = refl

full-AllPinned : AllPinned full
unfolding run step read_page un_pin_page unpin load lookup_pin lookup_frame pin mark_referenced
    fetch assign_desc alloc_buf alloc_loop advance_clock visit evict insert_entry assign new
    number_descs clear table_size HashTbl.new HashTbl.hash HashTbl.find HashTbl.insert
    HashTbl.lookup get_or set replicate
full-AllPinned zero h = (refl, omega arith)
full-AllPinned (suc zero) h = (refl, omega arith)
full-AllPinned (suc (suc j)) h = absurd (omega arith)

alloc_page_leaks_example :
    (t : BufMgr disk) × (alloc_page 8 full ≡ (err buffer_exceeded, t))
    × (t.store ≡ page 8 4 0 ∷ three_pages)
alloc_page_leaks_example =
    alloc_page_leaks full 8 (sheet 4 0) (page 8 4 0 ∷ three_pages) full-Inv full-AllPinned
      full_gives

-- Nothing is pinned, and one page is dirty.
abbrev pub calm : BufMgr disk
calm = step busy (unpins 8 1 false)

pub calm-Inv : Inv calm
calm-Inv = step-Inv busy (unpins 8 1 false) busy-Inv

calm_bound : 1 < calm.num_bufs
unfolding run step read_page un_pin_page unpin load lookup_pin lookup_frame pin mark_referenced
    fetch assign_desc alloc_buf alloc_loop advance_clock visit evict insert_entry assign new
    number_descs clear table_size HashTbl.new HashTbl.hash HashTbl.find HashTbl.insert
    HashTbl.lookup get_or set replicate
calm_bound = omega arith

flushed_run : flush_file 8 calm ≡ (ok tt, (flush_file 8 calm).1)
unfolding run step read_page un_pin_page unpin load lookup_pin lookup_frame pin mark_referenced
    fetch assign_desc alloc_buf alloc_loop advance_clock visit evict insert_entry assign new
    number_descs clear table_size HashTbl.new HashTbl.hash HashTbl.find HashTbl.insert
    HashTbl.lookup get_or set replicate flush_file for_frames check_frame flush_frame drop_frame
    write_back write_frame clean_desc remove_entry clear_desc HashTbl.remove HashTbl.unlink
flushed_run = refl

flush_writes_run : (flush_file 8 calm).1.store ≡ page 8 2 21 ∷ three_pages
unfolding run step read_page un_pin_page unpin load lookup_pin lookup_frame pin mark_referenced
    fetch assign_desc alloc_buf alloc_loop advance_clock visit evict insert_entry assign new
    number_descs clear table_size HashTbl.new HashTbl.hash HashTbl.find HashTbl.insert
    HashTbl.lookup get_or set replicate flush_file for_frames check_frame flush_frame drop_frame
    write_back write_frame clean_desc remove_entry clear_desc HashTbl.remove HashTbl.unlink
flush_writes_run = refl
