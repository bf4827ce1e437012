-- ===== src/Tests/Cache.antt =====
-- The pool of src/buffer.cpp as a cache of the disk.
use cs564_project.Prelude.{
  ◌<◌, ◌≢◌, ℕ, zero, suc, ◌≡◌, refl, inr, true, false, arith, get_or, set, replicate,
}
use cs564_project.Exceptions.{ok}
use cs564_project.Effects.{Outcome}
use cs564_project.HashTbl
use cs564_project.HashTbl.Laws.{view}
use cs564_project.BufMgr.State.{
  set_page, desc, page_at, clear, assign, new, number_descs, table_size, write_frame, remove_entry,
  insert_entry, clear_desc,
}
use cs564_project.BufMgr.Clock.{advance_clock, evict, visit, alloc_loop, alloc_buf}
use cs564_project.BufMgr.Calls.{
  lookup_frame, pin, mark_referenced, fetch, assign_desc, load, lookup_pin, read_page, unpin,
  un_pin_page,
}
use cs564_project.BufMgr.Flush.{flush_file}
use cs564_project.BufMgr.Coherence.{content, Coherent}
use cs564_project.BufMgr.Transparent.{
  Transparent, Preserved, Interrupted, LeftBy, read_page-Transparent, un_pin_page-Preserved,
}
use cs564_project.BufMgr.Sweep.{IsPinned}
use cs564_project.BufMgr.Writing.{written_page_flushed}
use cs564_project.BufMgr.Durable.{OnDisk, flush_file-OnDisk}
use cs564_project.BufMgr.History.{step, run}
use cs564_project.Tests.Disk.{disk, disk-FileLaws, busy, sheet}
use cs564_project.Tests.Pool.{busy-Inv, calm, calm-Inv}

busy_number :
    (i : ℕ) → (desc busy i).valid ≡ true → disk.page_number (page_at busy i) ≡ (desc busy i).page_no
unfolding run step read_page un_pin_page unpin load lookup_pin lookup_frame pin mark_referenced
    fetch assign_desc alloc_buf alloc_loop advance_clock visit evict insert_entry assign new
    number_descs clear table_size HashTbl.new HashTbl.hash HashTbl.find HashTbl.insert
    HashTbl.lookup get_or set replicate
busy_number zero used = refl
busy_number (suc zero) used = refl
busy_number (suc (suc i)) used = absurd (ground arith)

busy_synced :
    (i : ℕ)
    → (desc busy i).valid ≡ true
    → (desc busy i).pin_cnt ≡ 0
    → (desc busy i).dirty ≡ false
    → disk.read_page busy.store (desc busy i).file (desc busy i).page_no ≡ ok (page_at busy i)
unfolding run step read_page un_pin_page unpin load lookup_pin lookup_frame pin mark_referenced
    fetch assign_desc alloc_buf alloc_loop advance_clock visit evict insert_entry assign new
    number_descs clear table_size HashTbl.new HashTbl.hash HashTbl.find HashTbl.insert
    HashTbl.lookup get_or set replicate
busy_synced zero used free clean = absurd (omega arith)
busy_synced (suc zero) used free clean = absurd (ground arith)
busy_synced (suc (suc i)) used free clean = absurd (ground arith)

busy-Coherent : Coherent busy
busy-Coherent = record { fit = tt; number = busy_number; synced = busy_synced }

-- The read evicts the dirty page.
read_page-Transparent_example : Transparent busy 8 3 (read_page 8 3 busy)
read_page-Transparent_example = read_page-Transparent busy 8 3 disk-FileLaws busy-Inv busy-Coherent

evict_run : content (read_page 8 3 busy).1 8 2 ≡ ok (sheet 2 21)
unfolding run step read_page un_pin_page unpin load lookup_pin lookup_frame pin mark_referenced
    fetch assign_desc alloc_buf alloc_loop advance_clock visit evict insert_entry assign new
    number_descs clear table_size HashTbl.new HashTbl.hash HashTbl.find HashTbl.insert
    HashTbl.lookup get_or set replicate content view write_frame remove_entry clear_desc
    HashTbl.remove HashTbl.unlink
evict_run = refl

busy_settled : disk.read_page busy.store 8 1 ≡ content busy 8 1
unfolding run step read_page un_pin_page unpin load lookup_pin lookup_frame pin mark_referenced
    fetch assign_desc alloc_buf alloc_loop advance_clock visit evict insert_entry assign new
    number_descs clear table_size HashTbl.new HashTbl.hash HashTbl.find HashTbl.insert
    HashTbl.lookup get_or set replicate content view
busy_settled = refl

un_pin_page-Preserved_example : Preserved busy (un_pin_page 8 1 false busy).1
un_pin_page-Preserved_example =
    un_pin_page-Preserved busy 8 1 false busy-Inv busy-Coherent (inr busy_settled)

calm-Coherent : Coherent calm
unfolding step
calm-Coherent =
    let kept = un_pin_page-Preserved busy 8 1 false busy-Inv busy-Coherent (inr busy_settled) in
    kept.coherent

flush_file-OnDisk_example :
    Outcome (λ _ t. Preserved calm t × OnDisk calm 8 t) (λ _. Interrupted calm) (flush_file 8 calm)
flush_file-OnDisk_example =
    flush_file-OnDisk calm 8 disk-FileLaws (omega arith) calm-Inv calm-Coherent

busy-IsPinned : (0 < busy.num_bufs) × IsPinned (desc busy 0)
unfolding run step read_page un_pin_page unpin load lookup_pin lookup_frame pin mark_referenced
    fetch assign_desc alloc_buf alloc_loop advance_clock visit evict insert_entry assign new
    number_descs clear table_size HashTbl.new HashTbl.hash HashTbl.find HashTbl.insert
    HashTbl.lookup get_or set replicate content view write_frame remove_entry clear_desc
    HashTbl.remove HashTbl.unlink
busy-IsPinned = (omega arith, (refl, omega arith))

busy_own : (disk.page_number (sheet 1 99) ≡ (desc busy 0).page_no) × ((desc busy 0).file ≢ 0)
unfolding run step read_page un_pin_page unpin load lookup_pin lookup_frame pin mark_referenced
    fetch assign_desc alloc_buf alloc_loop advance_clock visit evict insert_entry assign new
    number_descs clear table_size HashTbl.new HashTbl.hash HashTbl.find HashTbl.insert
    HashTbl.lookup get_or set replicate content view write_frame remove_entry clear_desc
    HashTbl.remove HashTbl.unlink
busy_own = (refl, omega arith)

written_page_flushed_example :
    let f = (desc busy 0).file in
    let p = (desc busy 0).page_no in
    Outcome
      (λ _ t. disk.read_page t.store f p ≡ ok (sheet 1 99))
      (λ _ t.
        (last : disk.Store) × LeftBy last t
        × (content (record t { store = last }) f p ≡ ok (sheet 1 99)))
      (flush_file f (un_pin_page f p true (set_page 0 (sheet 1 99) busy)).1)
written_page_flushed_example =
    written_page_flushed busy 0 (sheet 1 99) disk-FileLaws busy-Inv busy-Coherent busy-IsPinned.0
      busy-IsPinned.1 busy_own.0 busy_own.1
