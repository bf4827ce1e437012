-- ===== src/BufMgr/Calls.antt =====
-- src/buffer.cpp: readPage, unPinPage, allocPage and disposePage.
use cs564_project.Prelude.{ℕ, ◌+◌, ◌-◌, Option, none, some, Bool, true, ◌==◌, if◌then◌else◌}
use cs564_project.Exceptions.{Result, ok, err, hash_not_found, page_not_pinned}
use cs564_project.Effects.{bind_result, ◌>>=◌, ◌>>◌, return}
use cs564_project.Files.{Files}
use cs564_project.HashTbl
use cs564_project.HashTbl.{BufHashTbl}
use cs564_project.BufMgr.State.{
  BufMgr, Call, desc, set_desc, set_page, assign, remove_entry, insert_entry, clear_desc,
}
use cs564_project.BufMgr.Clock.{alloc_buf}

module _ {files : Files} where
  unfoldable pub lookup_frame : ℕ → ℕ → Call files ℕ
  lookup_frame file page_no s = (HashTbl.lookup s.hash_table file page_no, s)

  -- `try { body } catch (HashNotFoundException e) { … }`: `none` means that the handler is to run.
  abbrev pub caught_result :
      {A : Type 0} → Result A × BufMgr files → Result (Option A) × BufMgr files
  caught_result (ok a, s) = (ok (some a), s)
  caught_result (err (hash_not_found f p), s) = (ok none, s)
  caught_result (err e, s) = (err e, s)

  abbrev pub caught : {A : Type 0} → Call files A → Call files (Option A)
  caught body s = caught_result (body s)

  unfoldable pub pin : ℕ → Call files (Unit {0})
  pin i s = (ok tt, set_desc i (record (desc s i) { pin_cnt = (desc s i).pin_cnt + 1 }) s)

  unfoldable pub mark_referenced : ℕ → Call files (Unit {0})
  mark_referenced i s = (ok tt, set_desc i (record (desc s i) { refbit = true }) s)

  -- `bufPool[frame] = file->readPage(pageNo)`.
  unfoldable pub fetch : ℕ → ℕ → ℕ → Call files (Unit {0})
  fetch file page_no i s = elim (files.read_page s.store file page_no) [
    | ok p ↦ (ok tt, set_page i p s)
    | err e ↦ (err e, record s { store = files.unread s.store file page_no })
  ]

  unfoldable pub assign_desc : ℕ → ℕ → ℕ → Call files (Unit {0})
  unfolding assign
  assign_desc i file page_no s = (ok tt, set_desc i (assign (desc s i) file page_no) s)

  -- The handler of `readPage`, which is also the second half of `allocPage`.
  unfoldable pub load : ℕ → ℕ → Call files ℕ
  load file page_no = do
    i ← alloc_buf
    fetch file page_no i
    insert_entry file page_no i
    assign_desc i file page_no
    return i

  unfoldable pub lookup_pin : ℕ → ℕ → Call files ℕ
  lookup_pin file page_no = do i ← lookup_frame file page_no; pin i; return i

  abbrev pub or_load : Option ℕ → ℕ → ℕ → Call files ℕ
  or_load (some i) file page_no = return i
  or_load none file page_no = load file page_no

  unfoldable pub read_page : ℕ → ℕ → Call files ℕ
  read_page file page_no = do
    hit ← caught (lookup_pin file page_no)
    i ← or_load hit file page_no
    mark_referenced i
    return i

  -- The end of `unPinPage`, at the frame that `lookup` found.
  unfoldable pub unpin : ℕ → ℕ → Bool → ℕ → Call files (Unit {0})
  unpin file page_no dirty i s =
      let d = desc s i in
      if d.pin_cnt == 0 then (err (page_not_pinned file page_no i), s) else (
        ok tt,
        set_desc i (record d { pin_cnt = d.pin_cnt - 1; dirty = if dirty then true else d.dirty })
            s,
      )

  abbrev pub unpin_found : Option ℕ → ℕ → ℕ → Bool → Call files (Unit {0})
  unpin_found none file page_no dirty = return tt
  unpin_found (some i) file page_no dirty = unpin file page_no dirty i

  unfoldable pub un_pin_page : ℕ → ℕ → Bool → Call files (Unit {0})
  un_pin_page file page_no dirty = do
    hit ← caught (lookup_frame file page_no)
    unpin_found hit file page_no dirty

  unfoldable pub alloc_page : ℕ → Call files (ℕ × ℕ)
  alloc_page file s = elim (files.allocate_page s.store file) [
    | err e ↦ (err e, record s { store = files.unallocated s.store file })
    | ok (p, st) ↦
        let page_no = files.page_number p in
        bind_result (load file page_no (record s { store = st })) (λ i. return (page_no, i))
  ]

  -- The `try` block of `disposePage`.
  unfoldable pub discard : ℕ → ℕ → Call files (Unit {0})
  discard file page_no = do i ← lookup_frame file page_no; clear_desc i; remove_entry file page_no

  unfoldable pub delete_page : ℕ → ℕ → Call files (Unit {0})
  delete_page file page_no s = elim (files.delete_page s.store file page_no) [
    | ok st ↦ (ok tt, record s { store = st })
    | err e ↦ (err e, record s { store = files.undeleted s.store file page_no })
  ]

  unfoldable pub dispose_page : ℕ → ℕ → Call files (Unit {0})
  dispose_page file page_no = do caught (discard file page_no) >>= λ _. delete_page file page_no
