-- ===== src/BufMgr/Flush.antt =====
-- src/buffer.cpp: flushFile, the destructor and the count of printSelf.
use cs564_project.Prelude.{
  ℕ, zero, suc, ◌+◌, List, [], ◌∷◌, false, ◌&&◌, not, ◌==◌, ltb, if◌then◌else◌,
}
use cs564_project.Exceptions.{ok, err, page_pinned, bad_buffer}
use cs564_project.Effects.{bind_result, ◌>>◌, return}
use cs564_project.Files.{Files}
use cs564_project.BufMgr.State.{
  BufDesc, BufMgr, Call, desc, set_desc, clear_stats, write_frame, remove_entry, clear_desc,
}

-- The count that `printSelf` prints last.
unfoldable pub valid_frames : List BufDesc → ℕ
valid_frames [] = 0
valid_frames (d ∷ ds) = (if d.valid then 1 else 0) + valid_frames ds

module _ {files : Files} where
  -- The first loop of `flushFile` at frame `i`.
  unfoldable pub check_frame : ℕ → ℕ → Call files (Unit {0})
  check_frame file i s =
      let d = desc s i in
      if d.file == file
      then (if not d.valid
          then (err (bad_buffer i d.dirty d.valid d.refbit), s)
          else if ltb 0 d.pin_cnt
          then (err (page_pinned file d.page_no i), s)
          else (ok tt, s))
      else (ok tt, s)

  unfoldable pub clean_desc : ℕ → Call files (Unit {0})
  clean_desc i s = (ok tt, set_desc i (record (desc s i) { dirty = false }) s)

  -- The branch of the second loop that writes a dirty frame `i` back.
  unfoldable pub write_back : ℕ → Call files (Unit {0})
  write_back i = do write_frame i; clean_desc i

  -- The body of that branch, whose frame belongs to the file.
  unfoldable pub drop_frame : ℕ → ℕ → BufDesc → Call files (Unit {0})
  drop_frame file i d = do
    if d.dirty then write_back i else return tt
    remove_entry file d.page_no
    clear_desc i

  -- The second loop at frame `i`.
  unfoldable pub flush_frame : ℕ → ℕ → Call files (Unit {0})
  flush_frame file i s =
      let d = desc s i in if d.file == file then drop_frame file i d s else (ok tt, s)

  -- `for (i = from; i < from + count; i++) body(i)`.
  unfoldable pub for_frames : ℕ → ℕ → (ℕ → Call files (Unit {0})) → Call files (Unit {0})
  for_frames from zero body = return tt
  for_frames from (suc count) body = do body from; for_frames (from + 1) count body

  unfoldable pub flush_file : ℕ → Call files (Unit {0})
  flush_file file s =
      bind_result (for_frames 0 s.num_bufs (check_frame file) s)
        λ _ t. for_frames 0 s.num_bufs (flush_frame file) t

  -- The loop of the destructor at frame `i`; the deallocation leaves nothing to observe.
  unfoldable pub destroy_frame : ℕ → Call files (Unit {0})
  destroy_frame i s =
      let d = desc s i in if d.valid && d.dirty then flush_file d.file s else (ok tt, s)

  unfoldable pub destroy : Call files (Unit {0})
  destroy s = for_frames 0 s.num_bufs destroy_frame s

  unfoldable pub clear_buf_stats : BufMgr files → BufMgr files
  unfolding clear_stats
  clear_buf_stats s = record s { buf_stats = clear_stats s.buf_stats }
