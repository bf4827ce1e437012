-- ===== src/BufMgr/Clock.antt =====
-- src/buffer.cpp: advanceClock and allocBuf, the clock algorithm.
use cs564_project.Prelude.{
  ℕ, zero, suc, ◌+◌, ◌%◌, ◌^◌, Option, none, some, true, false, not, ◌==◌, ltb, if◌then◌else◌,
}
use cs564_project.Exceptions.{Result, ok, err, buffer_exceeded}
use cs564_project.Effects.{◌>>◌, return}
use cs564_project.Files.{Files}
use cs564_project.BufMgr.State.{
  BufDesc, BufMgr, Call, desc, set_desc, write_frame, remove_entry, clear_desc,
}

-- What one round of the loop of `allocBuf` does: it ends with a result, or goes on in a new state.
pub data Sweep (files : Files) : Type 0 where
  stop : Result ℕ × BufMgr files → Sweep files
  go : BufMgr files → Sweep files

module _ {files : Files} where
  unfoldable pub advance_clock : BufMgr files → BufMgr files
  advance_clock s = record s { clock_hand = ((s.clock_hand + 1) % 2 ^ 32) % s.num_bufs }

  -- The end of the loop's body in `allocBuf`: frame `i`, whose descriptor is `d`, is the victim.
  unfoldable pub evict : ℕ → BufDesc → Call files ℕ
  unfolding write_frame remove_entry clear_desc
  evict i d = do
    if d.dirty then write_frame i else return tt
    remove_entry d.file d.page_no
    clear_desc i
    return i

  -- The body of the loop behind `advanceClock`, at the frame under the hand.
  unfoldable pub visit : BufMgr files → Sweep files
  unfolding evict
  visit s =
      let i = s.clock_hand in
      let d = desc s i in
      if not d.valid
      then stop (ok i, s)
      else if d.refbit
      then go (set_desc i (record d { refbit = false }) s)
      else if ltb 0 d.pin_cnt
      then go s
      else stop (evict i d s)

  -- `while (pass < 2)`, on fuel; `none` means that the fuel ran out.
  unfoldable pub alloc_loop : ℕ → ℕ → ℕ → BufMgr files → Option (Result ℕ × BufMgr files)
  alloc_loop zero flag pass s = none
  alloc_loop (suc fuel) flag pass s =
      let moved = advance_clock s in
      elim (ltb pass 2) [
        | false ↦ some (err buffer_exceeded, s)
        | true ↦ elim (visit moved) [
          | stop r ↦ some r
          | go t ↦ alloc_loop fuel flag (if moved.clock_hand == flag then pass + 1 else pass) t
        ]
      ]

  -- Two rounds of the clock, and the test that ends the loop.
  abbrev pub alloc_fuel : BufMgr files → ℕ
  alloc_fuel s = s.num_bufs + s.num_bufs + 1

  abbrev pub or_exceeded : Option (Result ℕ × BufMgr files) → BufMgr files → Result ℕ × BufMgr files
  or_exceeded (some r) s = r
  or_exceeded none s = (err buffer_exceeded, s)

  unfoldable pub alloc_buf : Call files ℕ
  alloc_buf s = or_exceeded (alloc_loop (alloc_fuel s) s.clock_hand 0 s) s
