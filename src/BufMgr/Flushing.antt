-- ===== src/BufMgr/Flushing.antt =====
-- flushFile of src/buffer.cpp.
use cs564_project.Prelude.{
  ℕ, zero, suc, ◌+◌, ◌<◌, ◌≡◌, refl, ◌⊎◌, inl, inr, ◌∙◌, true, false, arith, Bool-cases, set-set,
  ap,
}
use cs564_project.Exceptions.{Exception, ok, err, Result-cases}
use cs564_project.Effects.{bind_result, Outcome, bind-Outcome}
use cs564_project.Files.{Files}
use cs564_project.HashTbl
use cs564_project.HashTbl.{BufHashTbl}
use cs564_project.HashTbl.Laws.{remove-Writes}
use cs564_project.BufMgr.State.{
  BufMgr, Call, desc, page_at, clear, set_desc, clear_desc, remove_entry, write_frame, write_failed,
}
use cs564_project.BufMgr.Flush.{clean_desc, write_back, drop_frame, for_frames}
use cs564_project.BufMgr.Inv.{Inv, desc-set_desc_self, with_table}
use cs564_project.BufMgr.Evict.{Evicted, release-Evicted}

module _ {files : Files} where
  -- The rule of the loops over the frames: `P i` holds before round `i`.
  pub for_frames-Outcome :
      (P : ℕ → BufMgr files → Type 0) (E : Exception → BufMgr files → Type 0)
      (body : ℕ → Call files (Unit {0})) (n : ℕ)
      → ((i : ℕ) (s : BufMgr files) → i < n → P i s → Outcome (λ _. P (i + 1)) E (body i s))
      → (count from : ℕ) (s : BufMgr files) → from + count ≡ n
      → P from s
      → Outcome (λ _. P n) E (for_frames from count body s)
  unfolding for_frames
  for_frames-Outcome P E body n keep zero from s e p =
      let e' : from ≡ n = omega arith in rw (← e') p
  for_frames-Outcome P E body n keep (suc count) from s e p =
      bind-Outcome (λ _. P (from + 1)) (λ _. P n) E (body from s)
        (λ _. for_frames (from + 1) count body) (keep from s (omega arith) p)
        (λ _ t q. for_frames-Outcome P E body n keep count (from + 1) t (omega arith) q)

  write_back_drop :
      (s : BufMgr files) (i : ℕ) (st : files.Store)
      → Inv s
      → i < s.num_bufs
      → files.write_page s.store (desc s i).file (page_at s i) ≡ ok st
      → write_back i s
        ≡ (ok tt, set_desc i (record (desc s i) { dirty = false }) (record s { store = st }))
  unfolding write_back write_frame clean_desc
  write_back_drop s i st v h e = rw (write_frame, e)

  write_back_fails :
      (s : BufMgr files) (i : ℕ) (x : Exception)
      → files.write_page s.store (desc s i).file (page_at s i) ≡ err x
      → write_back i s ≡ (err x, write_failed i s)
  unfolding write_back write_frame
  write_back_fails s i x e = rw (write_frame, e)

  unlink_clear :
      (u : BufMgr files) (f p i : ℕ) (t : BufHashTbl)
      → HashTbl.remove u.hash_table f p ≡ ok t
      → bind_result (remove_entry f p u) (λ _. clear_desc i)
        ≡ (ok tt, set_desc i (clear (desc u i)) (with_table t u.store u))
  unfolding remove_entry clear_desc
  unlink_clear u f p i t e = rw (remove_entry, e)

  -- Clearing a frame that was just marked clean is clearing it.
  clean_clear :
      (s : BufMgr files) (i : ℕ) (t : BufHashTbl) (st : files.Store)
      → Inv s
      → i < s.num_bufs
      → (let u = set_desc i (record (desc s i) { dirty = false }) (record s { store = st }) in
          set_desc i (clear (desc u i)) (with_table t u.store u))
        ≡ set_desc i (clear (desc s i)) (with_table t st s)
  unfolding clear
  clean_clear s i t st v h =
      rw (desc-set_desc_self i (record (desc s i) { dirty = false }) v h, set-set)

  -- The branch of the second loop at a frame of the file.
  pub drop_frame_cases :
      (s : BufMgr files) (i : ℕ)
      → Inv s
      → i < s.num_bufs
      → (desc s i).valid ≡ true
      → ((t : BufMgr files) × (drop_frame (desc s i).file i (desc s i) s ≡ (ok tt, t))
          × Evicted s i t)
        ⊎ ((e : Exception) × (drop_frame (desc s i).file i (desc s i) s ≡ (err e, write_failed i s))
            × ((desc s i).dirty ≡ true)
            × (files.write_page s.store (desc s i).file (page_at s i) ≡ err e))
  unfolding drop_frame
  drop_frame_cases s i v h used =
      let d = desc s i in
      let (t, removes, w) =
        remove-Writes s.hash_table v.table d.file d.page_no i (v.mapped i used) in
      elim (Bool-cases d.dirty) [
        | inr clean ↦ inl (
          _,
          simp clean (unlink_clear s d.file d.page_no i t removes),
          release-Evicted s i t s.store v h used (λ e. cc) (λ e. refl) w,
        )
        | inl dirty ↦ elim (Result-cases (files.write_page s.store d.file (page_at s i))) [
          | inl (st, e) ↦
              let u = set_desc i (record d { dirty = false }) (record s { store = st }) in
              inl (
                _,
                simp (dirty, write_back_drop s i st v h e)
                    (unlink_clear u d.file d.page_no i t removes
                      ∙ ap (λ x. (ok tt, x)) (clean_clear s i t st v h)),
                release-Evicted s i t st v h used (λ _. e) (λ e. cc) w,
              )
          | inr (x, e) ↦ inr (x, simp (dirty, write_back_fails s i x e), dirty, e)
        ]
      ]
