-- ===== src/BufMgr/FlushLaws.antt =====
-- flushFile of src/buffer.cpp as a whole.
use cs564_project.Prelude.{
  ℕ, ◌+◌, ◌<◌, ◌≡◌, refl, ◌≢◌, ◌⊎◌, inl, inr, none, true, ◌==◌, ltb, arith, Bool-cases,
  Option-cases, ℕ_discrete,
}
use mathlib.Core.Path.{subst}
use cs564_project.Exceptions.{Exception, Result, ok, err, page_pinned}
use cs564_project.Effects.{Outcome, bind-Outcome, weaken-Outcome}
use cs564_project.Files.{Files}
use cs564_project.HashTbl.Laws.{view}
use cs564_project.BufMgr.State.{BufMgr, desc, clear}
use cs564_project.BufMgr.Flush.{check_frame, flush_frame, for_frames, flush_file}
use cs564_project.BufMgr.Inv.{Inv, with_store-Inv}
use cs564_project.BufMgr.Flushing.{for_frames-Outcome}
use cs564_project.BufMgr.FlushFile.{Flushed, FlushFails, Flushed-start, flush_frame-Flushed}

module _ {files : Files} where
  -- No frame of the file below `i` is pinned.
  abbrev pub Unpinned : BufMgr files → ℕ → ℕ → Type 0
  Unpinned s f i = (j : ℕ) → j < i → (desc s j).file ≡ f → (desc s j).pin_cnt ≡ 0

  -- The first pinned frame of the file.
  pub record FirstPinned (s : BufMgr files) (f k : ℕ) : Type 0 where
    pub bound : k < s.num_bufs
    pub file : (desc s k).file ≡ f
    pub pinned : 0 < (desc s k).pin_cnt
    pub first : Unpinned s f k

  abbrev pub Checked : BufMgr files → ℕ → ℕ → BufMgr files → Type 0
  Checked s f i t = (t ≡ s) × Unpinned s f i

  abbrev pub CheckFails : BufMgr files → ℕ → Exception → BufMgr files → Type 0
  CheckFails s f e t =
      (t ≡ s) × ((k : ℕ) × FirstPinned s f k × (e ≡ page_pinned f (desc s k).page_no k))

  Unpinned-next :
      (s : BufMgr files) (f i : ℕ)
      → Unpinned s f i
      → ((desc s i).file ≡ f → (desc s i).pin_cnt ≡ 0)
      → Unpinned s f (i + 1)
  Unpinned-next s f i u here j h mine = elim (ℕ_discrete j i) [
    | yes e ↦ ground (arith, here, e)
    | no other ↦ u j (omega arith) mine
  ]

  -- One round of the first loop, for a file that is not NULL: a frame of the file is never invalid.
  check_frame-Checked :
      (s : BufMgr files) (f i : ℕ)
      → f ≢ 0
      → Inv s
      → i < s.num_bufs
      → Unpinned s f i
      → Outcome (λ _. Checked s f (i + 1)) (CheckFails s f) (check_frame f i s)
  unfolding check_frame
  check_frame-Checked s f i real v h u = elim (Bool-cases ((desc s i).file == f)) [
    | inr other ↦ rw other (refl, Unpinned-next s f i u (λ e. ground arith))
    | inl mine ↦
        let used : (desc s i).valid ≡ true = ground (arith, v.idle i) in
        elim (Bool-cases (ltb 0 (desc s i).pin_cnt)) [
          | inr free ↦ rw (mine, used, free) (refl, Unpinned-next s f i u (λ e. ground arith))
          | inl pinned ↦
              rw (mine, used, pinned)
                (
                  refl,
                  (
                    i,
                    record { bound = h; file = ground arith; pinned = ground arith; first = u },
                    refl,
                  ),
                )
        ]
  ]

  check_round :
      (s t : BufMgr files) (f i : ℕ)
      → f ≢ 0
      → Inv s
      → i < s.num_bufs
      → Checked s f i t
      → Outcome (λ _. Checked s f (i + 1)) (CheckFails s f) (check_frame f i t)
  check_round s t f i real v h (e, u) = rw e (check_frame-Checked s f i real v h u)

  -- The first loop.
  pub check_frames-Checked :
      (s : BufMgr files) (f : ℕ)
      → f ≢ 0
      → Inv s
      → Outcome
          (λ _. Checked s f s.num_bufs)
          (CheckFails s f)
          (for_frames 0 s.num_bufs (check_frame f) s)
  check_frames-Checked s f real v =
      for_frames-Outcome (Checked s f) (CheckFails s f) (check_frame f) s.num_bufs
        (λ i t h c. check_round s t f i real v h c) s.num_bufs 0 s (omega arith)
        (refl, λ j h. absurd (omega arith))

  abbrev pub Done : BufMgr files → ℕ → BufMgr files → Type 0
  Done s f t = Unpinned s f s.num_bufs × Flushed s f s.num_bufs t

  abbrev pub Fails : BufMgr files → ℕ → Exception → BufMgr files → Type 0
  Fails s f e t = CheckFails s f e t ⊎ (Unpinned s f s.num_bufs × FlushFails s f e t)

  -- `flushFile`, for a file that is not NULL and in a state of the invariant. It throws PagePinnedException for the first pinned
  -- frame of the file, with nothing changed. Otherwise no frame of the file is pinned, and it either
  -- clears them all, with their dirty pages written in order and nothing else changed, or it throws
  -- what the first write that fails throws, with the frames before that one cleared and the store as that write left it.
  -- BadBufferException never comes of it.
  pub flush_file-Outcome :
      (s : BufMgr files) (f : ℕ)
      → f ≢ 0
      → Inv s
      → Outcome (λ _. Done s f) (Fails s f) (flush_file f s)
  unfolding flush_file
  flush_file-Outcome s f real v =
      let n = s.num_bufs in
      let checks = check_frames-Checked s f real v in
      let flushes =
        for_frames-Outcome (Flushed s f) (FlushFails s f) (flush_frame f) n
          (λ i t h fl. flush_frame-Flushed s t f i real h fl) n 0 s (omega arith)
          (Flushed-start s f v) in
      bind-Outcome (λ _. Checked s f n) (λ _. Done s f) (Fails s f)
        (for_frames 0 n (check_frame f) s) (λ _. for_frames 0 n (flush_frame f))
        (weaken-Outcome (λ _. Checked s f n) (λ _. Checked s f n) (CheckFails s f) (Fails s f)
          (for_frames 0 n (check_frame f) s) checks (λ _ _ c. c) (λ _ _ x. inl x))
        (λ _ t c. rw c.0 (
          weaken-Outcome (λ _. Flushed s f n) (λ _. Done s f) (FlushFails s f) (Fails s f)
            (for_frames 0 n (flush_frame f) s) flushes (λ _ _ fl. (c.1, fl))
            (λ _ _ x. inr (c.1, x))))

  Flushed-entries :
      (s t : BufMgr files) (f p : ℕ)
      → f ≢ 0
      → Inv s
      → Flushed s f s.num_bufs t
      → view t.hash_table f p ≡ none
  unfolding clear
  Flushed-entries s t f p real v fl = elim (Option-cases (view t.hash_table f p)) [
    | inl gone ↦ gone
    | inr (k, there) ↦
        let (h, used, file, _) = fl.inv.owned f p k there in
        absurd (ground (arith, fl.frames k, fl.num_bufs))
  ]

  Flushed-idle :
      (s t : BufMgr files) (f i : ℕ)
      → i < s.num_bufs
      → Flushed s f s.num_bufs t
      → f ≢ 0
      → (desc t i).file ≢ f
  unfolding clear
  Flushed-idle s t f i h fl real = ground (arith, fl.frames i)

  -- In a state of the invariant, a flush of a file that is not NULL, if it returns, leaves no entry of the file in the hash table
  -- and no frame with the file.
  pub flush_file_clears :
      (s t : BufMgr files) (f p i : ℕ)
      → f ≢ 0
      → Inv s
      → i < s.num_bufs
      → flush_file f s ≡ (ok tt, t)
      → (view t.hash_table f p ≡ none) × ((desc t i).file ≢ f)
  flush_file_clears s t f p i real v h run =
      let (_, fl) : Done s f t =
        subst (Outcome (λ _. Done s f) (Fails s f)) run (flush_file-Outcome s f real v) in
      (Flushed-entries s t f p real v fl, Flushed-idle s t f i h fl real)

  Outcome-state :
      {A : Type 0} (P : BufMgr files → Type 0) (r : Result A × BufMgr files)
      → Outcome (λ _. P) (λ _. P) r
      → P r.1
  Outcome-state P (ok a, t) h = h
  Outcome-state P (err e, t) h = h

  Fails-Inv :
      (s : BufMgr files) (f : ℕ) (e : Exception) (t : BufMgr files) → Inv s → Fails s f e t → Inv t
  Fails-Inv s f e t v (inl x) = rw x.0 v
  Fails-Inv s f e t v (inr x) = with_store-Inv t.store x.1.before.inv

  pub flush_file-Inv : (s : BufMgr files) (f : ℕ) → f ≢ 0 → Inv s → Inv (flush_file f s).1
  flush_file-Inv s f real v = Outcome-state Inv (flush_file f s) (
      weaken-Outcome (λ _. Done s f) (λ _. Inv) (Fails s f) (λ _. Inv) (flush_file f s)
        (flush_file-Outcome s f real v) (λ _ _ d. d.1.inv) (λ e t x. Fails-Inv s f e t v x))
