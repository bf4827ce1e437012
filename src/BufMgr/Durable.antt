-- ===== src/BufMgr/Durable.antt =====
-- flushFile of src/buffer.cpp brings what a client finds at the pages of the file to disk.
use cs564_project.Prelude.{
  ℕ, ◌+◌, ◌<◌, ◌≡◌, refl, ◌≢◌, inl, inr, ◌∙◌, true, ◌==◌, arith, Bool-cases, Option-cases,
  ℕ_discrete, sym,
}
use cs564_project.Exceptions.{Exception}
use cs564_project.Effects.{Outcome, bind-Outcome, weaken-Outcome}
use cs564_project.Files.{Files}
use cs564_project.HashTbl.Laws.{view}
use cs564_project.BufMgr.State.{BufMgr, desc, page_at, clear}
use cs564_project.BufMgr.Flush.{check_frame, flush_frame, for_frames, flush_file}
use cs564_project.BufMgr.Inv.{Inv}
use cs564_project.BufMgr.Sweep.{Swept-refl}
use cs564_project.BufMgr.Evict.{Evicted, Evicted-Freed, Freed}
use cs564_project.BufMgr.Flushing.{for_frames-Outcome, drop_frame_cases}
use cs564_project.BufMgr.FlushFile.{flush_mine, flush_other}
use cs564_project.BufMgr.FlushLaws.{Unpinned, Checked, CheckFails, check_frames-Checked}
use cs564_project.BufMgr.Coherence.{
  FileLaws, content, Coherent, content-miss, Freed-content, Freed-Coherent,
}
use cs564_project.BufMgr.Transparent.{Preserved, Interrupted}

module _ {files : Files} where
  -- Before round `i` of the second loop, which began in `s`.
  record Kept (s : BufMgr files) (f i : ℕ) (t : BufMgr files) : Type 0 where
    inv : Inv t
    num_bufs : t.num_bufs ≡ s.num_bufs
    preserved : Preserved s t
    unpinned : Unpinned t f s.num_bufs
    cleared : (j : ℕ) → j < i → (desc t j).file ≢ f

  Kept-skip :
      (s t : BufMgr files) (f i : ℕ) → Kept s f i t → (desc t i).file ≢ f → Kept s f (i + 1) t
  Kept-skip s t f i k other = record {
    inv = k.inv;
    num_bufs = k.num_bufs;
    preserved = k.preserved;
    unpinned = k.unpinned;
    cleared =
        λ j h. elim (ℕ_discrete j i) [ yes e ↦ rw e other | no ne ↦ k.cleared j (omega arith) ];
  }

  Kept-drop :
      (s t u : BufMgr files) (f i : ℕ)
      → FileLaws files
      → f ≢ 0
      → i < s.num_bufs
      → Kept s f i t
      → (desc t i).file ≡ f
      → Evicted t i u
      → Kept s f (i + 1) u
  unfolding clear
  Kept-drop s t u f i laws real h k mine e =
      let used : (desc t i).valid ≡ true = ground (arith, k.inv.idle i) in
      let bound : i < t.num_bufs = ground (arith, k.num_bufs) in
      let fr : Freed t i u =
        Evicted-Freed t t u i (Swept-refl t k.inv) bound used (k.unpinned i h mine) e in
      record {
        inv = e.inv;
        num_bufs = e.num_bufs ∙ k.num_bufs;
        preserved = record {
          coherent = Freed-Coherent t u i laws k.inv k.preserved.coherent fr;
          same = λ g q.
              Freed-content t u i g q laws k.inv k.preserved.coherent fr ∙ k.preserved.same g q;
        };
        unpinned = λ j l owner. ground (arith, e.descs j, k.unpinned j l);
        cleared = λ j l owner. ground (arith, e.descs j, k.cleared j);
      }

  flush_frame-Kept :
      (s t : BufMgr files) (f i : ℕ)
      → FileLaws files
      → f ≢ 0
      → i < s.num_bufs
      → Kept s f i t
      → Outcome (λ _. Kept s f (i + 1)) (λ _. Interrupted s) (flush_frame f i t)
  flush_frame-Kept s t f i laws real h k = elim (Bool-cases ((desc t i).file == f)) [
    | inr other ↦ rw (flush_other t f i other) (Kept-skip s t f i k (λ e. ground arith))
    | inl mine ↦
        let owner : (desc t i).file ≡ f = ground arith in
        let used : (desc t i).valid ≡ true = ground (arith, k.inv.idle i) in
        elim (drop_frame_cases t i k.inv (ground (arith, k.num_bufs)) used) [
          | inl (u, run, e) ↦
              rw (flush_mine t f i owner, run) (Kept-drop s t u f i laws real h k owner e)
          | inr (x, run, dirty, fails) ↦
              rw (flush_mine t f i owner, run)
                (record {
                  last = t.store;
                  kept = k.preserved;
                  left = inr (inr ((desc t i).file, page_at t i, refl));
                })
        ]
  ]

  -- The page is on disk, as a client found it before.
  abbrev pub OnDisk : BufMgr files → ℕ → BufMgr files → Type 0
  OnDisk s f t = (p : ℕ) → files.read_page t.store f p ≡ content s f p

  Kept-OnDisk : (s t : BufMgr files) (f : ℕ) → Kept s f s.num_bufs t → Preserved s t × OnDisk s f t
  Kept-OnDisk s t f k = (
    k.preserved,
    λ p. elim (Option-cases (view t.hash_table f p)) [
      | inl gone ↦ sym (content-miss t f p gone) ∙ k.preserved.same f p
      | inr (j, there) ↦
          let (h, _, file, _) = k.inv.owned f p j there in
          absurd (ground (arith, k.cleared j, k.num_bufs))
    ],
  )

  CheckFails-Interrupted :
      (s : BufMgr files) (f : ℕ) (e : Exception) (t : BufMgr files)
      → Coherent s
      → CheckFails s f e t
      → Interrupted s t
  CheckFails-Interrupted s f e t c (same, _) = rw same (record {
    last = s.store;
    kept = record { coherent = c; same = λ g q. refl };
    left = inl refl;
  })

  -- Where the files, each behind one `File*`, obey FileLaws, the state is of the invariant and
  -- coherent, and the file is not NULL: if `flushFile` returns, the state is coherent, a client finds at
  -- every page of every file what it found before, and the file itself gives that at each of its pages.
  -- If it throws, the pool is coherent and a client finds the same with the store before the write that
  -- threw, and the store is what that write left.
  pub flush_file-OnDisk :
      (s : BufMgr files) (f : ℕ)
      → FileLaws files
      → f ≢ 0
      → Inv s
      → Coherent s
      → Outcome (λ _ t. Preserved s t × OnDisk s f t) (λ _. Interrupted s) (flush_file f s)
  unfolding flush_file
  flush_file-OnDisk s f laws real v c =
      let n = s.num_bufs in
      let start : Unpinned s f n → Kept s f 0 s = λ u. record {
        inv = v;
        num_bufs = refl;
        preserved = record { coherent = c; same = λ g q. refl };
        unpinned = u;
        cleared = λ j h. absurd (omega arith);
      } in
      let flushes : Unpinned s f n
          → Outcome (λ _. Kept s f n) (λ _. Interrupted s) (for_frames 0 n (flush_frame f) s) =
        λ u.
          for_frames-Outcome (Kept s f) (λ _. Interrupted s) (flush_frame f) n
            (λ i t h k. flush_frame-Kept s t f i laws real h k) n 0 s (omega arith) (start u) in
      bind-Outcome (λ _. Checked s f n) (λ _ t. Preserved s t × OnDisk s f t) (λ _. Interrupted s)
        (for_frames 0 n (check_frame f) s) (λ _. for_frames 0 n (flush_frame f))
        (weaken-Outcome (λ _. Checked s f n) (λ _. Checked s f n) (CheckFails s f)
          (λ _. Interrupted s) (for_frames 0 n (check_frame f) s) (check_frames-Checked s f real v)
          (λ _ _ x. x) (λ e t x. CheckFails-Interrupted s f e t c x))
        (λ _ t x. rw x.0 (
          weaken-Outcome (λ _. Kept s f n) (λ _ t. Preserved s t × OnDisk s f t)
            (λ _. Interrupted s) (λ _. Interrupted s) (for_frames 0 n (flush_frame f) s)
            (flushes x.1) (λ _ t k. Kept-OnDisk s t f k) (λ _ _ y. y)))
