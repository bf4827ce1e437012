-- ===== src/BufMgr/FlushFile.antt =====
-- flushFile of src/buffer.cpp: what the two loops come to.
use cs564_project.Prelude.{
  ℕ, zero, suc, ◌+◌, ◌<◌, ◌≡◌, refl, ◌≢◌, inl, inr, ◌∙◌, true, false, ◌&&◌, ◌==◌, ltb,
  if◌then◌else◌, arith, Bool-cases, ap,
}
use mathlib.Core.Path.{subst}
use native.Mathlib.Numerals.{add-one}
use cs564_project.Exceptions.{Exception, Result, ok, err}
use cs564_project.Effects.{Outcome}
use cs564_project.Files.{Files}
use cs564_project.HashTbl.Laws.{view}
use cs564_project.BufMgr.State.{BufDesc, BufMgr, desc, page_at, clear}
use cs564_project.BufMgr.Flush.{drop_frame, flush_frame}
use cs564_project.BufMgr.Inv.{Inv}
use cs564_project.BufMgr.Evict.{Evicted}
use cs564_project.BufMgr.Flushing.{drop_frame_cases}

module _ {files : Files} where
  -- The specification of the writes: the dirty pages of the file among the first frames, in order.
  write_dirty : BufMgr files → ℕ → ℕ → files.Store → Result files.Store
  write_dirty s f i st =
      if (desc s i).file == f && (desc s i).dirty
      then files.write_page st f (page_at s i)
      else ok st

  abbrev then_write : BufMgr files → ℕ → ℕ → Result files.Store → Result files.Store
  then_write s f i (ok st) = write_dirty s f i st
  then_write s f i (err e) = err e

  pub written : BufMgr files → ℕ → ℕ → Result files.Store
  written s f zero = ok s.store
  written s f (suc i) = then_write s f i (written s f i)

  -- The frames of the file below `i` are cleared and their dirty pages written; all else is as it
  -- was.
  pub record Flushed (s : BufMgr files) (f i : ℕ) (t : BufMgr files) : Type 0 where
    pub inv : Inv t
    pub num_bufs : t.num_bufs ≡ s.num_bufs
    pub pool : t.buf_pool ≡ s.buf_pool
    pub store : written s f i ≡ ok t.store
    pub frames :
        (j : ℕ)
        → desc t j ≡ (if ltb j i && (desc s j).file == f then clear (desc s j) else desc s j)
    pub entries : (g q : ℕ) → g ≢ f → view t.hash_table g q ≡ view s.hash_table g q

  pub record FlushFails (s : BufMgr files) (f : ℕ) (e : Exception) (t : BufMgr files) : Type 0 where
    pub at : ℕ
    pub bound : at < s.num_bufs
    pub last : files.Store
    pub before : Flushed s f at (record t { store = last })
    pub left : t.store ≡ files.unwritten last f (page_at s at)
    pub fails : written s f (suc at) ≡ err e

  pub Flushed-start : (s : BufMgr files) (f : ℕ) → Inv s → Flushed s f 0 s
  unfolding written
  Flushed-start s f v = record {
    inv = v;
    num_bufs = refl;
    pool = refl;
    store = refl;
    frames = λ j. ground arith;
    entries = λ g q _. refl;
  }

  -- A frame of another file.
  Flushed-skip :
      (s t : BufMgr files) (f i : ℕ)
      → Flushed s f i t
      → ((desc s i).file == f) ≡ false
      → Flushed s f (i + 1) t
  unfolding written write_dirty
  Flushed-skip s t f i h other = record {
    inv = h.inv;
    num_bufs = h.num_bufs;
    pool = h.pool;
    store = rw (add-one, h.store, other);
    frames = λ j. ground (arith, h.frames j);
    entries = h.entries;
  }

  here_same : (s t : BufMgr files) (f i : ℕ) → Flushed s f i t → desc t i ≡ desc s i
  here_same s t f i h = ground (arith, h.frames i)

  -- The write of frame `i` in the loop is the write that the specification makes.
  same_write :
      (s t : BufMgr files) (f i : ℕ)
      → Flushed s f i t
      → (desc s i).file ≡ f
      → files.write_page t.store (desc t i).file (page_at t i)
        ≡ files.write_page t.store f (page_at s i)
  same_write s t f i h mine =
      let owner : (desc t i).file ≡ f = ap (λ (d : BufDesc). d.file) (here_same s t f i h) ∙ mine in
      let pools = h.pool in cc

  same_unwritten :
      (s t : BufMgr files) (f i : ℕ)
      → Flushed s f i t
      → (desc s i).file ≡ f
      → files.unwritten t.store (desc t i).file (page_at t i)
        ≡ files.unwritten t.store f (page_at s i)
  same_unwritten s t f i h mine =
      let owner : (desc t i).file ≡ f = ap (λ (d : BufDesc). d.file) (here_same s t f i h) ∙ mine in
      let pools = h.pool in cc

  written-suc :
      (s t : BufMgr files) (f i : ℕ)
      → Flushed s f i t
      → (desc s i).file ≡ f
      → written s f (suc i)
        ≡ (if (desc s i).dirty then files.write_page t.store f (page_at s i) else ok t.store)
  unfolding written write_dirty
  written-suc s t f i h mine = rw h.store (ground arith)

  drop_written :
      (s t u : BufMgr files) (f i : ℕ)
      → Flushed s f i t
      → (desc s i).file ≡ f
      → Evicted t i u
      → written s f (suc i) ≡ ok u.store
  drop_written s t u f i h mine e =
      let bits : (desc t i).dirty ≡ (desc s i).dirty =
        ap (λ (d : BufDesc). d.dirty) (here_same s t f i h) in
      elim (Bool-cases (desc s i).dirty) [
        | inl dirty ↦
            ground (arith, written-suc s t f i h mine, same_write s t f i h mine, e.written)
        | inr clean ↦ ground (arith, written-suc s t f i h mine, e.unwritten)
      ]

  Flushed-drop :
      (s t u : BufMgr files) (f i : ℕ)
      → Flushed s f i t
      → (desc s i).file ≡ f
      → Evicted t i u
      → Flushed s f (i + 1) u
  Flushed-drop s t u f i h mine e =
      let same = here_same s t f i h in
      record {
        inv = e.inv;
        num_bufs = e.num_bufs ∙ h.num_bufs;
        pool = e.pool ∙ h.pool;
        store = rw add-one (drop_written s t u f i h mine e);
        frames = λ j. rw (e.descs j, same) (ground (arith, h.frames j));
        entries = λ g q ne. ground (arith, e.table.reads g q, h.entries g q ne, same);
      }

  pub flush_mine :
      (t : BufMgr files) (f i : ℕ)
      → (desc t i).file ≡ f
      → flush_frame f i t ≡ drop_frame (desc t i).file i (desc t i) t
  unfolding flush_frame
  flush_mine t f i owner =
      subst (λ g. flush_frame g i t ≡ drop_frame (desc t i).file i (desc t i) t) owner
        (ground arith)

  pub flush_other :
      (t : BufMgr files) (f i : ℕ) → ((desc t i).file == f) ≡ false → flush_frame f i t ≡ (ok tt, t)
  unfolding flush_frame
  flush_other t f i other = ground arith

  -- One round of the second loop, for a file that is not NULL.
  pub flush_frame-Flushed :
      (s t : BufMgr files) (f i : ℕ)
      → f ≢ 0
      → i < s.num_bufs
      → Flushed s f i t
      → Outcome (λ _. Flushed s f (i + 1)) (FlushFails s f) (flush_frame f i t)
  flush_frame-Flushed s t f i real h fl =
      let same = here_same s t f i fl in
      elim (Bool-cases ((desc s i).file == f)) [
        | inr other ↦ rw (flush_other t f i (ground (arith, same))) (Flushed-skip s t f i fl other)
        | inl mine ↦
            let mine' : (desc s i).file ≡ f = ground arith in
            let owner : (desc t i).file ≡ f = ground (arith, same) in
            let used : (desc t i).valid ≡ true = ground (arith, fl.inv.idle i) in
            elim (drop_frame_cases t i fl.inv (ground (arith, fl.num_bufs)) used) [
              | inl (u, run, e) ↦
                  rw (flush_mine t f i owner, run) (Flushed-drop s t u f i fl mine' e)
              | inr (x, run, dirty, fails) ↦
                  rw (flush_mine t f i owner, run)
                    (record {
                      at = i;
                      bound = h;
                      last = t.store;
                      before = fl;
                      left = same_unwritten s t f i fl mine';
                      fails =
                          ground (
                            arith,
                            same,
                            written-suc s t f i fl mine',
                            same_write s t f i fl mine',
                          );
                    })
            ]
      ]
