-- ===== src/BufMgr/Evict.antt =====
-- What allocBuf in src/buffer.cpp does to the frame that it takes.
use cs564_project.Prelude.{
  ℕ, ◌<◌, ◌≡◌, refl, ◌≢◌, ◌⊎◌, inl, inr, ◌∙◌, none, true, false, ◌&&◌, ◌==◌, if◌then◌else◌, arith,
  Bool-cases,
}
use cs564_project.Exceptions.{Exception, Result, ok, err, buffer_exceeded, Result-cases}
use cs564_project.Files.{Files}
use cs564_project.HashTbl.{BufHashTbl}
use cs564_project.HashTbl.Laws.{view, Writes, remove-Writes}
use cs564_project.BufMgr.State.{
  BufMgr, desc, page_at, clear, set_desc, write_frame, write_failed, remove_entry,
}
use cs564_project.BufMgr.Clock.{alloc_buf, evict}
use cs564_project.BufMgr.Inv.{Inv, with_table, release-Inv, desc-set_desc}
use cs564_project.BufMgr.Sweep.{IsFree, SameUse, Swept}
use cs564_project.BufMgr.Rounds.{Picked}
use cs564_project.BufMgr.Alloc.{AllPinned, alloc_buf-cases}

module _ {files : Files} where
  -- Frame `i`, a valid one, has left the pool: its page is on disk if it was dirty, its entry is
  -- gone, and all else is as it was.
  pub record Evicted (s : BufMgr files) (i : ℕ) (t : BufMgr files) : Type 0 where
    pub inv : Inv t
    pub num_bufs : t.num_bufs ≡ s.num_bufs
    pub pool : t.buf_pool ≡ s.buf_pool
    pub written :
        (desc s i).dirty ≡ true
        → files.write_page s.store (desc s i).file (page_at s i) ≡ ok t.store
    pub unwritten : (desc s i).dirty ≡ false → t.store ≡ s.store
    pub table : Writes s.hash_table (desc s i).file (desc s i).page_no none t.hash_table
    pub descs : (j : ℕ) → desc t j ≡ (if i == j then clear (desc s i) else desc s j)

  pub release-Evicted :
      (s : BufMgr files) (i : ℕ) (t : BufHashTbl) (st : files.Store)
      → Inv s
      → i < s.num_bufs
      → (desc s i).valid ≡ true
      → ((desc s i).dirty ≡ true → files.write_page s.store (desc s i).file (page_at s i) ≡ ok st)
      → ((desc s i).dirty ≡ false → st ≡ s.store)
      → Writes s.hash_table (desc s i).file (desc s i).page_no none t
      → Evicted s i (set_desc i (clear (desc s i)) (with_table t st s))
  release-Evicted s i t st v h used written unwritten w = record {
    inv = release-Inv i t st v h used w;
    num_bufs = refl;
    pool = refl;
    written = written;
    unwritten = unwritten;
    table = w;
    descs = λ j. desc-set_desc i j (clear (desc s i)) v h;
  }

  -- Evicting a valid frame succeeds, unless its page is dirty and the file refuses the write; then
  -- the manager keeps all but the store as it was.
  pub evict-cases :
      (s : BufMgr files) (i : ℕ)
      → Inv s
      → i < s.num_bufs
      → (desc s i).valid ≡ true
      → ((t : BufMgr files) × (evict i (desc s i) s ≡ (ok i, t)) × Evicted s i t)
        ⊎ ((e : Exception) × (evict i (desc s i) s ≡ (err e, write_failed i s))
            × ((desc s i).dirty ≡ true)
            × (files.write_page s.store (desc s i).file (page_at s i) ≡ err e))
  unfolding evict
  evict-cases s i v h used =
      let d = desc s i in
      let (t, removes, w) =
        remove-Writes s.hash_table v.table d.file d.page_no i (v.mapped i used) in
      elim (Bool-cases d.dirty) [
        | inr clean ↦ inl (
          _,
          rw (clean, removes, remove_entry),
          release-Evicted s i t s.store v h used (λ e. cc) (λ e. refl) w,
        )
        | inl dirty ↦ elim (Result-cases (files.write_page s.store d.file (page_at s i))) [
          | inl (st, e) ↦ inl (
            _,
            rw (dirty, e, write_frame, removes, remove_entry),
            release-Evicted s i t st v h used (λ _. e) (λ e. cc) w,
          )
          | inr (x, e) ↦ inr (x, rw (dirty, e, write_frame), dirty, e)
        ]
      ]

  -- Frame `k` has been freed: it was free for the clock, and holds no page now; if it held a dirty
  -- page, that page is on disk. Other entries and all pinned frames stand, and the pool is as it
  -- was.
  pub record Freed (s : BufMgr files) (k : ℕ) (t : BufMgr files) : Type 0 where
    pub inv : Inv t
    pub num_bufs : t.num_bufs ≡ s.num_bufs
    pub bound : k < s.num_bufs
    pub victim : IsFree (desc s k)
    pub unused : (desc t k).valid ≡ false
    pub pool : t.buf_pool ≡ s.buf_pool
    pub store :
        (((desc s k).dirty ≡ false) × (t.store ≡ s.store))
        ⊎ (((desc s k).dirty ≡ true)
            × (files.write_page s.store (desc s k).file (page_at s k) ≡ ok t.store))
    pub entries :
        (f p : ℕ)
        → view t.hash_table f p ≡ (
            if (desc s k).valid && ((desc s k).file == f && (desc s k).page_no == p)
            then none
            else view s.hash_table f p)
    pub others : (j : ℕ) → j ≢ k → SameUse (desc s j) (desc t j)

  taken_unused-Freed :
      (s t : BufMgr files)
      → Swept s t
      → (desc t t.clock_hand).valid ≡ false
      → Freed s t.clock_hand t
  taken_unused-Freed s t w unused =
      let k = t.clock_hand in
      record {
        inv = w.inv;
        num_bufs = w.num_bufs;
        bound = ground (arith, w.inv.hand, w.num_bufs);
        victim = inl (ground (arith, w.uses k));
        unused = unused;
        pool = w.pool;
        store = inl (ground (arith, w.inv.idle k, w.uses k), w.store);
        entries = λ f p. rw w.table (ground (arith, w.uses k));
        others = λ j _. w.uses j;
      }

  -- A sweep does not change what the write of a frame is.
  Swept-write :
      (s m : BufMgr files) (k : ℕ)
      → Swept s m
      → files.write_page s.store (desc s k).file (page_at s k)
        ≡ files.write_page m.store (desc m k).file (page_at m k)
  Swept-write s m k w =
      let stores = w.store in let pools = w.pool in let owners = (w.uses k).file in cc

  Swept-unwritten :
      (s m : BufMgr files) (k : ℕ)
      → Swept s m
      → files.unwritten m.store (desc m k).file (page_at m k)
        ≡ files.unwritten s.store (desc s k).file (page_at s k)
  Swept-unwritten s m k w =
      let stores = w.store in let pools = w.pool in let owners = (w.uses k).file in cc

  pub Evicted-Freed :
      (s m t : BufMgr files) (k : ℕ)
      → Swept s m
      → k < m.num_bufs
      → (desc m k).valid ≡ true
      → (desc m k).pin_cnt ≡ 0
      → Evicted m k t
      → Freed s k t
  unfolding clear
  Evicted-Freed s m t k w h used unpinned e = record {
    inv = e.inv;
    num_bufs = e.num_bufs ∙ w.num_bufs;
    bound = ground (arith, w.num_bufs);
    victim = inr (ground (arith, w.uses k));
    unused = ground (arith, e.descs k);
    pool = e.pool ∙ w.pool;
    store = elim (Bool-cases (desc m k).dirty) [
      | inr clean ↦ inl (ground (arith, w.uses k), e.unwritten clean ∙ w.store)
      | inl dirty ↦ inr (ground (arith, w.uses k), Swept-write s m k w ∙ e.written dirty)
    ];
    entries = λ f p. ground (arith, e.table.reads f p, w.table, w.uses k);
    others = λ j ne. ground (arith, e.descs j, w.uses j);
  }

  -- The file refuses the write of the dirty page of frame `k`, which the clock has chosen.
  pub record Refused (s : BufMgr files) (k : ℕ) (e : Exception) : Type 0 where
    pub bound : k < s.num_bufs
    pub unpinned : (desc s k).pin_cnt ≡ 0
    pub dirty : (desc s k).dirty ≡ true
    pub fails : files.write_page s.store (desc s k).file (page_at s k) ≡ err e

  -- What `allocBuf` comes to.
  pub data Allocated (s : BufMgr files) : Result ℕ × BufMgr files → Type 0 where
    freed : (k : ℕ) (t : BufMgr files) → Freed s k t → Allocated s (ok k, t)
    refused :
        (k : ℕ) (e : Exception) (t : BufMgr files) (st : files.Store)
        → Swept s t
        → Refused s k e
        → st ≡ files.unwritten s.store (desc s k).file (page_at s k)
        → Allocated s (err e, record t { store = st })
    exceeded : (t : BufMgr files) → Swept s t → AllPinned s → Allocated s (err buffer_exceeded, t)

  Picked-Allocated : (s : BufMgr files) (r : Result ℕ × BufMgr files) → Picked s r → Allocated s r
  Picked-Allocated s r p =
      let m = p.mid in
      let w = p.swept in
      let k = m.clock_hand in
      elim p.taken [
        | inl (unused, e) ↦ rw e (freed k m (taken_unused-Freed s m w unused))
        | inr (used, unref, unpinned, e) ↦ elim (evict-cases m k w.inv w.inv.hand used) [
          | inl (t, run, out) ↦
              rw (e, run) (freed k t (Evicted-Freed s m t k w w.inv.hand used unpinned out))
          | inr (x, run, dirty, fails) ↦
              rw (e, run)
                (refused k x m (files.unwritten m.store (desc m k).file (page_at m k)) w
                  (record {
                    bound = ground (arith, w.inv.hand, w.num_bufs);
                    unpinned = ground (arith, w.uses k);
                    dirty = ground (arith, w.uses k);
                    fails = Swept-write s m k w ∙ fails;
                  })
                  (Swept-unwritten s m k w))
        ]
      ]

  -- In a state of the invariant, `allocBuf` returns a frame that was not in use or not pinned and
  -- now holds no page: if it held a dirty page, that page is written, its entry is gone from the
  -- hash table, and all other entries, the uses of all other frames, the pool and the invariant
  -- stand. Or it throws, after a sweep only, because every frame is pinned, or because the write of an
  -- unpinned dirty page is refused; then the store is what that write left.
  pub alloc_buf-Allocated : (s : BufMgr files) → Inv s → Allocated s (alloc_buf s)
  alloc_buf-Allocated s v = elim (alloc_buf-cases s v) [
    | inl (picked, free) ↦ Picked-Allocated s (alloc_buf s) picked
    | inr (t, run, w, all) ↦ rw run (exceeded t w all)
  ]
