-- ===== src/BufMgr/Writing.antt =====
-- The writes of a client to a page through the pointer that readPage or allocPage of src/buffer.cpp
-- returned.
use cs564_project.Prelude.{
  ℕ, ◌<◌, ◌≡◌, refl, ◌≢◌, inl, inr, ◌∙◌, true, false, ◌&&◌, ◌==◌, if◌then◌else◌, arith,
  Option-cases, ap, sym, get_or-set,
}
use cs564_project.Exceptions.{ok}
use cs564_project.Effects.{Outcome, weaken-Outcome}
use cs564_project.Files.{Files}
use cs564_project.HashTbl.Laws.{view}
use cs564_project.BufMgr.State.{BufMgr, desc, page_at, set_page}
use cs564_project.BufMgr.Calls.{un_pin_page}
use cs564_project.BufMgr.Flush.{flush_file}
use cs564_project.BufMgr.Inv.{Inv}
use cs564_project.BufMgr.Load.{set_page-Inv}
use cs564_project.BufMgr.Sweep.{IsPinned}
use cs564_project.BufMgr.Unpin.{un_pin_page-Inv}
use cs564_project.BufMgr.Coherence.{FileLaws, content, Coherent, content-hit, content-miss}
use cs564_project.BufMgr.Transparent.{Preserved, Interrupted, LeftBy, un_pin_page-Preserved}
use cs564_project.BufMgr.Durable.{OnDisk, flush_file-OnDisk}

module _ {files : Files} where
  page_at-set_page :
      (s : BufMgr files) (k j : ℕ) (pg : files.Page)
      → Inv s
      → k < s.num_bufs
      → page_at (set_page k pg s) j ≡ (if k == j then pg else page_at s j)
  page_at-set_page s k j pg v h = get_or-set s.buf_pool k j pg files.blank (omega (arith, v.pool))

  -- Page `p` of file `f` is found as `pg`, and all others as before.
  pub record Written (s : BufMgr files) (f p : ℕ) (pg : files.Page) (t : BufMgr files)
      : Type 0 where
    pub coherent : Coherent t
    pub here : content t f p ≡ ok pg
    pub same : (g q : ℕ) → (f == g && p == q) ≡ false → content t g q ≡ content s g q

  -- In a coherent state of the invariant, a write to a pinned frame that keeps the number of the page
  -- leaves the state coherent, and changes what a client finds at the page of the frame, and at no
  -- other page.
  pub set_page-Written :
      (s : BufMgr files) (k : ℕ) (pg : files.Page)
      → Inv s
      → Coherent s
      → k < s.num_bufs
      → IsPinned (desc s k)
      → files.page_number pg ≡ (desc s k).page_no
      → Written s (desc s k).file (desc s k).page_no pg (set_page k pg s)
  set_page-Written s k pg v c h (used, pinned) number =
      let t : BufMgr files = set_page k pg s in
      let at = v.mapped k used in
      record {
        coherent = record {
          fit = c.fit;
          number = λ i on. rw (page_at-set_page s k i pg v h) (ground (arith, c.number i));
          synced = λ i on free clean.
              let other : page_at t i ≡ page_at s i =
                ground (arith, page_at-set_page s k i pg v h) in
              rw other (c.synced i on free clean);
        };
        here =
            content-hit t (desc s k).file (desc s k).page_no k at
            ∙ ap ok (ground (arith, page_at-set_page s k k pg v h));
        same = λ g q apart. elim (Option-cases (view s.hash_table g q)) [
          | inl gone ↦ content-miss t g q gone ∙ sym (content-miss s g q gone)
          | inr (j, there) ↦
              let other : page_at t j ≡ page_at s j =
                ground (arith, page_at-set_page s k j pg v h, v.owned g q j) in
              content-hit t g q j there ∙ ap ok other ∙ sym (content-hit s g q j there)
        ];
      }

  -- Where the files, each behind one `File*`, obey FileLaws: a client writes to a pinned frame, of a
  -- file that is not NULL, in a coherent state of the invariant, keeps the number of the page, unpins
  -- the page as dirty and flushes the file. If the flush returns, the file gives at the page what was
  -- written; if it throws, the page is found as written with the store before the write that threw.
  pub written_page_flushed :
      (s : BufMgr files) (k : ℕ) (pg : files.Page)
      → FileLaws files
      → Inv s
      → Coherent s
      → k < s.num_bufs
      → IsPinned (desc s k)
      → files.page_number pg ≡ (desc s k).page_no
      → (desc s k).file ≢ 0
      → let f = (desc s k).file in
        let p = (desc s k).page_no in
        Outcome
          (λ _ t. files.read_page t.store f p ≡ ok pg)
          (λ _ t.
            (last : files.Store) × LeftBy last t
            × (content (record t { store = last }) f p ≡ ok pg))
          (flush_file f (un_pin_page f p true (set_page k pg s)).1)
  written_page_flushed s k pg laws v c h pinned number real =
      let f = (desc s k).file in
      let p = (desc s k).page_no in
      let t : BufMgr files = set_page k pg s in
      let w = set_page-Written s k pg v c h pinned number in
      let t-Inv : Inv t = set_page-Inv k pg v in
      let kept = un_pin_page-Preserved t f p true t-Inv w.coherent (inl refl) in
      let u : BufMgr files = (un_pin_page f p true t).1 in
      weaken-Outcome (λ _ x. Preserved u x × OnDisk u f x)
        (λ _ x. files.read_page x.store f p ≡ ok pg) (λ _. Interrupted u)
        (λ _ x.
          (last : files.Store) × LeftBy last x × (content (record x { store = last }) f p ≡ ok pg))
        (flush_file f u)
        (flush_file-OnDisk u f laws real (un_pin_page-Inv t f p true t-Inv) kept.coherent)
        (λ _ x d. d.1 p ∙ kept.same f p ∙ w.here)
        (λ _ x d. (d.last, d.left, d.kept.same f p ∙ kept.same f p ∙ w.here))
