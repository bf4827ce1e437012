-- ===== src/BufMgr/Caching.antt =====
-- readPage and unPinPage of src/buffer.cpp: how a frame that is filled, or whose counters are
-- written, leaves what a client finds.
use cs564_project.Prelude.{
  ℕ, ◌<◌, ◌≤◌, ◌≡◌, inl, inr, ◌∙◌, none, some, false, ◌&&◌, ◌==◌, arith, Bool-cases, Option-cases,
  ℕ_discrete, ap, sym,
}
use cs564_project.Exceptions.{ok}
use cs564_project.Files.{Files}
use cs564_project.HashTbl.Laws.{view}
use cs564_project.BufMgr.State.{BufDesc, BufMgr, desc, page_at, set_desc, assign}
use cs564_project.BufMgr.Inv.{Inv, desc-set_desc}
use cs564_project.BufMgr.Load.{Filled}
use cs564_project.BufMgr.Coherence.{FileLaws, content, Coherent, content-hit, content-miss}

module _ {files : Files} where
  -- Filling a free frame with a page that the file gives leaves what a client finds.
  pub Filled-content :
      (m t : BufMgr files) (k f p g q : ℕ) (pg : files.Page)
      → Inv m
      → (desc m k).valid ≡ false
      → view m.hash_table f p ≡ none
      → files.read_page m.store f p ≡ ok pg
      → Filled m k f p pg t
      → content t g q ≡ content m g q
  Filled-content m t k f p g q pg v unused absent reads fl = elim (Bool-cases (f == g && p == q)) [
    | inl mine ↦
        let file : f ≡ g = ground arith in
        let page : p ≡ q = ground arith in
        let there : view t.hash_table g q ≡ some k = ground (arith, fl.table.reads g q) in
        let pages : page_at t k ≡ pg = ground (arith, fl.pages k) in
        content-hit t g q k there
        ∙ rw pages (
            sym
              (content-miss m g q (rw (sym file, sym page) absent) ∙ rw (sym file, sym page) reads))
    | inr other ↦
        let same : view t.hash_table g q ≡ view m.hash_table g q =
          ground (arith, fl.table.reads g q) in
        elim (Option-cases (view m.hash_table g q)) [
          | inl gone ↦
              content-miss t g q (same ∙ gone) ∙ rw (fl.store) (sym (content-miss m g q gone))
          | inr (j, there) ↦
              let (_, used, _, _) = v.owned g q j there in
              let pages : page_at t j ≡ page_at m j = ground (arith, fl.pages j) in
              content-hit t g q j (same ∙ there) ∙ ap ok pages ∙ sym (content-hit m g q j there)
        ]
  ]

  pub Filled-Coherent :
      (m t : BufMgr files) (k f p : ℕ) (pg : files.Page)
      → FileLaws files
      → Coherent m
      → files.read_page m.store f p ≡ ok pg
      → Filled m k f p pg t
      → Coherent t
  unfolding assign
  Filled-Coherent m t k f p pg laws c reads fl = record {
    fit = rw (fl.store) c.fit;
    number = λ i used. elim (ℕ_discrete i k) [
      | yes e ↦
          let own = fl.descs i in
          let pages : page_at t i ≡ pg = ground (arith, fl.pages i) in
          let page : (desc t i).page_no ≡ p = ground arith in
          rw (pages, page) (laws.numbers m.store f p pg c.fit reads)
      | no other ↦
          let own : desc t i ≡ desc m i = ground (arith, fl.descs i) in
          let pages : page_at t i ≡ page_at m i = ground (arith, fl.pages i) in
          rw (pages, own) (c.number i (ground arith))
    ];
    synced = λ i used free clean. elim (ℕ_discrete i k) [
      | yes e ↦ absurd (ground (arith, fl.descs i))
      | no other ↦
          let own : desc t i ≡ desc m i = ground (arith, fl.descs i) in
          let pages : page_at t i ≡ page_at m i = ground (arith, fl.pages i) in
          rw (pages, own, fl.store) (c.synced i (ground arith) (ground arith) (ground arith))
    ];
  }

  -- So does a write of the counters and flags of a frame, which lowers no pin count to 0.
  pub touch-Coherent :
      (s : BufMgr files) (k : ℕ) (d : BufDesc)
      → Inv s
      → k < s.num_bufs
      → Coherent s
      → d.valid ≡ (desc s k).valid
      → d.file ≡ (desc s k).file
      → d.page_no ≡ (desc s k).page_no
      → d.dirty ≡ (desc s k).dirty
      → (desc s k).pin_cnt ≤ d.pin_cnt
      → Coherent (set_desc k d s)
  touch-Coherent s k d v h c valid file page dirty pins = record {
    fit = c.fit;
    number = λ i. rw (desc-set_desc k i d v h) (λ used. ground (arith, c.number i));
    synced = λ i used free clean.
        let at = desc-set_desc k i d v h in
        let files_same : (desc (set_desc k d s) i).file ≡ (desc s i).file = ground (arith, at) in
        let pages_same : (desc (set_desc k d s) i).page_no ≡ (desc s i).page_no =
          ground (arith, at) in
        rw (files_same, pages_same)
          (c.synced i (ground (arith, at)) (ground (arith, at)) (ground (arith, at)));
  }
