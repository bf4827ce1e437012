-- ===== src/BufMgr/Coherence.antt =====
-- The pool of src/buffer.cpp as a cache of the files: what a client finds at a page, and how taking
-- a frame and filling it leave that alone.
use cs564_project.Prelude.{
  ℕ, ◌≡◌, refl, inl, inr, ◌∙◌, none, some, Bool, true, false, ◌&&◌, ◌==◌, arith, Bool-cases,
  Option-cases, ap, sym,
}
use cs564_project.Exceptions.{Result, ok}
use cs564_project.Files.{Files}
use cs564_project.HashTbl.Laws.{view}
use cs564_project.BufMgr.State.{BufMgr, desc, page_at}
use cs564_project.BufMgr.Inv.{Inv}
use cs564_project.BufMgr.Sweep.{SameUse, Swept}
use cs564_project.BufMgr.Evict.{Freed}

-- What the manager relies on of files that are in order, each behind one `File*`: a page is read as
-- it was last written, a write leaves all other pages alone and the files in order, and a page that
-- is read has the number that was asked for.
pub record FileLaws (files : Files) : Type 0 where
  pub reads_written :
      (st st' : files.Store) (f : ℕ) (pg : files.Page)
      → files.Fit st
      → files.write_page st f pg ≡ ok st'
      → files.read_page st' f (files.page_number pg) ≡ ok pg
  pub reads_other :
      (st st' : files.Store) (f : ℕ) (pg : files.Page) (g q : ℕ)
      → files.Fit st
      → files.write_page st f pg ≡ ok st'
      → (f == g && files.page_number pg == q) ≡ false
      → files.read_page st' g q ≡ files.read_page st g q
  pub write-Fit :
      (st st' : files.Store) (f : ℕ) (pg : files.Page)
      → files.Fit st
      → files.write_page st f pg ≡ ok st'
      → files.Fit st'
  pub numbers :
      (st : files.Store) (f p : ℕ) (pg : files.Page)
      → files.Fit st
      → files.read_page st f p ≡ ok pg
      → files.page_number pg ≡ p

module _ {files : Files} where
  -- What a client finds at page `p` of file `f`: the frame that holds it, else what the file gives.
  unfoldable pub content : BufMgr files → ℕ → ℕ → Result files.Page
  content s f p = elim (view s.hash_table f p) [
    | some k ↦ ok (page_at s k)
    | none ↦ files.read_page s.store f p
  ]

  -- The files are in order. A frame holds the page whose number its descriptor has, and one that is neither pinned nor dirty
  -- is as on disk.
  pub record Coherent (s : BufMgr files) : Type 0 where
    pub fit : files.Fit s.store
    pub number :
        (i : ℕ) → (desc s i).valid ≡ true → files.page_number (page_at s i) ≡ (desc s i).page_no
    pub synced :
        (i : ℕ)
        → (desc s i).valid ≡ true
        → (desc s i).pin_cnt ≡ 0
        → (desc s i).dirty ≡ false
        → files.read_page s.store (desc s i).file (desc s i).page_no ≡ ok (page_at s i)

  pub content-hit :
      (s : BufMgr files) (f p k : ℕ)
      → view s.hash_table f p ≡ some k
      → content s f p ≡ ok (page_at s k)
  unfolding content
  content-hit s f p k e = rw (content, e) refl

  pub content-miss :
      (s : BufMgr files) (f p : ℕ)
      → view s.hash_table f p ≡ none
      → content s f p ≡ files.read_page s.store f p
  unfolding content
  content-miss s f p e = rw (content, e) refl

  -- Whether frame `k` holds the page.
  abbrev holds : BufMgr files → ℕ → ℕ → ℕ → Bool
  holds s k g q = (desc s k).valid && ((desc s k).file == g && (desc s k).page_no == q)

  -- Any page but that of the frame that was freed is read as before.
  Freed-reads :
      (s m : BufMgr files) (k g q : ℕ)
      → FileLaws files
      → Inv s
      → Coherent s
      → Freed s k m
      → holds s k g q ≡ false
      → files.read_page m.store g q ≡ files.read_page s.store g q
  Freed-reads s m k g q laws v c fr other = elim fr.store [
    | inl (_, same) ↦ rw same refl
    | inr (dirty, writes) ↦
        let used : (desc s k).valid ≡ true = ground (arith, v.idle k) in
        let number = c.number k used in
        laws.reads_other s.store m.store (desc s k).file (page_at s k) g q c.fit writes
          (ground arith)
  ]

  -- The page of the frame that was freed is on disk.
  Freed-victim :
      (s m : BufMgr files) (k : ℕ)
      → FileLaws files
      → Coherent s
      → Freed s k m
      → (desc s k).valid ≡ true
      → files.read_page m.store (desc s k).file (desc s k).page_no ≡ ok (page_at s k)
  Freed-victim s m k laws c fr used =
      let number = c.number k used in
      let unpinned : (desc s k).pin_cnt ≡ 0 = ground (arith, fr.victim) in
      elim fr.store [
        | inl (clean, same) ↦ rw same (c.synced k used unpinned clean)
        | inr (dirty, writes) ↦
            rw (sym number)
              (laws.reads_written s.store m.store (desc s k).file (page_at s k) c.fit writes)
      ]

  -- Taking a frame leaves what a client finds at every page.
  pub Freed-content :
      (s m : BufMgr files) (k g q : ℕ)
      → FileLaws files
      → Inv s
      → Coherent s
      → Freed s k m
      → content m g q ≡ content s g q
  Freed-content s m k g q laws v c fr = elim (Bool-cases (holds s k g q)) [
    | inl mine ↦
        let gone : view m.hash_table g q ≡ none = ground (arith, fr.entries g q) in
        let there : view s.hash_table g q ≡ some k = ground (arith, v.mapped k) in
        let read = Freed-victim s m k laws c fr (ground arith) in
        let file : (desc s k).file ≡ g = ground arith in
        let page : (desc s k).page_no ≡ q = ground arith in
        content-miss m g q gone ∙ rw (sym file, sym page) read ∙ sym (content-hit s g q k there)
    | inr other ↦
        let same : view m.hash_table g q ≡ view s.hash_table g q = ground (arith, fr.entries g q) in
        elim (Option-cases (view s.hash_table g q)) [
          | inl absent ↦
              content-miss m g q (same ∙ absent)
              ∙ Freed-reads s m k g q laws v c fr other
              ∙ sym (content-miss s g q absent)
          | inr (j, there) ↦
              let pages : page_at m j ≡ page_at s j = ground (arith, fr.pool) in
              content-hit m g q j (same ∙ there) ∙ ap ok pages ∙ sym (content-hit s g q j there)
        ]
  ]

  pub Freed-Coherent :
      (s m : BufMgr files) (k : ℕ) → FileLaws files → Inv s → Coherent s → Freed s k m → Coherent m
  Freed-Coherent s m k laws v c fr =
      let others : (i : ℕ) → (desc m i).valid ≡ true → SameUse (desc s i) (desc m i) =
        λ i used. fr.others i (λ e. ground (arith, fr.unused)) in
      record {
        fit = elim fr.store [
          | inl (_, same) ↦ rw same c.fit
          | inr (_, writes) ↦
              laws.write-Fit s.store m.store (desc s k).file (page_at s k) c.fit writes
        ];
        number = λ i used.
            let u = others i used in
            let pages : page_at m i ≡ page_at s i = ground (arith, fr.pool) in
            rw (pages, u.page_no) (c.number i (ground arith));
        synced = λ i used free clean.
            let u = others i used in
            let pages : page_at m i ≡ page_at s i = ground (arith, fr.pool) in
            let apart : holds s k (desc s i).file (desc s i).page_no ≡ false =
              ground (arith, v.mapped k, v.mapped i, fr.unused) in
            rw (u.file, u.page_no, pages)
              (Freed-reads s m k (desc s i).file (desc s i).page_no laws v c fr apart
                ∙ c.synced i (ground arith) (ground arith) (ground arith));
      }

  -- A sweep of the clock leaves what a client finds, too.
  pub Swept-content : (s t : BufMgr files) (g q : ℕ) → Swept s t → content t g q ≡ content s g q
  Swept-content s t g q w =
      let same : view t.hash_table g q ≡ view s.hash_table g q = rw w.table refl in
      elim (Option-cases (view s.hash_table g q)) [
        | inl gone ↦ content-miss t g q (same ∙ gone) ∙ rw w.store (sym (content-miss s g q gone))
        | inr (j, there) ↦
            let pages : page_at t j ≡ page_at s j = ground (arith, w.pool) in
            content-hit t g q j (same ∙ there) ∙ ap ok pages ∙ sym (content-hit s g q j there)
      ]

  pub Swept-Coherent : (s t : BufMgr files) → Coherent s → Swept s t → Coherent t
  Swept-Coherent s t c w = record {
    fit = rw w.store c.fit;
    number = λ i used.
        let u = w.uses i in
        let pages : page_at t i ≡ page_at s i = ground (arith, w.pool) in
        rw (pages, u.page_no) (c.number i (ground arith));
    synced = λ i used free clean.
        let u = w.uses i in
        let pages : page_at t i ≡ page_at s i = ground (arith, w.pool) in
        rw (u.file, u.page_no, pages, w.store)
          (c.synced i (ground arith) (ground arith) (ground arith));
  }
