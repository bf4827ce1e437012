-- ===== src/BufMgr/Transparent.antt =====
-- readPage and unPinPage of src/buffer.cpp leave alone what a client finds at every page.
use cs564_project.Prelude.{
  ℕ, ◌+◌, ◌<◌, ◌≡◌, refl, ◌⊎◌, inl, inr, ◌∙◌, none, some, Bool, true, arith, Option-cases,
  ℕ_discrete, sym,
}
use mathlib.Core.Path.{subst}
use cs564_project.Exceptions.{Result, ok}
use cs564_project.Effects.{Outcome}
use cs564_project.Files.{Files}
use cs564_project.HashTbl.Laws.{view}
use cs564_project.BufMgr.State.{BufDesc, BufMgr, desc, page_at, set_desc}
use cs564_project.BufMgr.Calls.{read_page, un_pin_page, load, mark_referenced}
use cs564_project.BufMgr.Inv.{Inv, desc-set_desc}
use cs564_project.BufMgr.Sweep.{Swept}
use cs564_project.BufMgr.Evict.{Freed}
use cs564_project.BufMgr.Load.{
  Loaded, loaded, unreadable, unwritable, unallocated, Filled, load-Loaded,
}
use cs564_project.BufMgr.Read.{lookup_pin-hit, lookup_pin-miss, pin_mark, finish}
use cs564_project.BufMgr.Unpin.{released, un_pin_page_cases}
use cs564_project.BufMgr.Coherence.{
  FileLaws, content, Coherent, content-hit, Freed-content, Freed-Coherent, Swept-content,
  Swept-Coherent,
}
use cs564_project.BufMgr.Caching.{Filled-content, Filled-Coherent, touch-Coherent}

module _ {files : Files} where
  -- The state is coherent, and each page is found as before.
  pub record Preserved (s t : BufMgr files) : Type 0 where
    pub coherent : Coherent t
    pub same : (g q : ℕ) → content t g q ≡ content s g q

  -- What a call of File that threw made of the store, or no such call threw.
  abbrev pub LeftBy : files.Store → BufMgr files → Type 0
  LeftBy last t =
      (t.store ≡ last)
      ⊎ ((f : ℕ) × (p : ℕ) × (t.store ≡ files.unread last f p))
      ⊎ ((f : ℕ) × (pg : files.Page) × (t.store ≡ files.unwritten last f pg))

  -- With the store that stood before the call of File that threw, the state is coherent and each
  -- page is found as before.
  pub record Interrupted (s t : BufMgr files) : Type 0 where
    pub last : files.Store
    pub kept : Preserved s (record t { store = last })
    pub left : LeftBy last t

  -- The frame that is returned holds what was found at the page.
  abbrev pub Transparent : BufMgr files → ℕ → ℕ → Result ℕ × BufMgr files → Type 0
  Transparent s f p =
      Outcome (λ k t. Preserved s t × (content s f p ≡ ok (page_at t k))) (λ _. Interrupted s)

  mark-Preserved :
      (s t : BufMgr files) (k : ℕ)
      → Inv t
      → k < t.num_bufs
      → Preserved s t
      → Preserved s (set_desc k (record (desc t k) { refbit = true }) t)
  unfolding content
  mark-Preserved s t k v h c = record {
    coherent =
        touch-Coherent t k (record (desc t k) { refbit = true }) v h c.coherent refl refl refl refl
          (omega arith);
    same = c.same;
  }

  hit-Transparent :
      (s : BufMgr files) (f p k : ℕ)
      → Inv s
      → Coherent s
      → view s.hash_table f p ≡ some k
      → Transparent s f p (read_page f p s)
  unfolding read_page mark_referenced content
  hit-Transparent s f p k v c there =
      let (h, used, _, _) = v.owned f p k there in
      let d : BufDesc = record (desc s k) { pin_cnt = (desc s k).pin_cnt + 1; refbit = true } in
      let after : Preserved s (set_desc k d s) = record {
        coherent = touch-Coherent s k d v h c refl refl refl refl (omega arith);
        same = λ g q. refl;
      } in
      rw (lookup_pin-hit s f p k there) (
        subst (λ t. Preserved s t × (content s f p ≡ ok (page_at t k))) (sym (pin_mark s k v h))
          (after, content-hit s f p k there))

  pub loaded-Preserved :
      (s m t : BufMgr files) (k f p : ℕ) (pg : files.Page)
      → FileLaws files
      → Inv s
      → Coherent s
      → view s.hash_table f p ≡ none
      → Freed s k m
      → files.read_page m.store f p ≡ ok pg
      → Filled m k f p pg t
      → Preserved s t
  loaded-Preserved s m t k f p pg laws v c absent fr reads fl =
      let gone : view m.hash_table f p ≡ none = ground (arith, fr.entries f p) in
      record {
        coherent = Filled-Coherent m t k f p pg laws (Freed-Coherent s m k laws v c fr) reads fl;
        same = λ g q.
            Filled-content m t k f p g q pg fr.inv fr.unused gone reads fl
            ∙ Freed-content s m k g q laws v c fr;
      }

  Swept-Preserved : (s t : BufMgr files) → Coherent s → Swept s t → Preserved s t
  Swept-Preserved s t c w = record {
    coherent = Swept-Coherent s t c w;
    same = λ g q. Swept-content s t g q w;
  }

  finish-Transparent :
      (s : BufMgr files) (f p : ℕ) (r : Result ℕ × BufMgr files)
      → FileLaws files
      → Inv s
      → Coherent s
      → view s.hash_table f p ≡ none
      → Loaded s f p r
      → Transparent s f p (finish r)
  unfolding finish mark_referenced
  finish-Transparent s f p _ laws v c absent (loaded k m pg t fr reads fl) =
      let kept = loaded-Preserved s m t k f p pg laws v c absent fr reads fl in
      let there : view t.hash_table f p ≡ some k = ground (arith, fl.table.reads f p) in
      (
        mark-Preserved s t k fl.inv (ground (arith, fr.bound, fr.num_bufs, fl.num_bufs)) kept,
        sym (kept.same f p) ∙ content-hit t f p k there,
      )
  finish-Transparent s f p _ laws v c absent (unreadable k m e fr fails) = record {
    last = m.store;
    kept = record {
      coherent = Freed-Coherent s m k laws v c fr;
      same = λ g q. Freed-content s m k g q laws v c fr;
    };
    left = inr (inl (f, p, refl));
  }
  finish-Transparent s f p _ laws v c absent (unwritable k e t st w x left) = record {
    last = t.store;
    kept = Swept-Preserved s t c w;
    left = inr (inr ((desc s k).file, page_at s k, rw w.store left));
  }
  finish-Transparent s f p _ laws v c absent (unallocated t w all) = record {
    last = t.store;
    kept = Swept-Preserved s t c w;
    left = inl refl;
  }

  miss-Transparent :
      (s : BufMgr files) (f p : ℕ)
      → FileLaws files
      → Inv s
      → Coherent s
      → view s.hash_table f p ≡ none
      → Transparent s f p (read_page f p s)
  unfolding read_page finish
  miss-Transparent s f p laws v c absent =
      rw (lookup_pin-miss s f p absent)
        (finish-Transparent s f p (load f p s) laws v c absent (load-Loaded s f p v absent))

  -- Where the files, each behind one `File*`, obey FileLaws, and the state is of the invariant and
  -- coherent: if `readPage` returns, the state is coherent, a client finds at every page of every file
  -- what it found before, also when a page was evicted, and the frame holds what is found at the page
  -- that was asked for. If it throws, that holds of the pool with the store before the call of File
  -- that threw, and the store is what that call left.
  pub read_page-Transparent :
      (s : BufMgr files) (f p : ℕ)
      → FileLaws files
      → Inv s
      → Coherent s
      → Transparent s f p (read_page f p s)
  read_page-Transparent s f p laws v c = elim (Option-cases (view s.hash_table f p)) [
    | inl absent ↦ miss-Transparent s f p laws v c absent
    | inr (k, there) ↦ hit-Transparent s f p k v c there
  ]

  unpinned-Coherent :
      (s : BufMgr files) (f p k : ℕ) (dirty : Bool)
      → Inv s
      → Coherent s
      → view s.hash_table f p ≡ some k
      → (dirty ≡ true) ⊎ (files.read_page s.store f p ≡ content s f p)
      → Coherent (set_desc k (released (desc s k) dirty) s)
  unpinned-Coherent s f p k dirty v c there settled =
      let (h, used, file, page) = v.owned f p k there in
      let d = released (desc s k) dirty in
      record {
        fit = c.fit;
        number = λ i. rw (desc-set_desc k i d v h) (λ on. ground (arith, c.number i));
        synced = λ i on free clean.
            let at = desc-set_desc k i d v h in
            let files_same : (desc (set_desc k d s) i).file ≡ (desc s i).file =
              ground (arith, at) in
            let pages_same : (desc (set_desc k d s) i).page_no ≡ (desc s i).page_no =
              ground (arith, at) in
            rw (files_same, pages_same)
              (elim (ℕ_discrete i k) [
                | no other ↦
                    c.synced i (ground (arith, at)) (ground (arith, at)) (ground (arith, at))
                | yes e ↦ elim settled [
                  | inl marked ↦ absurd (ground (arith, at))
                  | inr stored ↦ rw (e, file, page) (stored ∙ content-hit s f p k there)
                ]
              ]);
      }

  -- In a coherent state of the invariant, `unPinPage` leaves the state coherent and what a client
  -- finds at every page, if it marks the page as dirty or the page is as the file gives it.
  pub un_pin_page-Preserved :
      (s : BufMgr files) (f p : ℕ) (dirty : Bool)
      → Inv s
      → Coherent s
      → (dirty ≡ true) ⊎ (files.read_page s.store f p ≡ content s f p)
      → Preserved s (un_pin_page f p dirty s).1
  unfolding content
  un_pin_page-Preserved s f p dirty v c settled =
      let still : Preserved s s = record { coherent = c; same = λ g q. refl } in
      elim (un_pin_page_cases s f p dirty v) [
        | inl (_, e) ↦ rw e still
        | inr (k, _, inl (_, e)) ↦ rw e still
        | inr (k, there, inr (_, e, _)) ↦ rw e (record {
          coherent = unpinned-Coherent s f p k dirty v c there settled;
          same = λ g q. refl;
        })
      ]
