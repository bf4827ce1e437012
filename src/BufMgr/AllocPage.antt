-- ===== src/BufMgr/AllocPage.antt =====
-- allocPage of src/buffer.cpp: the file's new page gets a frame.
use cs564_project.Prelude.{
  ℕ, ◌≡◌, refl, ◌⊎◌, inl, inr, none, some, true, false, arith, Option-cases, ℕ_discrete,
}
use cs564_project.Exceptions.{Exception, Result, ok, err, buffer_exceeded, Result-cases}
use cs564_project.Effects.{bind_result}
use cs564_project.Files.{Files}
use cs564_project.HashTbl.Laws.{view}
use cs564_project.BufMgr.State.{BufMgr, desc, page_at, assign}
use cs564_project.BufMgr.Clock.{alloc_buf}
use cs564_project.BufMgr.Calls.{alloc_page, load}
use cs564_project.BufMgr.Inv.{Inv, with_store-Inv}
use cs564_project.BufMgr.Sweep.{IsPinned, IsFree, SameUse}
use cs564_project.BufMgr.Alloc.{AllPinned, alloc_buf_exceeded}
use cs564_project.BufMgr.Evict.{Freed, Allocated, freed, refused, exceeded, alloc_buf-Allocated}
use cs564_project.BufMgr.Load.{
  Filled, Loaded, loaded, unreadable, unwritable, unallocated, load-Loaded, after_alloc,
  after_alloc_fresh, after_alloc_stale, set_page-Inv,
}

module _ {files : Files} where
  Loaded-Inv : (s : BufMgr files) (f p : ℕ) (r : Result ℕ × BufMgr files) → Loaded s f p r → Inv r.1
  Loaded-Inv s f p _ (loaded k m pg t fr reads fl) = fl.inv
  Loaded-Inv s f p _ (unreadable k m e fr fails) = with_store-Inv (files.unread m.store f p) fr.inv
  Loaded-Inv s f p _ (unwritable k e t st w x left) = with_store-Inv st w.inv
  Loaded-Inv s f p _ (unallocated t w all) = w.inv

  after_alloc-Inv : (s m : BufMgr files) (f p k : ℕ) → Freed s k m → Inv (after_alloc f p k m).1
  after_alloc-Inv s m f p k fr = elim (Option-cases (view m.hash_table f p)) [
    | inl absent ↦
        elim (after_alloc_fresh m f p k fr.inv (ground (arith, fr.bound, fr.num_bufs)) fr.unused
          absent) [
            | inl (pg, t, reads, run, fl) ↦ rw run fl.inv
            | inr (e, fails, run) ↦ rw run (with_store-Inv (files.unread m.store f p) fr.inv)
          ]
    | inr (j, there) ↦ elim (after_alloc_stale m f p k j fr.inv there) [
      | inl (pg, reads, run) ↦ rw run (set_page-Inv k pg fr.inv)
      | inr (e, fails, run) ↦ rw run (with_store-Inv (files.unread m.store f p) fr.inv)
    ]
  ]

  load_from-Inv :
      (s : BufMgr files) (f p : ℕ) (r : Result ℕ × BufMgr files)
      → Allocated s r
      → Inv (bind_result r (after_alloc f p)).1
  load_from-Inv s f p _ (freed k m fr) = after_alloc-Inv s m f p k fr
  load_from-Inv s f p _ (refused k e t st w x left) = with_store-Inv st w.inv
  load_from-Inv s f p _ (exceeded t w all) = w.inv

  -- Loading keeps the invariant, whether or not the table has the page.
  pub load-Inv : (s : BufMgr files) (f p : ℕ) → Inv s → Inv (load f p s).1
  unfolding load after_alloc
  load-Inv s f p v = load_from-Inv s f p (alloc_buf s) (alloc_buf-Allocated s v)

  bind_return-state :
      {A B : Type 0} (r : Result A × BufMgr files) (g : A → B)
      → (bind_result r (λ a t. (ok (g a), t))).1 ≡ r.1
  bind_return-state (ok a, t) g = refl
  bind_return-state (err e, t) g = refl

  pub alloc_page-Inv : (s : BufMgr files) (f : ℕ) → Inv s → Inv (alloc_page f s).1
  unfolding alloc_page
  alloc_page-Inv s f v = elim (Result-cases (files.allocate_page s.store f)) [
    | inr (e, fails) ↦ rw (alloc_page, fails) (with_store-Inv (files.unallocated s.store f) v)
    | inl ((pg, st), gives) ↦
        let n = files.page_number pg in
        let u : BufMgr files = record s { store = st } in
        rw (alloc_page, gives, bind_return-state {B = ℕ × ℕ} (load f n u) (λ (k : ℕ). (n, k)))
          (load-Inv u f n (with_store-Inv st v))
  ]

  pub alloc_page-load :
      (s : BufMgr files) (f : ℕ) (pg : files.Page) (st : files.Store)
      → files.allocate_page s.store f ≡ ok (pg, st)
      → alloc_page f s
        ≡ bind_result
            (load f (files.page_number pg) (record s { store = st }))
            (λ k t. (ok (files.page_number pg, k), t))
  unfolding alloc_page
  alloc_page-load s f pg st gives = rw (alloc_page, gives)

  -- A new page of the file, in frame `k`.
  pub record Issued (s : BufMgr files) (f n k : ℕ) (t : BufMgr files) : Type 0 where
    pub inv : Inv t
    pub entry : view t.hash_table f n ≡ some k
    pub used : (desc t k).valid ≡ true
    pub file : (desc t k).file ≡ f
    pub page_no : (desc t k).page_no ≡ n
    pub pin_cnt : (desc t k).pin_cnt ≡ 1
    pub clean : (desc t k).dirty ≡ false
    pub contents : files.read_page t.store f n ≡ ok (page_at t k)
    pub victim : IsFree (desc s k)
    pub uses : (j : ℕ) → IsPinned (desc s j) → SameUse (desc s j) (desc t j)
    pub pages : (j : ℕ) → IsPinned (desc s j) → page_at t j ≡ page_at s j

  Filled-Issued :
      (s m t : BufMgr files) (st : files.Store) (f n k : ℕ) (pg : files.Page)
      → Freed (record s { store = st }) k m
      → files.read_page m.store f n ≡ ok pg
      → Filled m k f n pg t
      → Issued s f n k t
  unfolding assign
  Filled-Issued s m t st f n k pg fr reads fl = record {
    inv = fl.inv;
    entry = ground (arith, fl.table.reads f n);
    used = ground (arith, fl.descs k);
    file = ground (arith, fl.descs k);
    page_no = ground (arith, fl.descs k);
    pin_cnt = ground (arith, fl.descs k);
    clean = ground (arith, fl.descs k);
    contents = ground (arith, fl.pages k, fl.store);
    victim = fr.victim;
    uses = λ j pinned. elim (ℕ_discrete j k) [
      | yes same ↦ absurd (ground (arith, fr.victim, same))
      | no other ↦ ground (arith, fl.descs j, fr.others j other)
    ];
    pages = λ j pinned. elim (ℕ_discrete j k) [
      | yes same ↦ absurd (ground (arith, fr.victim, same))
      | no other ↦ ground (arith, fl.pages j, fr.pool)
    ];
  }

  issue_from :
      (s : BufMgr files) (st : files.Store) (f n : ℕ) (r : Result ℕ × BufMgr files)
      → Loaded (record s { store = st }) f n r
      → ((k : ℕ) × (t : BufMgr files) × (bind_result {B = ℕ × ℕ} r (λ k t. (ok (n, k), t))
            ≡ (ok (n, k), t))
          × Issued s f n k t)
        ⊎ ((e : Exception) × (t : BufMgr files) × (bind_result {B = ℕ × ℕ} r (λ k t. (ok (n, k), t))
              ≡ (err e, t))
            × Inv t)
  issue_from s st f n _ (loaded k m pg t fr reads fl) =
      inl (k, t, refl, Filled-Issued s m t st f n k pg fr reads fl)
  issue_from s st f n _ (unreadable k m e fr fails) =
      inr (e, _, refl, with_store-Inv (files.unread m.store f n) fr.inv)
  issue_from s st f n _ (unwritable k e t st' w x left) = inr (e, _, refl, with_store-Inv st' w.inv)
  issue_from s st f n _ (unallocated t w all) = inr (buffer_exceeded, t, refl, w.inv)

  -- In a state of the invariant, where the file gives a page that is not in the pool, `allocPage`
  -- returns its number and a frame that was free and now holds what the file reads there, pinned
  -- once and clean, and changes no pinned frame; or it throws. Both keep the invariant.
  pub alloc_page_fresh :
      (s : BufMgr files) (f : ℕ) (pg : files.Page) (st : files.Store)
      → Inv s
      → files.allocate_page s.store f ≡ ok (pg, st)
      → view s.hash_table f (files.page_number pg) ≡ none
      → ((k : ℕ) × (t : BufMgr files) × (alloc_page f s ≡ (ok (files.page_number pg, k), t))
          × Issued s f (files.page_number pg) k t)
        ⊎ ((e : Exception) × (t : BufMgr files) × (alloc_page f s ≡ (err e, t)) × Inv t)
  alloc_page_fresh s f pg st v gives absent =
      let n = files.page_number pg in
      let u : BufMgr files = record s { store = st } in
      rw (alloc_page-load s f pg st gives)
        (issue_from s st f n (load f n u) (load-Loaded u f n (with_store-Inv st v) absent))

  -- In a state of the invariant with every frame pinned, where the file gives a page, `allocPage`
  -- throws BufferExceededException, and the store is the one that `allocatePage` left.
  pub alloc_page_leaks :
      (s : BufMgr files) (f : ℕ) (pg : files.Page) (st : files.Store)
      → Inv s
      → AllPinned s
      → files.allocate_page s.store f ≡ ok (pg, st)
      → (t : BufMgr files) × (alloc_page f s ≡ (err buffer_exceeded, t)) × (t.store ≡ st)
  unfolding load
  alloc_page_leaks s f pg st v all gives =
      let u : BufMgr files = record s { store = st } in
      let (t, run, w) = alloc_buf_exceeded u (with_store-Inv st v) all in
      (t, rw (alloc_page-load s f pg st gives, load, run), w.store)
