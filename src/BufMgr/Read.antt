-- ===== src/BufMgr/Read.antt =====
-- readPage of src/buffer.cpp: a hit pins the frame, a miss loads the page.
use cs564_project.Prelude.{
  ℕ, ◌+◌, ◌<◌, ◌≡◌, refl, ◌≢◌, ◌⊎◌, inl, inr, none, some, true, arith, Option-cases, ℕ_discrete,
  set-set, sym,
}
use mathlib.Core.Path.{subst}
use cs564_project.Exceptions.{Exception, Result, ok, err, buffer_exceeded, hash_not_found}
use cs564_project.Effects.{bind_result, Outcome}
use cs564_project.Files.{Files}
use cs564_project.HashTbl.Laws.{view, lookup-view}
use cs564_project.BufMgr.State.{BufDesc, BufMgr, desc, page_at, assign, set_desc}
use cs564_project.BufMgr.Calls.{load, read_page, lookup_pin, lookup_frame, pin, mark_referenced}
use cs564_project.BufMgr.Inv.{Inv, desc-set_desc, desc-set_desc_self, touch-Inv, with_store-Inv}
use cs564_project.BufMgr.Sweep.{IsPinned, IsFree, SameUse, Swept}
use cs564_project.BufMgr.Alloc.{AllPinned}
use cs564_project.BufMgr.Evict.{Freed, Refused}
use cs564_project.BufMgr.Load.{
  Loaded, loaded, unreadable, unwritable, unallocated, Filled, load-Loaded,
}

module _ {files : Files} where
  -- Pinned frames other than `k` keep their page, their contents and their counters.
  pub record Stable (s : BufMgr files) (k : ℕ) (t : BufMgr files) : Type 0 where
    pub uses : (j : ℕ) → j ≢ k → IsPinned (desc s j) → SameUse (desc s j) (desc t j)
    pub pages : (j : ℕ) → j ≢ k → IsPinned (desc s j) → page_at t j ≡ page_at s j

  -- A call of `readPage` that returns frame `k`.
  pub record Served (s : BufMgr files) (f p k : ℕ) (t : BufMgr files) : Type 0 where
    pub inv : Inv t
    pub entry : view t.hash_table f p ≡ some k
    pub used : (desc t k).valid ≡ true
    pub file : (desc t k).file ≡ f
    pub page_no : (desc t k).page_no ≡ p
    pub referenced : (desc t k).refbit ≡ true
    pub contents :
        ((view s.hash_table f p ≡ some k)
          × ((desc t k).pin_cnt ≡ (desc s k).pin_cnt + 1)
          × (page_at t k ≡ page_at s k)
          × (t.store ≡ s.store))
        ⊎ ((view s.hash_table f p ≡ none)
            × IsFree (desc s k)
            × ((desc t k).pin_cnt ≡ 1)
            × (files.read_page t.store f p ≡ ok (page_at t k)))
    pub stable : Stable s k t

  -- A call that throws: the page was not in the pool, and no pinned frame has changed.
  pub record Unserved (s : BufMgr files) (f p : ℕ) (e : Exception) (t : BufMgr files) : Type 0 where
    pub inv : Inv t
    pub absent : view s.hash_table f p ≡ none
    pub why :
        ((e ≡ buffer_exceeded) × AllPinned s)
        ⊎ ((k : ℕ) × Refused s k e
            × (t.store ≡ files.unwritten s.store (desc s k).file (page_at s k)))
        ⊎ ((st : files.Store) × (files.read_page st f p ≡ err e) × (t.store ≡ files.unread st f p))
    pub uses : (j : ℕ) → IsPinned (desc s j) → SameUse (desc s j) (desc t j)
    pub pages : (j : ℕ) → page_at t j ≡ page_at s j

  hit-Served :
      (s : BufMgr files) (f p k : ℕ)
      → Inv s
      → view s.hash_table f p ≡ some k
      → Served s f p k
          (set_desc k (record (desc s k) { pin_cnt = (desc s k).pin_cnt + 1; refbit = true }) s)
  hit-Served s f p k v there =
      let d : BufDesc = record (desc s k) { pin_cnt = (desc s k).pin_cnt + 1; refbit = true } in
      let (h, used, file, page) = v.owned f p k there in
      record {
        inv = touch-Inv k d v h used used refl refl refl;
        entry = there;
        used = rw (desc-set_desc k k d v h) (ground arith);
        file = rw (desc-set_desc k k d v h) (ground arith);
        page_no = rw (desc-set_desc k k d v h) (ground arith);
        referenced = rw (desc-set_desc k k d v h) (ground arith);
        contents = inl (there, rw (desc-set_desc k k d v h) (ground arith), refl, refl);
        stable = record {
          uses = λ j ne _. rw (desc-set_desc k j d v h) (ground arith);
          pages = λ j ne _. refl;
        };
      }

  miss-Served :
      (s m t : BufMgr files) (f p k : ℕ) (pg : files.Page)
      → view s.hash_table f p ≡ none
      → Freed s k m
      → files.read_page m.store f p ≡ ok pg
      → Filled m k f p pg t
      → Served s f p k (set_desc k (record (desc t k) { refbit = true }) t)
  unfolding assign
  miss-Served s m t f p k pg absent fr reads fl =
      let d : BufDesc = record (desc t k) { refbit = true } in
      let h : k < t.num_bufs = ground (arith, fr.bound, fr.num_bufs, fl.num_bufs) in
      let own = fl.descs k in
      let used : (desc t k).valid ≡ true = ground (arith, own) in
      record {
        inv = touch-Inv k d fl.inv h used used refl refl refl;
        entry = ground (arith, fl.table.reads f p);
        used = rw (desc-set_desc k k d fl.inv h) (ground (arith, own));
        file = rw (desc-set_desc k k d fl.inv h) (ground (arith, own));
        page_no = rw (desc-set_desc k k d fl.inv h) (ground (arith, own));
        referenced = rw (desc-set_desc k k d fl.inv h) (ground (arith, own));
        contents = inr (
          absent,
          fr.victim,
          rw (desc-set_desc k k d fl.inv h) (ground (arith, own)),
          ground (arith, fl.pages k, fl.store),
        );
        stable = record {
          uses = λ j ne _.
              rw (desc-set_desc k j d fl.inv h) (ground (arith, fl.descs j, fr.others j ne));
          pages = λ j ne _. ground (arith, fl.pages j, fr.pool);
        };
      }

  Swept-Unserved :
      (s t : BufMgr files) (f p : ℕ)
      → view s.hash_table f p ≡ none
      → Swept s t
      → AllPinned s
      → Unserved s f p buffer_exceeded t
  Swept-Unserved s t f p absent w all = record {
    inv = w.inv;
    absent = absent;
    why = inl (refl, all);
    uses = λ j _. w.uses j;
    pages = λ j. ground (arith, w.pool);
  }

  Refused-Unserved :
      (s t : BufMgr files) (st : files.Store) (f p k : ℕ) (e : Exception)
      → view s.hash_table f p ≡ none
      → Swept s t
      → Refused s k e
      → st ≡ files.unwritten s.store (desc s k).file (page_at s k)
      → Unserved s f p e (record t { store = st })
  Refused-Unserved s t st f p k e absent w refused left = record {
    inv = with_store-Inv st w.inv;
    absent = absent;
    why = inr (inl (k, refused, left));
    uses = λ j _. w.uses j;
    pages = λ j. ground (arith, w.pool);
  }

  Freed-Unserved :
      (s m : BufMgr files) (f p k : ℕ) (e : Exception)
      → view s.hash_table f p ≡ none
      → Freed s k m
      → files.read_page m.store f p ≡ err e
      → Unserved s f p e (record m { store = files.unread m.store f p })
  Freed-Unserved s m f p k e absent fr fails = record {
    inv = with_store-Inv (files.unread m.store f p) fr.inv;
    absent = absent;
    why = inr (inr (m.store, fails, refl));
    uses = λ j pinned. elim (ℕ_discrete j k) [
      | yes same ↦ absurd (ground (arith, fr.victim, same))
      | no other ↦ fr.others j other
    ];
    pages = λ j. ground (arith, fr.pool);
  }

  abbrev pub Answers : BufMgr files → ℕ → ℕ → Result ℕ × BufMgr files → Type 0
  Answers s f p = Outcome (Served s f p) (Unserved s f p)

  pub lookup_pin-hit :
      (s : BufMgr files) (f p k : ℕ)
      → view s.hash_table f p ≡ some k
      → lookup_pin f p s
        ≡ (ok k, set_desc k (record (desc s k) { pin_cnt = (desc s k).pin_cnt + 1 }) s)
  unfolding lookup_pin lookup_frame pin
  lookup_pin-hit s f p k there = ground (arith, lookup-view s.hash_table f p)

  pub lookup_pin-miss :
      (s : BufMgr files) (f p : ℕ)
      → view s.hash_table f p ≡ none
      → lookup_pin f p s ≡ (err (hash_not_found f p), s)
  unfolding lookup_pin lookup_frame
  lookup_pin-miss s f p absent = ground (arith, lookup-view s.hash_table f p)

  -- Pinning and then marking a frame is one write of its descriptor.
  pub pin_mark :
      (s : BufMgr files) (k : ℕ)
      → Inv s
      → k < s.num_bufs
      → (mark_referenced k
          (set_desc k (record (desc s k) { pin_cnt = (desc s k).pin_cnt + 1 }) s)).1
        ≡ set_desc k (record (desc s k) { pin_cnt = (desc s k).pin_cnt + 1; refbit = true }) s
  unfolding mark_referenced
  pin_mark s k v h =
      let d : BufDesc = record (desc s k) { pin_cnt = (desc s k).pin_cnt + 1 } in
      rw (desc-set_desc_self k d v h, set-set)

  unfoldable pub finish : Result ℕ × BufMgr files → Result ℕ × BufMgr files
  finish r = bind_result r (λ k t. bind_result (mark_referenced k t) (λ _ u. (ok k, u)))

  read_miss_from :
      (s : BufMgr files) (f p : ℕ) (r : Result ℕ × BufMgr files)
      → view s.hash_table f p ≡ none
      → Loaded s f p r
      → Answers s f p (finish r)
  unfolding finish mark_referenced
  read_miss_from s f p _ absent (loaded k m pg t fr reads fl) =
      miss-Served s m t f p k pg absent fr reads fl
  read_miss_from s f p _ absent (unreadable k m e fr fails) =
      Freed-Unserved s m f p k e absent fr fails
  read_miss_from s f p _ absent (unwritable k e t st w x left) =
      Refused-Unserved s t st f p k e absent w x left
  read_miss_from s f p _ absent (unallocated t w all) = Swept-Unserved s t f p absent w all

  -- `readPage` on a page of the pool.
  read_hit :
      (s : BufMgr files) (f p k : ℕ)
      → Inv s
      → view s.hash_table f p ≡ some k
      → Answers s f p (read_page f p s)
  unfolding read_page mark_referenced
  read_hit s f p k v there =
      let (h, _, _, _) = v.owned f p k there in
      rw (lookup_pin-hit s f p k there)
        (subst (Served s f p k) (sym (pin_mark s k v h)) (hit-Served s f p k v there))

  read_miss :
      (s : BufMgr files) (f p : ℕ)
      → Inv s
      → view s.hash_table f p ≡ none
      → Answers s f p (read_page f p s)
  unfolding read_page finish
  read_miss s f p v absent =
      rw (lookup_pin-miss s f p absent)
        (read_miss_from s f p (load f p s) absent (load-Loaded s f p v absent))

  -- In a state of the invariant, `readPage` returns a referenced frame that holds the page and keeps
  -- the invariant. On a hit it is the frame of the page with one pin more, its contents and the store
  -- the same; on a miss it is a frame that was free, pinned once, with what the file gives. Or it
  -- throws, on a miss: because every frame is pinned, because the write of a dirty victim is refused,
  -- or because the file does not give the page; then the store is what the File call left. The other pinned frames keep page, contents and pins.
  pub read_page-Answers : (s : BufMgr files) (f p : ℕ) → Inv s → Answers s f p (read_page f p s)
  read_page-Answers s f p v = elim (Option-cases (view s.hash_table f p)) [
    | inl absent ↦ read_miss s f p v absent
    | inr (k, there) ↦ read_hit s f p k v there
  ]

  Answers-Inv :
      (s : BufMgr files) (f p : ℕ) (r : Result ℕ × BufMgr files) → Answers s f p r → Inv r.1
  Answers-Inv s f p (ok k, t) a = a.inv
  Answers-Inv s f p (err e, t) a = a.inv

  pub read_page-Inv : (s : BufMgr files) (f p : ℕ) → Inv s → Inv (read_page f p s).1
  read_page-Inv s f p v = Answers-Inv s f p (read_page f p s) (read_page-Answers s f p v)
