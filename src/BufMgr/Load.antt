-- ===== src/BufMgr/Load.antt =====
-- What readPage in src/buffer.cpp does on a miss, and the second half of allocPage: a frame is
-- freed, and the page is read into it.
use cs564_project.Prelude.{
  ℕ, ◌<◌, ◌≡◌, refl, ◌⊎◌, inl, inr, none, some, false, ◌==◌, if◌then◌else◌, arith, length-set,
  get_or-set,
}
use cs564_project.Exceptions.{
  Exception, Result, ok, err, buffer_exceeded, hash_already_present, Result-cases,
}
use cs564_project.Effects.{bind_result}
use cs564_project.Files.{Files}
use cs564_project.HashTbl.{BufHashTbl}
use cs564_project.HashTbl.Laws.{view, Writes, insert-Writes, insert-present}
use cs564_project.BufMgr.State.{BufMgr, desc, page_at, assign, set_desc, set_page, insert_entry}
use cs564_project.BufMgr.Clock.{alloc_buf}
use cs564_project.BufMgr.Calls.{load, fetch, assign_desc}
use cs564_project.BufMgr.Inv.{Inv, with_table, fill-Inv, desc-set_desc}
use cs564_project.BufMgr.Sweep.{Swept}
use cs564_project.BufMgr.Alloc.{AllPinned}
use cs564_project.BufMgr.Evict.{
  Freed, Allocated, freed, refused, exceeded, Refused, alloc_buf-Allocated,
}

module _ {files : Files} where
  pub set_page-Inv : {s : BufMgr files} (i : ℕ) (p : files.Page) → Inv s → Inv (set_page i p s)
  set_page-Inv i p v = record {
    pos = v.pos;
    small = v.small;
    hand = v.hand;
    descs = v.descs;
    pool = rw length-set v.pool;
    table = v.table;
    mapped = v.mapped;
    owned = v.owned;
    idle = v.idle;
    numbered = v.numbered;
  }

  -- Frame `k` of `m`, which is free, has been given to page `p` of file `f` with contents `pg`.
  pub record Filled (m : BufMgr files) (k f p : ℕ) (pg : files.Page) (t : BufMgr files)
      : Type 0 where
    pub inv : Inv t
    pub num_bufs : t.num_bufs ≡ m.num_bufs
    pub store : t.store ≡ m.store
    pub table : Writes m.hash_table f p (some k) t.hash_table
    pub descs : (j : ℕ) → desc t j ≡ (if k == j then assign (desc m k) f p else desc m j)
    pub pages : (j : ℕ) → page_at t j ≡ (if k == j then pg else page_at m j)

  fill-Filled :
      (m : BufMgr files) (k f p : ℕ) (pg : files.Page) (t : BufHashTbl)
      → Inv m
      → k < m.num_bufs
      → (desc m k).valid ≡ false
      → view m.hash_table f p ≡ none
      → Writes m.hash_table f p (some k) t
      → Filled m k f p pg
          (set_desc k (assign (desc m k) f p) (with_table t m.store (set_page k pg m)))
  fill-Filled m k f p pg t v h unused absent w = record {
    inv = fill-Inv k f p t (set_page-Inv k pg v) h unused absent w;
    num_bufs = refl;
    store = refl;
    table = w;
    descs = λ j. desc-set_desc k j (assign (desc m k) f p) v h;
    pages = λ j. get_or-set m.buf_pool k j pg files.blank (omega (arith, v.pool));
  }

  -- What `load` comes to: `allocBuf` throws, in a write or at the end, the read throws after a frame was freed, or the page is
  -- in the frame.
  pub data Loaded (s : BufMgr files) (f p : ℕ) : Result ℕ × BufMgr files → Type 0 where
    loaded :
        (k : ℕ) (m : BufMgr files) (pg : files.Page) (t : BufMgr files)
        → Freed s k m
        → files.read_page m.store f p ≡ ok pg
        → Filled m k f p pg t
        → Loaded s f p (ok k, t)
    unreadable :
        (k : ℕ) (m : BufMgr files) (e : Exception)
        → Freed s k m
        → files.read_page m.store f p ≡ err e
        → Loaded s f p (err e, record m { store = files.unread m.store f p })
    unwritable :
        (k : ℕ) (e : Exception) (t : BufMgr files) (st : files.Store)
        → Swept s t
        → Refused s k e
        → st ≡ files.unwritten s.store (desc s k).file (page_at s k)
        → Loaded s f p (err e, record t { store = st })
    unallocated :
        (t : BufMgr files) → Swept s t → AllPinned s → Loaded s f p (err buffer_exceeded, t)

  -- The steps behind `allocBuf`.
  unfoldable pub after_alloc : ℕ → ℕ → ℕ → BufMgr files → Result ℕ × BufMgr files
  after_alloc f p k m = bind_result (fetch f p k m) (λ _ s.
      bind_result (insert_entry f p k s)
        (λ _ s. bind_result (assign_desc k f p s) (λ _ s. (ok k, s))))

  -- Behind `allocBuf`, with no entry for the page in the table.
  pub after_alloc_fresh :
      (m : BufMgr files) (f p k : ℕ)
      → Inv m
      → k < m.num_bufs
      → (desc m k).valid ≡ false
      → view m.hash_table f p ≡ none
      → ((pg : files.Page) × (t : BufMgr files) × (files.read_page m.store f p ≡ ok pg)
          × (after_alloc f p k m ≡ (ok k, t))
          × Filled m k f p pg t)
        ⊎ ((e : Exception) × (files.read_page m.store f p ≡ err e)
            × (after_alloc f p k m ≡ (err e, record m { store = files.unread m.store f p })))
  unfolding after_alloc fetch insert_entry assign_desc
  after_alloc_fresh m f p k v h unused absent =
      let (t, inserts, w) = insert-Writes m.hash_table v.table f p k absent in
      elim (Result-cases (files.read_page m.store f p)) [
        | inr (e, fails) ↦ inr (e, fails, rw (after_alloc, fetch, fails))
        | inl (pg, reads) ↦ inl (
          pg,
          _,
          reads,
          rw (after_alloc, fetch, reads, insert_entry, inserts),
          fill-Filled m k f p pg t v h unused absent w,
        )
      ]

  -- Behind `allocBuf`, with a stale entry for the page: `insert` throws, and the frame stays free.
  pub after_alloc_stale :
      (m : BufMgr files) (f p k j : ℕ)
      → Inv m
      → view m.hash_table f p ≡ some j
      → ((pg : files.Page) × (files.read_page m.store f p ≡ ok pg)
          × (after_alloc f p k m ≡ (err (hash_already_present f p j), set_page k pg m)))
        ⊎ ((e : Exception) × (files.read_page m.store f p ≡ err e)
            × (after_alloc f p k m ≡ (err e, record m { store = files.unread m.store f p })))
  unfolding after_alloc fetch insert_entry
  after_alloc_stale m f p k j v there =
      let throws = insert-present m.hash_table v.table f p k j there in
      elim (Result-cases (files.read_page m.store f p)) [
        | inr (e, fails) ↦ inr (e, fails, rw (after_alloc, fetch, fails))
        | inl (pg, reads) ↦ inl (pg, reads, rw (after_alloc, fetch, reads, insert_entry, throws))
      ]

  after_alloc-Loaded :
      (s m : BufMgr files) (f p k : ℕ)
      → view s.hash_table f p ≡ none
      → Freed s k m
      → Loaded s f p (after_alloc f p k m)
  after_alloc-Loaded s m f p k absent fr =
      elim (after_alloc_fresh m f p k fr.inv (ground (arith, fr.bound, fr.num_bufs)) fr.unused
        (ground (arith, fr.entries f p))) [
          | inl (pg, t, reads, run, fl) ↦ rw run (loaded k m pg t fr reads fl)
          | inr (e, fails, run) ↦ rw run (unreadable k m e fr fails)
        ]

  load_from :
      (s : BufMgr files) (f p : ℕ) (r : Result ℕ × BufMgr files)
      → view s.hash_table f p ≡ none
      → Allocated s r
      → Loaded s f p (bind_result r (after_alloc f p))
  load_from s f p _ absent (freed k m fr) = after_alloc-Loaded s m f p k absent fr
  load_from s f p _ absent (refused k e t st w x left) = unwritable k e t st w x left
  load_from s f p _ absent (exceeded t w all) = unallocated t w all

  -- Loading a page that is not in the pool.
  pub load-Loaded :
      (s : BufMgr files) (f p : ℕ)
      → Inv s
      → view s.hash_table f p ≡ none
      → Loaded s f p (load f p s)
  unfolding load after_alloc
  load-Loaded s f p v absent = load_from s f p (alloc_buf s) absent (alloc_buf-Allocated s v)
