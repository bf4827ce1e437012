-- ===== src/BufMgr/Inv.antt =====
-- The invariant of the buffer manager of src/buffer.cpp: the descriptors, the hash table and the
-- pool agree.
use cs564_project.Prelude.{
  ℕ, ◌^◌, ◌<◌, ◌≡◌, none, some, true, false, ◌==◌, if◌then◌else◌, arith, length, length-set,
  get_or-set,
}
use cs564_project.HashTbl.Laws.{view, update, Writes}
use cs564_project.HashTbl.Laws
use cs564_project.HashTbl.{BufHashTbl}
use cs564_project.Files.{Files}
use cs564_project.BufMgr.State.{BufDesc, BufMgr, no_desc, desc, set_desc, clear, assign}

-- A descriptor that holds no page.
pub record IsIdle (d : BufDesc) : Type 0 where
  pub no_file : d.file ≡ 0
  pub unpinned : d.pin_cnt ≡ 0
  pub clean : d.dirty ≡ false
  pub unreferenced : d.refbit ≡ false

module _ {files : Files} where
  pub record Inv (s : BufMgr files) : Type 0 where
    pub pos : 0 < s.num_bufs
    pub small : s.num_bufs < 2 ^ 32
    pub hand : s.clock_hand < s.num_bufs
    pub descs : length s.buf_desc_table ≡ s.num_bufs
    pub pool : length s.buf_pool ≡ s.num_bufs
    pub table : Laws.IsValid s.hash_table
    pub mapped :
        (i : ℕ)
        → (desc s i).valid ≡ true
        → view s.hash_table (desc s i).file (desc s i).page_no ≡ some i
    pub owned :
        (f p i : ℕ)
        → view s.hash_table f p ≡ some i
        → (i < s.num_bufs)
          × ((desc s i).valid ≡ true)
          × ((desc s i).file ≡ f)
          × ((desc s i).page_no ≡ p)
    pub idle : (i : ℕ) → (desc s i).valid ≡ false → IsIdle (desc s i)
    pub numbered : (i : ℕ) → i < s.num_bufs → (desc s i).frame_no ≡ i

  -- A descriptor after a write to the array.
  pub desc-set_desc :
      {s : BufMgr files} (i j : ℕ) (d : BufDesc)
      → Inv s
      → i < s.num_bufs
      → desc (set_desc i d s) j ≡ (if i == j then d else desc s j)
  desc-set_desc {s} i j d v h = get_or-set s.buf_desc_table i j d no_desc (omega (arith, v.descs))

  pub desc-set_desc_self :
      {s : BufMgr files} (i : ℕ) (d : BufDesc)
      → Inv s
      → i < s.num_bufs
      → desc (set_desc i d s) i ≡ d
  desc-set_desc_self i d v h = rw (desc-set_desc i i d v h) (ground arith)

  -- A write that changes only the counters and flags of a frame in use.
  pub touch-Inv :
      {s : BufMgr files} (i : ℕ) (d : BufDesc)
      → Inv s
      → i < s.num_bufs
      → (desc s i).valid ≡ true
      → d.valid ≡ true
      → d.file ≡ (desc s i).file
      → d.page_no ≡ (desc s i).page_no
      → d.frame_no ≡ (desc s i).frame_no
      → Inv (set_desc i d s)
  touch-Inv {s} i d v h used used' e₁ e₂ e₃ = record {
    pos = v.pos;
    small = v.small;
    hand = v.hand;
    descs = rw length-set v.descs;
    pool = v.pool;
    table = v.table;
    mapped = λ j. rw (desc-set_desc i j d v h) (ground (arith, v.mapped j));
    owned = λ f p j. rw (desc-set_desc i j d v h) (ground (arith, v.owned f p j));
    idle = λ j. rw (desc-set_desc i j d v h) (ground (arith, v.idle j));
    numbered = λ j. rw (desc-set_desc i j d v h) (ground (arith, v.numbered j));
  }

  -- A write of the table, the pool or the store that leaves the descriptors.
  abbrev pub with_table : BufHashTbl → files.Store → BufMgr files → BufMgr files
  with_table t st s = record s { hash_table = t; store = st }

  -- Clearing a frame, with its entry removed from the table.
  pub release-Inv :
      {s : BufMgr files} (i : ℕ) (t : BufHashTbl) (st : files.Store)
      → Inv s
      → i < s.num_bufs
      → (desc s i).valid ≡ true
      → Writes s.hash_table (desc s i).file (desc s i).page_no none t
      → Inv (set_desc i (clear (desc s i)) (with_table t st s))
  unfolding clear
  release-Inv {s} i t st v h used w = record {
    pos = v.pos;
    small = v.small;
    hand = v.hand;
    descs = rw length-set v.descs;
    pool = v.pool;
    table = w.valid;
    mapped = λ j.
        rw (desc-set_desc i j (clear (desc s i)) v h)
          (ground (arith, v.mapped j, v.mapped i, w.reads (desc s j).file (desc s j).page_no));
    owned = λ f p j.
        rw (desc-set_desc i j (clear (desc s i)) v h) (ground (arith, v.owned f p j, w.reads f p));
    idle = λ j. rw (desc-set_desc i j (clear (desc s i)) v h) (ground (arith, v.idle j));
    numbered = λ j. rw (desc-set_desc i j (clear (desc s i)) v h) (ground (arith, v.numbered j));
  }

  -- Setting a free frame, with an entry for its page added to the table.
  pub fill-Inv :
      {s : BufMgr files} (i f p : ℕ) (t : BufHashTbl)
      → Inv s
      → i < s.num_bufs
      → (desc s i).valid ≡ false
      → view s.hash_table f p ≡ none
      → Writes s.hash_table f p (some i) t
      → Inv (set_desc i (assign (desc s i) f p) (with_table t s.store s))
  unfolding assign
  fill-Inv {s} i f p t v h free absent w = record {
    pos = v.pos;
    small = v.small;
    hand = v.hand;
    descs = rw length-set v.descs;
    pool = v.pool;
    table = w.valid;
    mapped = λ j.
        rw (desc-set_desc i j (assign (desc s i) f p) v h)
          (ground (arith, v.mapped j, w.reads (desc s j).file (desc s j).page_no, w.reads f p));
    owned = λ g q j.
        rw (desc-set_desc i j (assign (desc s i) f p) v h)
          (ground (arith, v.owned g q j, w.reads g q));
    idle = λ j. rw (desc-set_desc i j (assign (desc s i) f p) v h) (ground (arith, v.idle j));
    numbered =
        λ j. rw (desc-set_desc i j (assign (desc s i) f p) v h) (ground (arith, v.numbered j));
  }

  -- The files are no part of the invariant.
  pub with_store-Inv : {s : BufMgr files} (st : files.Store) → Inv s → Inv (record s { store = st })
  with_store-Inv st v = record {
    pos = v.pos;
    small = v.small;
    hand = v.hand;
    descs = v.descs;
    pool = v.pool;
    table = v.table;
    mapped = v.mapped;
    owned = v.owned;
    idle = v.idle;
    numbered = v.numbered;
  }
