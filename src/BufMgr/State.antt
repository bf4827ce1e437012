-- ===== src/BufMgr/State.antt =====
-- src/buffer.h, src/buffer.cpp: the state of the buffer manager, its constructor, and the calls of
-- the hash table and of a `File*` that its methods make.
-- A `Page*&` that a call returns is the index of the frame in `buf_pool`.
use cs564_project.Prelude.{
  ℕ, zero, suc, ◌+◌, ◌-◌, ◌*◌, ◌/◌, List, [], ◌∷◌, Bool, true, false, get_or, set, replicate,
}
use cs564_project.Exceptions.{ok, err}
use cs564_project.Effects.{M}
use cs564_project.Files.{Files}
use cs564_project.HashTbl
use cs564_project.HashTbl.{BufHashTbl}

-- `file` is the address of the `File`, 0 for NULL.
pub record BufDesc : Type 0 where
  pub file : ℕ
  pub page_no : ℕ
  pub frame_no : ℕ
  pub pin_cnt : ℕ
  pub dirty : Bool
  pub valid : Bool
  pub refbit : Bool

-- `Page::INVALID_NUMBER`.
abbrev pub invalid_number : ℕ
invalid_number = 0

-- `Clear` leaves the frame's number alone.
unfoldable pub clear : BufDesc → BufDesc
clear d = record {
  file = 0;
  page_no = invalid_number;
  frame_no = d.frame_no;
  pin_cnt = 0;
  dirty = false;
  valid = false;
  refbit = false;
}

unfoldable pub assign : BufDesc → ℕ → ℕ → BufDesc
assign d file page_no = record {
  file = file;
  page_no = page_no;
  frame_no = d.frame_no;
  pin_cnt = 1;
  dirty = false;
  valid = true;
  refbit = true;
}

pub record BufStats : Type 0 where
  pub accesses : ℕ
  pub diskreads : ℕ
  pub diskwrites : ℕ

unfoldable pub clear_stats : BufStats → BufStats
clear_stats s = record { accesses = 0; diskreads = 0; diskwrites = 0 }

-- The store stands for the files that the manager's `File*` reach.
pub record BufMgr (files : Files) : Type 0 where
  pub clock_hand : ℕ
  pub num_bufs : ℕ
  pub hash_table : BufHashTbl
  pub buf_desc_table : List BufDesc
  pub buf_stats : BufStats
  pub buf_pool : List files.Page
  pub store : files.Store

-- A descriptor as `new BufDesc[bufs]` builds it, and the loop of the constructor that numbers them.
unfoldable pub number_descs : ℕ → ℕ → List BufDesc
unfolding clear
number_descs i zero = []
number_descs i (suc n) =
    clear (record {
      file = 0;
      page_no = 0;
      frame_no = i;
      pin_cnt = 0;
      dirty = false;
      valid = false;
      refbit = false;
    })
    ∷ number_descs (i + 1) n

-- `((int) (bufs * 1.2)) * 2 / 2 + 1`, below the overflow of `int`.
unfoldable pub table_size : ℕ → ℕ
table_size bufs = (bufs * 6 / 5) * 2 / 2 + 1

abbrev pub no_desc : BufDesc
no_desc = record {
  file = 0;
  page_no = 0;
  frame_no = 0;
  pin_cnt = 0;
  dirty = false;
  valid = false;
  refbit = false;
}

abbrev pub Call : Files → Type 0 → Type 0
Call files A = M (BufMgr files) A

module _ {files : Files} where
  unfoldable pub new : ℕ → files.Store → BufMgr files
  unfolding number_descs table_size clear_stats
  new bufs store = record {
    clock_hand = bufs - 1;
    num_bufs = bufs;
    hash_table = HashTbl.new (table_size bufs);
    buf_desc_table = number_descs 0 bufs;
    buf_stats = clear_stats (record { accesses = 0; diskreads = 0; diskwrites = 0 });
    buf_pool = replicate bufs files.blank;
    store = store;
  }

  -- `bufDescTable[i]`, `bufPool[i]` and the writes to them.
  abbrev pub desc : BufMgr files → ℕ → BufDesc
  desc s i = get_or s.buf_desc_table i no_desc

  abbrev pub page_at : BufMgr files → ℕ → files.Page
  page_at s i = get_or s.buf_pool i files.blank

  abbrev pub set_desc : ℕ → BufDesc → BufMgr files → BufMgr files
  set_desc i d s = record s { buf_desc_table = set s.buf_desc_table i d }

  abbrev pub set_page : ℕ → files.Page → BufMgr files → BufMgr files
  set_page i p s = record s { buf_pool = set s.buf_pool i p }

  -- What a write of frame `i` that throws leaves.
  abbrev pub write_failed : ℕ → BufMgr files → BufMgr files
  write_failed i s = record s { store = files.unwritten s.store (desc s i).file (page_at s i) }

  -- `bufDescTable[i].file->writePage(bufPool[i])`.
  unfoldable pub write_frame : ℕ → Call files (Unit {0})
  write_frame i s = elim (files.write_page s.store (desc s i).file (page_at s i)) [
    | ok st ↦ (ok tt, record s { store = st })
    | err e ↦ (err e, write_failed i s)
  ]

  unfoldable pub remove_entry : ℕ → ℕ → Call files (Unit {0})
  remove_entry file page_no s = elim (HashTbl.remove s.hash_table file page_no) [
    | ok t ↦ (ok tt, record s { hash_table = t })
    | err e ↦ (err e, s)
  ]

  unfoldable pub insert_entry : ℕ → ℕ → ℕ → Call files (Unit {0})
  insert_entry file page_no frame s = elim (HashTbl.insert s.hash_table file page_no frame) [
    | ok t ↦ (ok tt, record s { hash_table = t })
    | err e ↦ (err e, s)
  ]

  unfoldable pub clear_desc : ℕ → Call files (Unit {0})
  unfolding clear
  clear_desc i s = (ok tt, set_desc i (clear (desc s i)) s)
