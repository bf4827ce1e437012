-- ===== src/BufMgr/Sweep.antt =====
-- One round of the loop of allocBuf in src/buffer.cpp: the hand moves, and the frame under it is
-- taken or passed over.
use cs564_project.Prelude.{
  ℕ, ◌+◌, ◌%◌, ◌^◌, ◌<◌, ◌≡◌, refl, ◌⊎◌, inl, inr, ◌∙◌, true, false, arith, set, Bool-cases, dec_lt,
  ltb,
}
use native.Mathlib.Nat.{mod-eq_of_lt, mod_self}
use cs564_project.Exceptions.{Result, ok}
use cs564_project.Files.{Files}
use cs564_project.BufMgr.State.{BufDesc, BufMgr, desc, set_desc}
use cs564_project.BufMgr.Clock.{stop, go, advance_clock, visit, evict}
use cs564_project.BufMgr.Inv.{Inv, desc-set_desc, touch-Inv}

-- Two descriptors that differ at most in the reference bit.
pub record SameUse (d e : BufDesc) : Type 0 where
  pub file : e.file ≡ d.file
  pub page_no : e.page_no ≡ d.page_no
  pub frame_no : e.frame_no ≡ d.frame_no
  pub pin_cnt : e.pin_cnt ≡ d.pin_cnt
  pub dirty : e.dirty ≡ d.dirty
  pub valid : e.valid ≡ d.valid

abbrev pub IsPinned : BufDesc → Type 0
IsPinned d = (d.valid ≡ true) × (0 < d.pin_cnt)

-- A frame that the clock may take: unused, or not pinned.
abbrev pub IsFree : BufDesc → Type 0
IsFree d = (d.valid ≡ false) ⊎ (d.pin_cnt ≡ 0)

next_hand :
    (c n : ℕ)
    → c < n
    → n < 2 ^ 32
    → ((((c + 1) % 2 ^ 32) % n) ≡ c + 1) ⊎ ((c + 1 ≡ n) × ((((c + 1) % 2 ^ 32) % n) ≡ 0))
next_hand c n h small =
    let e : (c + 1) % 2 ^ 32 ≡ c + 1 = omega arith in
    rw e (elim (dec_lt (c + 1) n) [
      | yes more ↦ inl (mod-eq_of_lt more)
      | no end ↦ let e' : c + 1 ≡ n = omega arith in inr (e', rw e' (mod_self n))
    ])

module _ {files : Files} where
  -- What a sweep of the clock may change: the hand and reference bits, which it only clears.
  pub record Swept (s t : BufMgr files) : Type 0 where
    pub inv : Inv t
    pub num_bufs : t.num_bufs ≡ s.num_bufs
    pub table : t.hash_table ≡ s.hash_table
    pub pool : t.buf_pool ≡ s.buf_pool
    pub stats : t.buf_stats ≡ s.buf_stats
    pub store : t.store ≡ s.store
    pub uses : (j : ℕ) → SameUse (desc s j) (desc t j)
    pub clears : (j : ℕ) → (desc s j).refbit ≡ false → (desc t j).refbit ≡ false

  pub Swept-trans : {s t u : BufMgr files} → Swept s t → Swept t u → Swept s u
  Swept-trans {s} {t} {u} a b = record {
    inv = b.inv;
    num_bufs = b.num_bufs ∙ a.num_bufs;
    table = b.table ∙ a.table;
    pool = b.pool ∙ a.pool;
    stats = b.stats ∙ a.stats;
    store = b.store ∙ a.store;
    uses = λ j. ground (arith, a.uses j, b.uses j);
    clears = λ j. ground (arith, a.clears j, b.clears j);
  }

  pub advance_clock-Swept : (s : BufMgr files) → Inv s → Swept s (advance_clock s)
  unfolding advance_clock
  advance_clock-Swept s v = record {
    inv = record {
      pos = v.pos;
      small = v.small;
      hand = let h : 0 < s.num_bufs = v.pos in omega arith;
      descs = v.descs;
      pool = v.pool;
      table = v.table;
      mapped = v.mapped;
      owned = v.owned;
      idle = v.idle;
      numbered = v.numbered;
    };
    num_bufs = refl;
    table = refl;
    pool = refl;
    stats = refl;
    store = refl;
    uses = λ j. ground arith;
    clears = λ j h. h;
  }

  -- The hand moves to the next frame, round the end.
  pub advance_clock-hand :
      (s : BufMgr files)
      → Inv s
      → ((advance_clock s).clock_hand ≡ s.clock_hand + 1)
        ⊎ ((s.clock_hand + 1 ≡ s.num_bufs) × ((advance_clock s).clock_hand ≡ 0))
  unfolding advance_clock
  advance_clock-hand s v = next_hand s.clock_hand s.num_bufs v.hand v.small

  -- Passing over the frame under the hand: it was referenced, and is no longer, or it is pinned.
  pub record Passed (s t : BufMgr files) : Type 0 where
    pub swept : Swept s t
    pub hand : t.clock_hand ≡ s.clock_hand
    pub used : (desc s s.clock_hand).valid ≡ true
    pub why :
        (((desc s s.clock_hand).refbit ≡ true) × ((desc t s.clock_hand).refbit ≡ false))
        ⊎ (0 < (desc s s.clock_hand).pin_cnt)

  -- Taking it: it is unused, or it is evicted.
  abbrev pub Taken : BufMgr files → Result ℕ × BufMgr files → Type 0
  Taken s r =
      let i = s.clock_hand in
      (((desc s i).valid ≡ false) × (r ≡ (ok i, s)))
      ⊎ (((desc s i).valid ≡ true)
          × ((desc s i).refbit ≡ false)
          × ((desc s i).pin_cnt ≡ 0)
          × (r ≡ evict i (desc s i) s))

  clear_refbit-Passed :
      (s : BufMgr files)
      → Inv s
      → (desc s s.clock_hand).valid ≡ true
      → (desc s s.clock_hand).refbit ≡ true
      → Passed s (set_desc s.clock_hand (record (desc s s.clock_hand) { refbit = false }) s)
  clear_refbit-Passed s v used set =
      let i = s.clock_hand in
      let d : BufDesc = record (desc s i) { refbit = false } in
      record {
        swept = record {
          inv = touch-Inv i d v v.hand used used refl refl refl;
          num_bufs = refl;
          table = refl;
          pool = refl;
          stats = refl;
          store = refl;
          uses = λ j. rw (desc-set_desc i j d v v.hand) (ground arith);
          clears = λ j. rw (desc-set_desc i j d v v.hand) (ground arith);
        };
        hand = refl;
        used = used;
        why = inl (set, rw (desc-set_desc i i d v v.hand) (ground arith));
      }

  pub Swept-refl : (s : BufMgr files) → Inv s → Swept s s
  Swept-refl s v = record {
    inv = v;
    num_bufs = refl;
    table = refl;
    pool = refl;
    stats = refl;
    store = refl;
    uses = λ j. ground arith;
    clears = λ j h. h;
  }

  pub visit-cases :
      (s : BufMgr files)
      → Inv s
      → ((r : Result ℕ × BufMgr files) × (visit s ≡ stop r) × Taken s r)
        ⊎ ((t : BufMgr files) × (visit s ≡ go t) × Passed s t)
  unfolding visit
  visit-cases s v =
      let d = desc s s.clock_hand in
      elim (Bool-cases d.valid) [
        | inr unused ↦ inl ((ok s.clock_hand, s), rw unused, inl (unused, refl))
        | inl used ↦ elim (Bool-cases d.refbit) [
          | inl set ↦ inr (_, rw (used, set), clear_refbit-Passed s v used set)
          | inr unset ↦ elim (Bool-cases (ltb 0 d.pin_cnt)) [
            | inl pinned ↦ inr (
              s,
              rw (used, unset, pinned),
              record { swept = Swept-refl s v; hand = refl; used = used; why = inr (ground arith) },
            )
            | inr unpinned ↦
                inl (_, rw (used, unset, unpinned), inr (used, unset, ground arith, refl))
          ]
        ]
      ]
