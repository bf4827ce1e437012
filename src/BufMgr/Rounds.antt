-- ===== src/BufMgr/Rounds.antt =====
-- One round of the loop of allocBuf in src/buffer.cpp: how it brings a free frame nearer.
use cs564_project.Prelude.{
  ℕ, suc, ◌+◌, ◌-◌, ◌≤◌, ◌<◌, ◌≡◌, ◌⊎◌, inl, inr, true, false, ◌==◌, if◌then◌else◌, arith,
  Bool-cases, ℕ_discrete,
}
use cs564_project.Exceptions.{Result}
use cs564_project.Files.{Files}
use cs564_project.BufMgr.State.{BufDesc, BufMgr, desc}
use cs564_project.BufMgr.Clock.{stop, go, advance_clock, visit}
use cs564_project.BufMgr.Inv.{Inv}
use cs564_project.BufMgr.Sweep.{
  IsPinned, IsFree, Swept, Swept-trans, advance_clock-Swept, advance_clock-hand, Passed, Taken,
  visit-cases,
}

-- Where the loop stands: the hand is `off` frames past the flag, `pass` rounds are done, and `left`
-- steps remain of the two rounds.
pub record Position (n flag hand pass left : ℕ) : Type 0 where
  pub off : ℕ
  pub off_lt : off < n
  pub flag_lt : flag < n
  pub hand_lt : hand < n
  pub at : (hand ≡ flag + off) ⊎ (hand + n ≡ flag + off)
  pub rounds :
      ((pass ≡ 0) × (left + off ≡ n + n))
      ⊎ ((pass ≡ 1) × (left + off ≡ n))
      ⊎ ((pass ≡ 2) × (left ≡ 0))

-- The hand moved on by one.
abbrev pub Next : ℕ → ℕ → ℕ → Type 0
Next n hand hand' = (hand' ≡ hand + 1) × (hand + 1 < n) ⊎ (hand + 1 ≡ n) × (hand' ≡ 0)

pub Position-Next :
    (n flag hand hand' pass left : ℕ)
    → Position n flag hand pass (suc left)
    → Next n hand hand'
    → Position n flag hand' (if hand' == flag then pass + 1 else pass) left
Position-Next n flag hand hand' pass left p next = record {
  off = if hand' == flag then 0 else p.off + 1;
  off_lt = ground arith;
  flag_lt = p.flag_lt;
  hand_lt = ground arith;
  at = ground arith;
  rounds = ground arith;
}

-- The free frame after a step that passed over the frame under the hand: it is one nearer, or the
-- hand is on it, and then it has lost its reference bit and lies a round ahead.
pub nearer : ℕ → ℕ → ℕ
nearer n a = if a == 1 then n else a - 1

pub IsFree-or_IsPinned : (d : BufDesc) → IsFree d ⊎ IsPinned d
IsFree-or_IsPinned d = elim (Bool-cases d.valid) [
  | inr unused ↦ inl (inl unused)
  | inl used ↦ elim (ℕ_discrete d.pin_cnt 0) [
    | yes unpinned ↦ inl (inr unpinned)
    | no pinned ↦ inr (used, omega arith)
  ]
]

module _ {files : Files} where
  -- A frame that is free, `a` frames ahead of the hand.
  pub record Ahead (s : BufMgr files) (j a : ℕ) : Type 0 where
    pub pos : 0 < a
    pub within : a ≤ s.num_bufs
    pub bound : j < s.num_bufs
    pub at : (j ≡ s.clock_hand + a) ⊎ (j + s.num_bufs ≡ s.clock_hand + a)
    pub free : IsFree (desc s j)

  -- The loop took a frame after a sweep.
  pub record Picked (s : BufMgr files) (r : Result ℕ × BufMgr files) : Type 0 where
    pub mid : BufMgr files
    pub swept : Swept s mid
    pub taken : Taken mid r

  -- One round that goes on: the hand is at the next frame, which is in use and was referenced or
  -- pinned.
  pub record Moved (s t : BufMgr files) : Type 0 where
    pub swept : Swept s t
    pub next : Next s.num_bufs s.clock_hand t.clock_hand
    pub landed : t.clock_hand ≡ (advance_clock s).clock_hand
    pub used : (desc s t.clock_hand).valid ≡ true
    why :
        (((desc s t.clock_hand).refbit ≡ true) × ((desc t t.clock_hand).refbit ≡ false))
        ⊎ (0 < (desc s t.clock_hand).pin_cnt)

  Passed-Moved : (s t : BufMgr files) → Inv s → Passed (advance_clock s) t → Moved s t
  unfolding advance_clock
  Passed-Moved s t v p =
      let m = advance_clock s in
      let a = advance_clock-Swept s v in
      record {
        swept = Swept-trans a p.swept;
        next = ground (arith, advance_clock-hand s v, p.hand, a.inv.hand);
        landed = p.hand;
        used = rw p.hand p.used;
        why = rw p.hand p.why;
      }

  pub step-cases :
      (s : BufMgr files)
      → Inv s
      → ((r : Result ℕ × BufMgr files) × (visit (advance_clock s) ≡ stop r) × Picked s r)
        ⊎ ((t : BufMgr files) × (visit (advance_clock s) ≡ go t) × Moved s t)
  step-cases s v =
      let a = advance_clock-Swept s v in
      elim (visit-cases (advance_clock s) a.inv) [
        | inl (r, e, taken) ↦ inl (r, e, record { mid = advance_clock s; swept = a; taken = taken })
        | inr (t, e, passed) ↦ inr (t, e, Passed-Moved s t v passed)
      ]

  pub Picked-Swept :
      {s t : BufMgr files} {r : Result ℕ × BufMgr files} → Swept s t → Picked t r → Picked s r
  Picked-Swept a p = record { mid = p.mid; swept = Swept-trans a p.swept; taken = p.taken }

  pub Ahead-Moved :
      (s t : BufMgr files) (j a : ℕ)
      → Moved s t
      → Inv s
      → Ahead s j a
      → Ahead t j (nearer s.num_bufs a)
  unfolding nearer
  Ahead-Moved s t j a m v h =
      let n = m.swept.num_bufs in
      record {
        pos = ground (arith, v.pos, h.pos);
        within = ground (arith, h.within, h.pos);
        bound = ground (arith, h.bound);
        at = ground (arith, h.at, h.pos, h.bound, m.next, v.hand, m.swept.inv.hand);
        free = ground (arith, h.free, m.swept.uses j);
      }

  -- How many steps suffice: the distance, with a round on top while the frame is referenced.
  abbrev pub Enough : BufMgr files → ℕ → ℕ → ℕ → Type 0
  Enough s j a left = ((desc s j).refbit ≡ false) × (a ≤ left) ⊎ (a + s.num_bufs ≤ left)

  pub Enough-Moved :
      (s t : BufMgr files) (j a left : ℕ)
      → Moved s t
      → Inv s
      → Ahead s j a
      → Enough s j a (suc left)
      → Enough t j (nearer s.num_bufs a) left
  unfolding nearer
  Enough-Moved s t j a left m v h e = elim (ℕ_discrete a 1) [
    | no far ↦ ground (arith, h.pos, m.swept.clears j, m.swept.num_bufs)
    | yes near ↦
        let here : j ≡ t.clock_hand = ground (arith, h.at, h.bound, m.next, v.hand, near) in
        let met : ((desc s j).refbit ≡ true) × ((desc t j).refbit ≡ false)
            ⊎ (0 < (desc s j).pin_cnt) =
          rw here m.why in
        let used : (desc s j).valid ≡ true = rw here m.used in
        ground (arith, h.free, near, m.swept.num_bufs)
  ]
