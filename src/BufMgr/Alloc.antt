-- ===== src/BufMgr/Alloc.antt =====
-- The loop of allocBuf in src/buffer.cpp: two rounds of the clock find a frame unless all are
-- pinned.
use cs564_project.Prelude.{
  ℕ, zero, suc, ◌+◌, ◌-◌, ◌≤◌, ◌<◌, ◌≡◌, refl, ◌⊎◌, inl, inr, ◌∙◌, some, true, false, ◌==◌, ltb,
  leb, if◌then◌else◌, arith, Bool-cases, ℕ_discrete,
}
use cs564_project.Exceptions.{Result, err, buffer_exceeded}
use cs564_project.Files.{Files}
use cs564_project.BufMgr.State.{BufMgr, desc}
use cs564_project.BufMgr.Clock.{
  Sweep, stop, go, advance_clock, visit, alloc_loop, alloc_fuel, alloc_buf,
}
use cs564_project.BufMgr.Inv.{Inv}
use cs564_project.BufMgr.Sweep.{IsPinned, IsFree, Swept, Swept-trans, Swept-refl}
use cs564_project.BufMgr.Rounds.{
  Position, Position-Next, nearer, IsFree-or_IsPinned, Ahead, Picked, Moved, step-cases,
  Picked-Swept, Ahead-Moved, Enough, Enough-Moved,
}

module _ {files : Files} where
  loop_stop :
      (fuel flag pass : ℕ) (s : BufMgr files) (r : Result ℕ × BufMgr files)
      → ltb pass 2 ≡ true
      → visit (advance_clock s) ≡ stop r
      → alloc_loop (suc fuel) flag pass s ≡ some r
  unfolding alloc_loop
  loop_stop fuel flag pass s r more stops = ground arith

  loop_go :
      (fuel flag pass : ℕ) (s t : BufMgr files)
      → ltb pass 2 ≡ true
      → visit (advance_clock s) ≡ go t
      → Moved s t
      → alloc_loop (suc fuel) flag pass s
        ≡ alloc_loop fuel flag (if t.clock_hand == flag then pass + 1 else pass) t
  unfolding alloc_loop
  loop_go fuel flag pass s t more goes m = rw m.landed (ground arith)

  reach :
      (fuel flag pass left : ℕ) (s : BufMgr files) (j a : ℕ)
      → Inv s
      → Position s.num_bufs flag s.clock_hand pass left
      → left < fuel
      → Ahead s j a
      → Enough s j a left
      → (r : Result ℕ × BufMgr files) × (alloc_loop fuel flag pass s ≡ some r) × Picked s r
  reach zero flag pass left s j a v p f h e = absurd (omega arith)
  reach (suc fuel) flag pass zero s j a v p f h e = absurd (ground (arith, h.pos))
  reach (suc fuel) flag pass (suc left) s j a v p f h e =
      let more : ltb pass 2 ≡ true = ground (arith, p.rounds) in
      elim (step-cases s v) [
        | inl (r, stops, picked) ↦ (r, loop_stop fuel flag pass s r more stops, picked)
        | inr (t, goes, m) ↦
            let q = Position-Next s.num_bufs flag s.clock_hand t.clock_hand pass left p m.next in
            let (r, run, picked) =
              reach fuel flag _ left t j (nearer s.num_bufs a) m.swept.inv (rw m.swept.num_bufs q)
                (omega arith) (Ahead-Moved s t j a m v h) (Enough-Moved s t j a left m v h e) in
            (r, loop_go fuel flag pass s t more goes m ∙ run, Picked-Swept m.swept picked)
      ]

  abbrev pub AllPinned : BufMgr files → Type 0
  AllPinned s = (j : ℕ) → j < s.num_bufs → IsPinned (desc s j)

  not-Picked-AllPinned :
      (s : BufMgr files) (r : Result ℕ × BufMgr files) → Picked s r → ¬ AllPinned s
  not-Picked-AllPinned s r p all =
      let i = p.mid.clock_hand in
      ground (arith, p.taken, p.swept.uses i, all i, p.swept.inv.hand, p.swept.num_bufs)

  loop_done :
      (fuel flag pass : ℕ) (s : BufMgr files)
      → Position s.num_bufs flag s.clock_hand pass 0
      → alloc_loop (suc fuel) flag pass s ≡ some (err buffer_exceeded, s)
  unfolding alloc_loop
  loop_done fuel flag pass s p =
      let over : ltb pass 2 ≡ false = ground (arith, p.rounds, p.off_lt) in rw (over, alloc_loop)

  -- With every frame pinned the loop makes its two rounds and throws.
  exhaust :
      (fuel flag pass left : ℕ) (s : BufMgr files)
      → Inv s
      → Position s.num_bufs flag s.clock_hand pass left
      → left < fuel
      → AllPinned s
      → (t : BufMgr files) × (alloc_loop fuel flag pass s ≡ some (err buffer_exceeded, t))
        × Swept s t
  exhaust zero flag pass left s v p f all = absurd (omega arith)
  exhaust (suc fuel) flag pass zero s v p f all = (s, loop_done fuel flag pass s p, Swept-refl s v)
  exhaust (suc fuel) flag pass (suc left) s v p f all =
      let more : ltb pass 2 ≡ true = ground (arith, p.rounds) in
      elim (step-cases s v) [
        | inl (r, stops, picked) ↦ absurd (not-Picked-AllPinned s r picked all)
        | inr (t, goes, m) ↦
            let q = Position-Next s.num_bufs flag s.clock_hand t.clock_hand pass left p m.next in
            let (u, run, swept) =
              exhaust fuel flag _ left t m.swept.inv (rw m.swept.num_bufs q) (omega arith)
                (λ j h. ground (arith, all j, m.swept.uses j, m.swept.num_bufs)) in
            (u, loop_go fuel flag pass s t more goes m ∙ run, Swept-trans m.swept swept)
      ]

  IsFree-cases :
      (s : BufMgr files) (k : ℕ)
      → ((j : ℕ) × (j < k) × IsFree (desc s j)) ⊎ ((j : ℕ) → j < k → IsPinned (desc s j))
  IsFree-cases s zero = inr (λ j h. absurd (omega arith))
  IsFree-cases s (suc k) = elim (IsFree-cases s k) [
    | inl (j, h, free) ↦ inl (j, omega arith, free)
    | inr below ↦ elim (IsFree-or_IsPinned (desc s k)) [
      | inl free ↦ inl (k, omega arith, free)
      | inr pinned ↦
          inr (λ j h. elim (ℕ_discrete j k) [
            | yes e ↦ rw e pinned
            | no other ↦ below j (omega arith)
          ])
    ]
  ]

  -- On enough fuel for two rounds the loop ends: on a free frame, or with every frame pinned.
  loop-cases :
      (s : BufMgr files) (fuel : ℕ)
      → Inv s
      → s.num_bufs + s.num_bufs < fuel
      → ((r : Result ℕ × BufMgr files) × (alloc_loop fuel s.clock_hand 0 s ≡ some r)
          × Picked s r
          × ((j : ℕ) × (j < s.num_bufs) × IsFree (desc s j)))
        ⊎ ((t : BufMgr files) × (alloc_loop fuel s.clock_hand 0 s ≡ some (err buffer_exceeded, t))
            × Swept s t
            × AllPinned s)
  loop-cases s fuel v enough =
      let n = s.num_bufs in
      let start : Position n s.clock_hand s.clock_hand 0 (n + n) = record {
        off = 0;
        off_lt = v.pos;
        flag_lt = v.hand;
        hand_lt = v.hand;
        at = inl (omega arith);
        rounds = inl (refl, omega arith);
      } in
      elim (IsFree-cases s n) [
        | inl (j, h, free) ↦
            let (r, run, picked) =
              reach fuel s.clock_hand 0 (n + n) s j
                (if leb j s.clock_hand then j + n - s.clock_hand else j - s.clock_hand) v start
                enough
                (record {
                  pos = ground (arith, v.hand);
                  within = ground (arith, v.hand);
                  bound = h;
                  at = ground (arith, v.hand);
                  free = free;
                })
                (inr (ground (arith, v.hand))) in
            inl (r, run, picked, (j, h, free))
        | inr all ↦
            let (t, run, swept) = exhaust fuel s.clock_hand 0 (n + n) s v start enough all in
            inr (t, run, swept, all)
      ]

  Sweep-cases :
      (w : Sweep files)
      → ((r : Result ℕ × BufMgr files) × (w ≡ stop r)) ⊎ ((t : BufMgr files) × (w ≡ go t))
  Sweep-cases (stop r) = inl (r, refl)
  Sweep-cases (go t) = inr (t, refl)

  -- More fuel does not change the result.
  more_fuel :
      (fuel more flag pass : ℕ) (s : BufMgr files) (r : Result ℕ × BufMgr files)
      → fuel ≤ more
      → alloc_loop fuel flag pass s ≡ some r
      → alloc_loop more flag pass s ≡ some r
  unfolding alloc_loop
  more_fuel zero more flag pass s r h run = absurd (ground arith)
  more_fuel (suc fuel) zero flag pass s r h run = absurd (omega arith)
  more_fuel (suc fuel) (suc more) flag pass s r h run = elim (Bool-cases (ltb pass 2)) [
    | inr over ↦ ground arith
    | inl goes ↦ elim (Sweep-cases (visit (advance_clock s))) [
      | inl (q, e) ↦ ground arith
      | inr (t, e) ↦
          let next = if (advance_clock s).clock_hand == flag then pass + 1 else pass in
          ground (arith, more_fuel fuel more flag next t r)
    ]
  ]

  -- In a state of the invariant the loop of `allocBuf` ends on any fuel above twice the number of
  -- frames, and its result is that of `alloc_buf`.
  pub alloc_loop_ends :
      (s : BufMgr files) (fuel : ℕ)
      → Inv s
      → s.num_bufs + s.num_bufs < fuel
      → alloc_loop fuel s.clock_hand 0 s ≡ some (alloc_buf s)
  unfolding alloc_buf
  alloc_loop_ends s fuel v enough = elim (loop-cases s (alloc_fuel s) v (omega arith)) [
    | inl (r, run, _, _) ↦
        rw (alloc_buf, run) (more_fuel (alloc_fuel s) fuel s.clock_hand 0 s r (omega arith) run)
    | inr (t, run, _, _) ↦
        rw (alloc_buf, run)
          (more_fuel (alloc_fuel s) fuel s.clock_hand 0 s (err buffer_exceeded, t) (omega arith)
            run)
  ]

  -- In a state of the invariant, `allocBuf` comes to one of two things. Some frame is not in use or
  -- has pin count 0, and `allocBuf` takes one such frame after a sweep of the clock, which changes
  -- reference bits and the hand only. Or every frame is in use and pinned, and `allocBuf` throws
  -- BufferExceededException after such a sweep.
  pub alloc_buf-cases :
      (s : BufMgr files)
      → Inv s
      → (Picked s (alloc_buf s) × ((j : ℕ) × (j < s.num_bufs) × IsFree (desc s j)))
        ⊎ ((t : BufMgr files) × (alloc_buf s ≡ (err buffer_exceeded, t)) × Swept s t × AllPinned s)
  unfolding alloc_buf
  alloc_buf-cases s v = elim (loop-cases s (alloc_fuel s) v (omega arith)) [
    | inl (r, run, picked, free) ↦ inl (rw run picked, free)
    | inr (t, run, swept, all) ↦ inr (t, rw run, swept, all)
  ]

  pub alloc_buf_exceeded :
      (s : BufMgr files)
      → Inv s
      → AllPinned s
      → (t : BufMgr files) × (alloc_buf s ≡ (err buffer_exceeded, t)) × Swept s t
  alloc_buf_exceeded s v all = elim (alloc_buf-cases s v) [
    | inl (picked, _) ↦ absurd (not-Picked-AllPinned s (alloc_buf s) picked all)
    | inr (t, run, w, _) ↦ (t, run, w)
  ]
