-- ===== src/Page/Moving.antt =====
-- The loop of `deleteRecord` in src/page.cpp that gives the records below the deleted one their new
-- offsets and finds the bytes to move.
use cs564_project.Prelude.{
  ℕ, zero, suc, ◌+◌, ◌*◌, ◌^◌, ◌≤◌, ◌<◌, ◌≡◌, refl, inl, inr, Bool, true, false, ◌&&◌, ltb, leb,
  arith, if◌then◌else◌, Bool-cases, ℕ_discrete,
}
use mathlib.Core.Path.{subst}
use cs564_project.Page.Bytes.{Bytes}
use cs564_project.Page.Slots.{
  PageSlot, get_slot, set_item_offset, get_slot-set_item_offset, byte-set_item_offset,
  size-set_item_offset,
}
use cs564_project.Page.State.{u16}
use cs564_project.Page.Delete.{Move, move_step, move_loop}
use cs564_project.Page.Totals.{total, total-zero}
use cs564_project.Page.Layout.{length_below, below, Layout}

-- A record that starts below that of slot `d`.
abbrev pub is_below : (ℕ → PageSlot) → ℕ → ℕ → Bool
is_below sl d k = (sl k).used && ltb (sl k).item_offset (sl d).item_offset

-- The state after the rounds at the slots 1 to `j`, by the slots `sl` at the start.
pub record Moving (sl : ℕ → PageSlot) (m : Bytes) (n d j : ℕ) (s : Move) : Type 0 where
  pub size : s.bytes.size ≡ m.size
  pub records : (i : ℕ) → 6 * n ≤ i → s.bytes.byte i ≡ m.byte i
  pub slots :
      (k : ℕ)
      → 1 ≤ k
      → k ≤ n
      → get_slot s.bytes k ≡ (
          if leb k j && is_below sl d k
          then record {
            used = (sl k).used;
            item_offset = u16 ((sl k).item_offset + (sl d).item_length);
            item_length = (sl k).item_length;
          }
          else sl k)
  pub sum : s.move_bytes ≡ below sl j (sl d).item_offset
  pub low : s.move_offset ≤ (sl d).item_offset
  pub least : (k : ℕ) → 1 ≤ k → k ≤ j → is_below sl d k ≡ true → s.move_offset ≤ (sl k).item_offset
  pub attained :
      (k : ℕ) × (1 ≤ k) × (k ≤ n) × ((sl k).used ≡ true) × (s.move_offset ≡ (sl k).item_offset)

module _ (sl : ℕ → PageSlot) (m : Bytes) (n d : ℕ) (few : n < 2 ^ 16) (d_low : 1 ≤ d)
    (d_high : d ≤ n) where
  module _ (j : ℕ) (s : Move) (r : suc j ≤ n) (v : Moving sl m n d j s) where
    -- The round by the slots at the start.
    step_by : Move
    step_by =
        if is_below sl d (suc j)
        then record {
          bytes =
              set_item_offset s.bytes (suc j) (u16 ((sl (suc j)).item_offset + (sl d).item_length));
          move_offset =
              if ltb (sl (suc j)).item_offset s.move_offset
              then (sl (suc j)).item_offset
              else s.move_offset;
          move_bytes = s.move_bytes + (sl (suc j)).item_length;
        }
        else s

    move_step-eq : move_step d (suc j) s ≡ step_by
    unfolding move_step step_by
    move_step-eq =
        let here : get_slot s.bytes (suc j) ≡ sl (suc j) =
          ground (arith, v.slots (suc j) (omega arith) r) in
        let there : get_slot s.bytes d ≡ sl d = ground (arith, v.slots d d_low d_high) in
        rw (here, there) refl

    step-slots :
        (k : ℕ)
        → 1 ≤ k
        → k ≤ n
        → get_slot step_by.bytes k ≡ (
            if leb k (suc j) && is_below sl d k
            then record {
              used = (sl k).used;
              item_offset = u16 ((sl k).item_offset + (sl d).item_length);
              item_length = (sl k).item_length;
            }
            else sl k)
    unfolding step_by
    step-slots k lk hk =
        let there = v.slots k lk hk in
        let set =
          get_slot-set_item_offset s.bytes (suc j) k
            (u16 ((sl (suc j)).item_offset + (sl d).item_length)) (omega arith) (omega arith) lk
            (omega arith) in
        elim (Bool-cases (is_below sl d (suc j))) [
          | inl b ↦ elim (ℕ_discrete (suc j) k) [
            | yes e ↦ let b' : is_below sl d k ≡ true = rw e at b in ground arith
            | no ne ↦ ground arith
          ]
          | inr b ↦ elim (ℕ_discrete (suc j) k) [
            | yes e ↦ let b' : is_below sl d k ≡ false = rw e at b in ground arith
            | no ne ↦ ground arith
          ]
        ]

    step-Moving : Moving sl m n d (suc j) step_by
    unfolding step_by total
    step-Moving = elim (Bool-cases (is_below sl d (suc j))) [
      | inl b ↦ record {
        size = rw (b, size-set_item_offset) v.size;
        records = λ i h. rw b (
            ground (
              arith,
              v.records i h,
              byte-set_item_offset s.bytes (suc j) i
                  (u16 ((sl (suc j)).item_offset + (sl d).item_length)),
            ));
        slots = step-slots;
        sum = ground (arith, v.sum);
        low = ground (arith, v.low);
        least = λ k l h c. elim (ℕ_discrete k (suc j)) [
          | yes e ↦ rw e (ground arith)
          | no ne ↦ ground (arith, v.least k l (omega (arith, ne)) c)
        ];
        attained = elim (Bool-cases (ltb (sl (suc j)).item_offset s.move_offset)) [
          | inl c ↦ (suc j, omega arith, r, ground arith, ground arith)
          | inr c ↦ let (k, l, h, u, e) = v.attained in (k, l, h, u, ground arith)
        ];
      }
      | inr b ↦ record {
        size = rw b v.size;
        records = rw b v.records;
        slots = step-slots;
        sum = ground (arith, v.sum);
        low = rw b v.low;
        least = λ k l h c. elim (ℕ_discrete k (suc j)) [
          | yes e ↦ absurd (let c' : is_below sl d (suc j) ≡ true = rw e at c in ground arith)
          | no ne ↦ ground (arith, v.least k l (omega (arith, ne)) c)
        ];
        attained = rw b v.attained;
      }
    ]

  pub move_loop-Moving :
      (rounds j : ℕ) (s : Move)
      → j + rounds ≡ n
      → Moving sl m n d j s
      → Moving sl m n d n (move_loop d (suc j) rounds s)
  unfolding move_loop
  move_loop-Moving zero j s e v = subst (λ i. Moving sl m n d i s) (omega arith) v
  move_loop-Moving (suc rounds) j s e v =
      let r : suc j ≤ n = omega arith in
      let next : Moving sl m n d (suc j) (move_step d (suc j) s) =
        rw (move_step-eq j s r v) (step-Moving j s r v) in
      let i : suc j + 1 ≡ suc (suc j) = omega arith in
      rw i (move_loop-Moving rounds (suc j) (move_step d (suc j) s) (omega arith) next)

  -- The whole loop, from the locals with which it starts.
  pub move_loop-all :
      (s : Move)
      → s.bytes ≡ m
      → s.move_offset ≡ (sl d).item_offset
      → s.move_bytes ≡ 0
      → (sl d).used ≡ true
      → ((k : ℕ) → 1 ≤ k → k ≤ n → get_slot m k ≡ sl k)
      → Moving sl m n d n (move_loop d 1 n s)
  unfolding total
  move_loop-all s e o b u at =
      let start : Moving sl m n d 0 s = record {
        size = rw e refl;
        records = λ i h. rw e refl;
        slots = λ k l h. rw (e, at k l h) (ground arith);
        sum = b;
        low = omega arith;
        least = λ k l h c. absurd (omega arith);
        attained = (d, d_low, d_high, u, o);
      } in
      move_loop-Moving n 0 s (omega arith) start

  -- The bytes to move are all those below the record.
  pub Moving-range :
      (upper : ℕ) (s : Move)
      → Layout sl n upper
      → (sl d).used ≡ true
      → Moving sl m n d n s
      → (s.move_offset ≡ upper) × (upper + s.move_bytes ≡ (sl d).item_offset)
  Moving-range upper s lay u v =
      let (k, l, h, uk, e) = v.attained in
      let t = lay.tiled k (l, h, uk) in
      let t' = lay.tiled d (d_low, d_high, u) in
      let none_below : below sl n (sl k).item_offset ≡ 0 =
        total-zero n (length_below sl (sl k).item_offset)
          λ i p q. let c = v.least i p q in let b = v.low in ground (arith, c) in
      (omega arith, omega (arith, v.sum))
