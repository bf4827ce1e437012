-- ===== src/Page/Compaction.antt =====
-- The end of `deleteRecord` in src/page.cpp: the unused slots at the end of the slots are given up.
use cs564_project.Prelude.{
  ℕ, zero, suc, ◌+◌, ◌-◌, ◌≤◌, ◌<◌, ◌≡◌, refl, inl, inr, true, false, arith, Bool-cases, ℕ_discrete,
}
use cs564_project.Page.Bytes.{Bytes}
use cs564_project.Page.Slots.{PageSlot, get_slot}
use cs564_project.Page.State.{Page, slot}
use cs564_project.Page.Delete.{count_unused, compact_slots}
use cs564_project.Page.Totals.{total}
use cs564_project.Page.Layout.{Layout}
use cs564_project.Page.Addition.{Layout-pred}
use cs564_project.Page.Inv.{Inv, Inv-counts, unused, record_at}

count_unused-le : (m : Bytes) (k : ℕ) → count_unused m k ≤ k
unfolding count_unused
count_unused-le m zero = omega arith
count_unused-le m (suc k) = ground (arith, count_unused-le m k)

count_unused-all :
    (m : Bytes) (k i : ℕ) → i ≤ k → k < i + count_unused m k → (get_slot m i).used ≡ false
unfolding count_unused
count_unused-all m zero i h h' = absurd (omega arith)
count_unused-all m (suc k) i h h' = elim (Bool-cases (get_slot m (suc k)).used) [
  | inl u ↦ absurd (ground arith)
  | inr u ↦ elim (ℕ_discrete i (suc k)) [
    | yes e ↦ rw e u
    | no ne ↦ ground (arith, count_unused-all m k i)
  ]
]

count_unused-stop :
    (m : Bytes) (k : ℕ) → count_unused m k < k → (get_slot m (k - count_unused m k)).used ≡ true
unfolding count_unused
count_unused-stop m zero h = absurd (omega arith)
count_unused-stop m (suc k) h = elim (Bool-cases (get_slot m (suc k)).used) [
  | inl u ↦ let z : suc k - 0 ≡ suc k = omega arith in rw (u, z) u
  | inr u ↦
      let e : suc k - suc (count_unused m k) ≡ k - count_unused m k = omega arith in
      let less : count_unused m k < k = ground arith in rw (u, e) (count_unused-stop m k less)
]

drop_unused :
    (sl : ℕ → PageSlot) (n j upper : ℕ)
    → ((k : ℕ) → n < k → k ≤ n + j → (sl k).used ≡ false)
    → Layout sl (n + j) upper
    → (Layout sl n upper) × (total (n + j) (unused sl) ≡ total n (unused sl) + j)
unfolding total
drop_unused sl n zero upper h lay =
    let e : n + 0 ≡ n = omega arith in (rw e at lay, rw e (omega arith))
drop_unused sl n (suc j) upper h lay =
    let e : n + suc j ≡ suc (n + j) = omega arith in
    let free : (sl (suc (n + j))).used ≡ false = h (suc (n + j)) (omega arith) (omega arith) in
    let lay' : Layout sl (suc (n + j)) upper = rw e at lay in
    let (l, t) =
      drop_unused sl n j upper (λ k a b. h k a (omega arith))
        (Layout-pred sl (n + j) free upper lay') in
    (l, rw e (ground arith))

-- What giving up the slots at the end leaves.
module _ (p : Page) (v : Inv p) (some_slot : 0 < p.header.num_slots)
    (last : (slot p p.header.num_slots).used ≡ false) where
  left : ℕ
  left = p.header.num_slots - suc (count_unused p.data_ (p.header.num_slots - 1))

  compact_slots-num : (compact_slots p).header.num_slots ≡ left
  unfolding compact_slots left
  compact_slots-num =
      let c = count_unused-le p.data_ (p.header.num_slots - 1) in
      let b = Inv-counts p v in omega arith

  beyond_left : (k : ℕ) → left < k → k ≤ p.header.num_slots → (slot p k).used ≡ false
  unfolding left
  beyond_left k a b = elim (ℕ_discrete k p.header.num_slots) [
    | yes e ↦ rw e last
    | no ne ↦ count_unused-all p.data_ (p.header.num_slots - 1) k (omega (arith, ne)) (omega arith)
  ]

  pub compact_slots-Inv : Inv (compact_slots p)
  unfolding compact_slots left
  compact_slots-Inv =
      let c = count_unused-le p.data_ (p.header.num_slots - 1) in
      let b = Inv-counts p v in
      let n = compact_slots-num in
      let j = suc (count_unused p.data_ (p.header.num_slots - 1)) in
      let whole : left + j ≡ p.header.num_slots = omega arith in
      let (lay, sum) =
        drop_unused (slot p) left j p.header.free_space_upper_bound
          (λ k a h. beyond_left k a (omega arith)) (rw whole v.layout) in
      let sum' : total p.header.num_slots (unused (slot p)) ≡ total left (unused (slot p)) + j =
        rw whole at sum in
      let f = v.free in
      let lo = v.lower in
      let room = v.room in
      let up = v.upper in
      record {
        lower = rw n (omega arith);
        room = rw n (omega arith);
        upper = v.upper;
        size = v.size;
        free = rw n (omega arith);
        layout = rw n lay;
      }

  pub compact_slots-records : (k : ℕ) → record_at (compact_slots p) k ≡ record_at p k
  unfolding record_at compact_slots
  compact_slots-records k =
      let c = count_unused-le p.data_ (p.header.num_slots - 1) in
      let b = Inv-counts p v in let n = compact_slots-num in ground (arith, beyond_left k)

  -- The last slot that is left is used.
  pub compact_slots-last :
      let n = (compact_slots p).header.num_slots in 0 < n → (slot (compact_slots p) n).used ≡ true
  unfolding compact_slots left
  compact_slots-last h =
      let c = count_unused-le p.data_ (p.header.num_slots - 1) in
      let b = Inv-counts p v in
      let n = compact_slots-num in
      let e : left ≡ p.header.num_slots - 1 - count_unused p.data_ (p.header.num_slots - 1) =
        omega arith in
      rw (n, e) (count_unused-stop p.data_ (p.header.num_slots - 1) (omega arith))

pub compact_slots-numbers :
    (p : Page)
    → ((compact_slots p).header.current_page_number ≡ p.header.current_page_number)
      × ((compact_slots p).header.next_page_number ≡ p.header.next_page_number)
unfolding compact_slots
compact_slots-numbers p = (refl, refl)
