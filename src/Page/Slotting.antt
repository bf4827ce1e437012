-- ===== src/Page/Slotting.antt =====
-- `getAvailableSlot` and `insertRecordInSlot` of src/page.cpp on a well-formed page.
use cs564_project.Prelude.{
  ℕ, zero, suc, ◌+◌, ◌*◌, ◌≤◌, ◌<◌, ◌≡◌, ◌⊎◌, refl, inl, inr, true, false, ◌==◌, ltb, arith,
  if◌then◌else◌, Bool-cases, ℕ_discrete, some, List, length,
}
use cs564_project.Exceptions.{ok}
use cs564_project.Page.Bytes.{Bytes}
use cs564_project.Page.Slots.{get_slot}
use cs564_project.Page.State.{Page, slot, u16, find_unused, get_available_slot, allocate_slot}
use cs564_project.Page.Totals.{total, total-zero}
use cs564_project.Page.Addition.{Layout-suc}
use cs564_project.Page.Inv.{Inv, Inv-counts, unused, record_at}

-- The first unused slot from `i` on, or that there is none.
pub find_unused-lem :
    (m : Bytes) (i n : ℕ)
    → 1 ≤ i
    → ((find_unused m i n ≡ 0) × ((k : ℕ) → i ≤ k → k < i + n → (get_slot m k).used ≡ true))
      ⊎ ((i ≤ find_unused m i n)
          × (find_unused m i n < i + n)
          × ((get_slot m (find_unused m i n)).used ≡ false)
          × ((k : ℕ) → i ≤ k → k < find_unused m i n → (get_slot m k).used ≡ true))
unfolding find_unused
find_unused-lem m i zero h = inl (refl, λ k a b. absurd (omega arith))
find_unused-lem m i (suc n) h = elim (Bool-cases (get_slot m i).used) [
  | inr u ↦ rw u (inr (omega arith, omega arith, u, λ k a b. absurd (omega arith)))
  | inl u ↦ rw u (elim (find_unused-lem m (i + 1) n (omega arith)) [
    | inl (e, all) ↦ inl (
      e,
      λ k a b. elim (ℕ_discrete k i) [
        | yes c ↦ rw c u
        | no c ↦ all k (omega (arith, c)) (omega arith)
      ],
    )
    | inr (a, b, f, all) ↦ inr (
      omega arith,
      omega arith,
      f,
      λ k a' b'. elim (ℕ_discrete k i) [ yes c ↦ rw c u | no c ↦ all k (omega (arith, c)) b' ],
    )
  ])
]

-- The slot that an insertion takes: the first unused one, else a new one at the end.
unfoldable pub next_slot : Page → ℕ
next_slot p =
    if ltb 0 p.header.num_free_slots
    then find_unused p.data_ 1 p.header.num_slots
    else p.header.num_slots + 1

-- With a free slot counted, there is an unused one.
pub next_slot-free :
    (p : Page)
    → Inv p
    → 0 < p.header.num_free_slots
    → (1 ≤ next_slot p)
      × (next_slot p ≤ p.header.num_slots)
      × ((slot p (next_slot p)).used ≡ false)
      × ((k : ℕ) → 1 ≤ k → k < next_slot p → (slot p k).used ≡ true)
unfolding next_slot
next_slot-free p v h =
    let some_free : ltb 0 p.header.num_free_slots ≡ true = ground arith in
    rw some_free (elim (find_unused-lem p.data_ 1 p.header.num_slots (omega arith)) [
      | inl (e, all) ↦
          let none_free =
            total-zero p.header.num_slots (unused (slot p))
              λ k a b. rw (all k a (omega arith)) refl in
          absurd (omega (arith, v.free))
      | inr (a, b, f, all) ↦ (a, omega arith, f, all)
    ])

-- The page that `getAvailableSlot` leaves.
abbrev pub with_slot : Page → Page
with_slot p = if ltb 0 p.header.num_free_slots then p else allocate_slot p

pub get_available_slot-run :
    (p : Page) → Inv p → get_available_slot p ≡ (ok (next_slot p), with_slot p)
unfolding get_available_slot next_slot
get_available_slot-run p v =
    let c = Inv-counts p v in
    elim (Bool-cases (ltb 0 p.header.num_free_slots)) [
      | inl b ↦ let f = next_slot-free p v (ground arith) in ground arith
      | inr b ↦
          let e : u16 (p.header.num_slots + 1) ≡ p.header.num_slots + 1 = omega arith in
          rw (b, e) (ground arith)
    ]

-- The page with its new slot, where that slot's bytes read as unused.
pub allocate_slot-Inv :
    (p : Page)
    → Inv p
    → 6 * (p.header.num_slots + 1) ≤ p.header.free_space_upper_bound
    → (slot p (suc p.header.num_slots)).used ≡ false
    → Inv (allocate_slot p)
unfolding total
allocate_slot-Inv p v room free =
    let c = Inv-counts p v in
    let e : u16 (p.header.num_slots + 1) ≡ suc p.header.num_slots = omega arith in
    let f = v.free in
    record {
      lower = omega arith;
      room = omega arith;
      upper = v.upper;
      size = v.size;
      free = rw e (ground arith);
      layout =
          rw e
            (Layout-suc (slot p) p.header.num_slots free p.header.free_space_upper_bound v.layout);
    }

pub allocate_slot-records :
    (p : Page)
    → Inv p
    → (slot p (suc p.header.num_slots)).used ≡ false
    → (k : ℕ) → record_at (allocate_slot p) k ≡ record_at p k
unfolding record_at
allocate_slot-records p v free k =
    let c = Inv-counts p v in
    let e : u16 (p.header.num_slots + 1) ≡ suc p.header.num_slots = omega arith in
    elim (ℕ_discrete k (suc p.header.num_slots)) [
      | yes x ↦ rw (e, x) (ground arith)
      | no x ↦ rw e (ground arith)
    ]

-- A page with one more record.
pub record Inserted (p q : Page) (d : ℕ) (r : List ℕ) : Type 0 where
  pub inv : Inv q
  pub num_slots : q.header.num_slots ≡ p.header.num_slots
  pub upper : q.header.free_space_upper_bound + length r ≡ p.header.free_space_upper_bound
  pub page_number : q.header.current_page_number ≡ p.header.current_page_number
  pub next_page_number : q.header.next_page_number ≡ p.header.next_page_number
  pub used :
      (k : ℕ)
      → 1 ≤ k
      → k ≤ p.header.num_slots
      → (slot q k).used ≡ (if d == k then true else (slot p k).used)
  pub records : (k : ℕ) → record_at q k ≡ (if d == k then some r else record_at p k)
