-- ===== src/Page/Walk.antt =====
-- The iteration over a page, src/page_iterator.h.
use cs564_project.Prelude.{
  ℕ, zero, suc, ◌+◌, ◌-◌, ◌^◌, ◌≤◌, ◌<◌, ◌≡◌, refl, inl, inr, false, ◌==◌, arith, Bool-cases, some,
  none, List, [], ◌∷◌,
}
use cs564_project.Page.Slots.{get_slot}
use cs564_project.Page.State.{Page, RecordId, u16, page_number}
use cs564_project.Page.Inv.{Inv, Inv-counts, record_at, record_at-InUse, record_at-unused}
use cs564_project.Page.Iterator.{
  find_used, get_next_used_slot, id_eq, begin, end, next, visit_records,
}

abbrev pub id_at : Page → ℕ → RecordId
id_at p k = record { page_number = page_number p; slot_number = k }

-- The ids of the records in the `n` slots from `i` on, in order.
unfoldable pub record_ids : Page → ℕ → ℕ → List RecordId
record_ids p i zero = []
record_ids p i (suc n) = elim (record_at p i) [
  | some _ ↦ id_at p i ∷ record_ids p (i + 1) n
  | none ↦ record_ids p (i + 1) n
]

id_eq-end : (p : Page) (k : ℕ) → id_eq (id_at p k) (end p) ≡ (k == 0)
unfolding id_eq end
id_eq-end p k = ground arith

next-find :
    (p : Page) (i n : ℕ)
    → i + suc n ≡ p.header.num_slots + 1
    → p.header.num_slots < 2 ^ 16 - 1
    → next p (id_at p i) ≡ id_at p (find_used p.data_ (i + 1) n)
unfolding next get_next_used_slot
next-find p i n e few =
    let a : u16 (i + 1) ≡ i + 1 = omega arith in
    let b : p.header.num_slots + 1 - (i + 1) ≡ n = omega arith in rw (a, b) refl

visit_records-end : (p : Page) (fuel : ℕ) → visit_records p fuel (id_at p 0) ≡ []
unfolding visit_records
visit_records-end p zero = refl
visit_records-end p (suc fuel) = rw (id_eq-end p 0) refl

visit_records-at :
    (p : Page) (fuel i : ℕ)
    → 1 ≤ i
    → visit_records p (suc fuel) (id_at p i) ≡ id_at p i ∷ visit_records p fuel (next p (id_at p i))
unfolding visit_records
visit_records-at p fuel i h = let e : (i == 0) ≡ false = ground arith in rw (id_eq-end p i, e) refl

visit_records-find :
    (p : Page) (fuel i n : ℕ)
    → 1 ≤ i
    → i + n ≡ p.header.num_slots + 1
    → p.header.num_slots < 2 ^ 16 - 1
    → n < fuel
    → visit_records p fuel (id_at p (find_used p.data_ i n)) ≡ record_ids p i n
unfolding find_used record_ids
visit_records-find p fuel i zero low e few more = visit_records-end p fuel
visit_records-find p zero i (suc n) low e few more = absurd (omega arith)
visit_records-find p (suc fuel) i (suc n) low e few more =
    elim (Bool-cases (get_slot p.data_ i).used) [
      | inl u ↦
          let rest =
            visit_records-find p fuel (i + 1) n (omega arith) (omega arith) few (omega arith) in
          let there = record_at-InUse p i (low, omega arith, u) in
          rw (u, record_ids, there, visit_records-at p fuel i low, next-find p i n e few, rest) refl
      | inr u ↦
          let rest =
            visit_records-find p (suc fuel) (i + 1) n (omega arith) (omega arith) few
              (omega arith) in
          let gone = record_at-unused p i u in rw (u, record_ids, gone) rest
    ]

-- On a well-formed page, the loop from `begin` to `end` ends after one round for each slot at most, and it visits the ids of
-- all records of the page, once each and in the order of their slots.
pub visit_records-begin :
    (p : Page) (fuel : ℕ)
    → Inv p
    → p.header.num_slots < fuel
    → visit_records p fuel (begin p) ≡ record_ids p 1 p.header.num_slots
unfolding begin get_next_used_slot
visit_records-begin p fuel v more =
    let c = Inv-counts p v in
    let e : p.header.num_slots + 1 - 1 ≡ p.header.num_slots = omega arith in
    rw e (
      visit_records-find p fuel 1 p.header.num_slots (omega arith) (omega arith) (omega arith) more)
