-- ===== src/Page/Stale.antt =====
-- `insertRecord` of src/page.cpp where the bytes of the new slot are left over from a record that
-- has moved: `deleteRecord` does not clear the bytes from which it moves records, and
-- `getAvailableSlot` does not clear the slot that it allocates.
use cs564_project.Prelude.{
  ℕ, suc, ◌+◌, ◌≤◌, ◌≡◌, refl, inl, inr, true, false, ◌||◌, ◌==◌, ltb, arith, ℕ_discrete, List,
}
use cs564_project.Exceptions.{err, slot_in_use, assertion_failed}
use cs564_project.Page.State.{
  Page, slot, u16, page_number, has_space_for_record, allocate_slot, find_unused,
  get_available_slot, insert_record_in_slot, insert_record,
}
use cs564_project.Page.Totals.{le-total}
use cs564_project.Page.Inv.{Inv, Inv-counts, unused}
use cs564_project.Page.Slotting.{find_unused-lem}

module _ (p : Page) (v : Inv p) (none_free : p.header.num_free_slots ≡ 0)
    (stale : (slot p (suc p.header.num_slots)).used ≡ true) where
  -- Every slot of the page reads as used, the new one too.
  all_used : (k : ℕ) → 1 ≤ k → k ≤ suc p.header.num_slots → (slot p k).used ≡ true
  all_used k a b = elim (ℕ_discrete k (suc p.header.num_slots)) [
    | yes e ↦ rw e stale
    | no ne ↦
        let f = v.free in
        let one = le-total p.header.num_slots k (unused (slot p)) a (omega (arith, ne)) in
        ground arith
  ]

  find_unused-none : find_unused p.data_ 1 (suc p.header.num_slots) ≡ 0
  find_unused-none = elim (find_unused-lem p.data_ 1 (suc p.header.num_slots) (omega arith)) [
    | inl (e, _) ↦ e
    | inr (a, b, f, _) ↦
        let u = all_used (find_unused p.data_ 1 (suc p.header.num_slots)) a (omega arith) in cc
  ]

-- In a well-formed page, where no slot is free and the bytes of the next one read as used, a record
-- that fits is refused, and the page keeps the new slot; the next insertion into the page as it then
-- is, of a record that fits, fails the assertion.
pub insert_record-stale :
    (p : Page) (r r' : List ℕ)
    → Inv p
    → p.header.num_free_slots ≡ 0
    → (slot p (suc p.header.num_slots)).used ≡ true
    → has_space_for_record p r ≡ true
    → has_space_for_record (allocate_slot p) r' ≡ true
    → (insert_record r p
        ≡ (err (slot_in_use (page_number p) (suc p.header.num_slots)), allocate_slot p))
      × (insert_record r' (allocate_slot p) ≡ (err assertion_failed, allocate_slot p))
unfolding insert_record get_available_slot insert_record_in_slot
insert_record-stale p r r' v none_free stale fits fits' =
    let c = Inv-counts p v in
    let e : u16 (p.header.num_slots + 1) ≡ suc p.header.num_slots = omega arith in
    let e' : u16 (p.header.num_free_slots + 1) ≡ 1 = omega arith in
    let nothing : ltb 0 p.header.num_free_slots ≡ false = ground arith in
    let n : (ltb (suc p.header.num_slots) (suc p.header.num_slots) || suc p.header.num_slots == 0)
        ≡ false =
      ground arith in
    let n' : (suc p.header.num_slots == 0) ≡ false = ground arith in
    (
      rw (fits, nothing, e, n', n, stale) refl,
      rw (fits', e', e, find_unused-none p v none_free stale) refl,
    )
