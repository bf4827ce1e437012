-- ===== src/Page/Refusals.antt =====
-- What the operations of src/page.cpp throw, and that a page is then as it was.
use cs564_project.Prelude.{
  ℕ, ◌+◌, ◌≤◌, ◌<◌, ◌≡◌, refl, inl, inr, true, false, ◌&&◌, ◌==◌, ltb, leb, arith, if◌then◌else◌,
  Bool-cases, some, none, List, length,
}
use cs564_project.Exceptions.{Result, ok, err, insufficient_space, invalid_record}
use cs564_project.Page.Bytes.{substr-inside, length-read}
use cs564_project.Page.State.{
  Page, RecordId, slot, page_number, get_free_space, has_space_for_record, get_record,
  insert_record,
}
use cs564_project.Page.Delete.{update_record, delete_record, delete_record_with}
use cs564_project.Page.DeleteLaws.{validate_record_id-passes, validate_record_id-refuses}
use cs564_project.Page.Inv.{Inv, record_at, record_at-some}
use cs564_project.Page.InsertLaws.{space_for}
use cs564_project.Page.UpdateLaws.{space_at}

-- The exception for an id that is of another page or of a slot without a record.
abbrev pub invalid : Page → RecordId → {A : Type 0} → Result A
invalid p id = err (invalid_record id.page_number id.slot_number (page_number p))

-- On a well-formed page, `getRecord` gives the record of its slot and throws where there is none, at every slot of the page.
pub get_record-record_at :
    (p : Page) (id : RecordId)
    → Inv p
    → 1 ≤ id.slot_number
    → id.slot_number ≤ p.header.num_slots
    → get_record id p ≡ (
        if id.page_number == page_number p
        then (elim (record_at p id.slot_number) [ some r ↦ (ok r, p) | none ↦ (invalid p id, p) ])
        else (invalid p id, p))
unfolding get_record record_at
get_record-record_at p id v low high = elim (Bool-cases (id.page_number == page_number p)) [
  | inl e ↦ elim (Bool-cases (slot p id.slot_number).used) [
    | inl u ↦
        let i = v.layout.inside id.slot_number (low, high, u) in
        let s = v.size in
        let part =
          substr-inside p.data_ (slot p id.slot_number).item_offset
            (slot p id.slot_number).item_length (omega arith) in
        let here : (leb 1 id.slot_number && leb id.slot_number p.header.num_slots) ≡ true =
          ground arith in
        rw (validate_record_id-passes p id (ground arith) u, part, e, here, u) refl
    | inr u ↦
        let here : (leb 1 id.slot_number && leb id.slot_number p.header.num_slots) ≡ true =
          ground arith in
        rw (validate_record_id-refuses p id (ground arith), e, here, u) refl
  ]
  | inr e ↦ rw (validate_record_id-refuses p id (ground arith), e) refl
]

-- An id of another page or of an unused slot is refused by every operation that takes one, and the
-- page stays.
pub operations-refuse :
    (p : Page) (id : RecordId) (r : List ℕ)
    → (id.page_number == page_number p && (slot p id.slot_number).used) ≡ false
    → (get_record id p ≡ (invalid p id, p))
      × (delete_record id p ≡ (invalid p id, p))
      × (update_record id r p ≡ (invalid p id, p))
unfolding get_record delete_record delete_record_with update_record
operations-refuse p id r h =
    let e = validate_record_id-refuses p id h in (rw e refl, rw e refl, rw e refl)

pub update_record-lacks_space :
    (p : Page) (id : RecordId) (r : List ℕ)
    → id.page_number ≡ page_number p
    → (slot p id.slot_number).used ≡ true
    → space_at p id.slot_number < length r
    → update_record id r p
      ≡ (err (insufficient_space (page_number p) (length r) (space_at p id.slot_number)), p)
unfolding update_record
update_record-lacks_space p id r e u more =
    let full : ltb (space_at p id.slot_number) (length r) ≡ true = ground arith in
    rw (validate_record_id-passes p id e u, full) refl

-- A record for which there is no space is refused, with the space there is, by an insertion and by
-- an update of a record, and the page stays.
pub operations-lack_space :
    (p : Page) (id : RecordId) (r old : List ℕ)
    → Inv p
    → id.page_number ≡ page_number p
    → record_at p id.slot_number ≡ some old
    → get_free_space p + length old < length r
    → (insert_record r p
        ≡ (err (insufficient_space (page_number p) (length r) (get_free_space p)), p))
      × (update_record id r p ≡ (
        err (insufficient_space (page_number p) (length r) (get_free_space p + length old)),
        p,
      ))
unfolding insert_record has_space_for_record
operations-lack_space p id r old v e h more =
    let (u, bytes) = record_at-some p id.slot_number old h in
    let size : length old ≡ (slot p id.slot_number).item_length = rw bytes (
      length-read p.data_.byte (slot p id.slot_number).item_offset
        (slot p id.slot_number).item_length) in
    let full : leb (space_for p r) (get_free_space p) ≡ false = ground arith in
    (rw full refl, rw size (update_record-lacks_space p id r e u.2 (omega arith)))
