-- ===== src/Page/DeleteLaws.antt =====
-- `deleteRecord` of src/page.cpp on a well-formed page.
use cs564_project.Prelude.{
  ℕ, ◌<◌, ◌≡◌, ◌≢◌, ◌∙◌, refl, Bool, true, false, ◌&&◌, ◌==◌, arith, if◌then◌else◌, ℕ_discrete,
  some, none, List,
}
use cs564_project.Exceptions.{ok, err, invalid_record}
use cs564_project.Page.State.{Page, RecordId, slot, page_number, validate_record_id}
use cs564_project.Page.Delete.{delete_record, delete_record_with, release_slot, compact_slots}
use cs564_project.Page.Layout.{InUse}
use cs564_project.Page.Deletion.{move_records-Moved}
use cs564_project.Page.Release.{Deleted, release-Deleted, Deleted-Inv, Deleted-records}
use cs564_project.Page.Compaction.{
  compact_slots-Inv, compact_slots-records, compact_slots-last, compact_slots-numbers,
}
use cs564_project.Page.Inv.{Inv, Trimmed, record_at, record_at-some}

-- The id is of this page and its slot in use.
abbrev pub IsHere : Page → RecordId → Type 0
IsHere p id = (id.page_number ≡ page_number p) × InUse (slot p) p.header.num_slots id.slot_number

pub validate_record_id-passes :
    (p : Page) (id : RecordId)
    → id.page_number ≡ page_number p
    → (slot p id.slot_number).used ≡ true
    → validate_record_id id p ≡ (ok tt, p)
unfolding validate_record_id
validate_record_id-passes p id e u = rw u (ground arith)

pub validate_record_id-refuses :
    (p : Page) (id : RecordId)
    → (id.page_number == page_number p && (slot p id.slot_number).used) ≡ false
    → validate_record_id id p
      ≡ (err (invalid_record id.page_number id.slot_number (page_number p)), p)
unfolding validate_record_id
validate_record_id-refuses p id h = ground arith

pub delete_record_with-run :
    (p : Page) (id : RecordId)
    → Inv p
    → IsHere p id
    → (q : Page) × Deleted p q id.slot_number
      × ((allow : Bool)
          → delete_record_with id allow p
            ≡ (ok tt, if allow && id.slot_number == q.header.num_slots then compact_slots q else q))
unfolding delete_record_with
delete_record_with-run p id v (e, u) =
    let (m, q, erased, moved, mv) = move_records-Moved p id.slot_number v u in
    (
      release_slot id.slot_number q,
      release-Deleted p q id.slot_number v u mv,
      λ allow. rw (validate_record_id-passes p id e u.2, erased, moved) refl,
    )

-- The deletion returns, the record of the id is gone, and the page keeps all else that it had.
abbrev pub Deletes : Page → RecordId → Type 0
Deletes p id =
    (q : Page) × (delete_record id p ≡ (ok tt, q))
    × Inv q
    × Trimmed q
    × (page_number q ≡ page_number p)
    × (q.header.next_page_number ≡ p.header.next_page_number)
    × ((k : ℕ) → record_at q k ≡ (if id.slot_number == k then none else record_at p k))

-- From a page that is well formed, with its last slot used, and so without empty records, a record
-- that it holds is deleted: all others stay, under the same ids, and the page stays well formed.
pub delete_record-records :
    (p : Page) (id : RecordId) (r : List ℕ)
    → Inv p
    → Trimmed p
    → id.page_number ≡ page_number p
    → record_at p id.slot_number ≡ some r
    → Deletes p id
unfolding delete_record
delete_record-records p id r v t e h =
    let (u, _) = record_at-some p id.slot_number r h in
    let (q, del, run) = delete_record_with-run p id v (e, u) in
    let n = del.num_slots in
    let w = Deleted-Inv p q id.slot_number v u del in
    let recs = Deleted-records p q id.slot_number v u del in
    let rem = del.removed in
    elim (ℕ_discrete id.slot_number q.header.num_slots) [
      | yes last ↦
          let gone : (slot q q.header.num_slots).used ≡ false = rw last at rem.gone in
          let low = u.0 in
          let positive : 0 < q.header.num_slots = omega arith in
          (
            compact_slots q,
            rw (run true) (ground arith),
            compact_slots-Inv q w positive gone,
            compact_slots-last q w positive gone,
            (compact_slots-numbers q).0 ∙ del.page_number,
            (compact_slots-numbers q).1 ∙ del.next_page_number,
            λ k. rw (compact_slots-records q w positive gone k) (recs k),
          )
      | no ne ↦ (
        q,
        rw (run true) (ground arith),
        w,
        λ h. rw n (
            let low : 0 < p.header.num_slots = rw n at h in
            let c : p.header.num_slots ≢ id.slot_number = λ x. ne (omega arith) in
            rw (rem.used p.header.num_slots (omega arith) (omega arith) c) (t low)),
        del.page_number,
        del.next_page_number,
        recs,
      )
    ]
