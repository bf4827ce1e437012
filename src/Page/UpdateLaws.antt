-- ===== src/Page/UpdateLaws.antt =====
-- `updateRecord` of src/page.cpp on a well-formed page.
use cs564_project.Prelude.{
  ℕ, ◌+◌, ◌≤◌, ◌<◌, ◌≡◌, ◌∙◌, refl, false, ◌==◌, ltb, arith, if◌then◌else◌, some, List, length,
}
use cs564_project.Exceptions.{ok}
use cs564_project.Page.State.{
  Page, RecordId, slot, page_number, get_free_space, insert_record_in_slot,
}
use cs564_project.Page.Delete.{update_record, delete_record_with}
use cs564_project.Page.Release.{Deleted-Inv, Deleted-records}
use cs564_project.Page.DeleteLaws.{IsHere, validate_record_id-passes, delete_record_with-run}
use cs564_project.Page.Inv.{Inv, Trimmed, record_at, record_at-some, get_free_space-Inv}
use cs564_project.Page.Filling.{insert_record_in_slot-run}

-- The bytes that a record of the slot can have.
abbrev pub space_at : Page → ℕ → ℕ
space_at p d = get_free_space p + (slot p d).item_length

update_record-steps :
    (p q q' : Page) (id : RecordId) (r : List ℕ)
    → IsHere p id
    → length r ≤ space_at p id.slot_number
    → delete_record_with id false p ≡ (ok tt, q)
    → insert_record_in_slot id.slot_number r q ≡ (ok tt, q')
    → update_record id r p ≡ (ok tt, q')
unfolding update_record
update_record-steps p q q' id r (e, u) h del ins =
    let fits : ltb (get_free_space p + (slot p id.slot_number).item_length) (length r) ≡ false =
      ground arith in
    rw (validate_record_id-passes p id e u.2, fits, del, ins) refl

-- The update returns, the id has the new record, and the page keeps all else that it had.
abbrev pub Updates : Page → RecordId → List ℕ → Type 0
Updates p id r =
    (q : Page) × (update_record id r p ≡ (ok tt, q))
    × Inv q
    × Trimmed q
    × (page_number q ≡ page_number p)
    × (q.header.next_page_number ≡ p.header.next_page_number)
    × ((k : ℕ) → record_at q k ≡ (if id.slot_number == k then some r else record_at p k))

-- In a page that is well formed, with its last slot used, and so without empty records, a record is
-- replaced under its own id by one that is not empty and that fits: all others stay under their ids,
-- and the page stays well formed.
pub update_record-records :
    (p : Page) (id : RecordId) (old r : List ℕ)
    → Inv p
    → Trimmed p
    → id.page_number ≡ page_number p
    → record_at p id.slot_number ≡ some old
    → 0 < length r
    → length r ≤ space_at p id.slot_number
    → Updates p id r
update_record-records p id old r v t e h b fits =
    let d = id.slot_number in
    let (u, _) = record_at-some p d old h in
    let (m, del, run) = delete_record_with-run p id v (e, u) in
    let w = Deleted-Inv p m d v u del in
    let recs = Deleted-records p m d v u del in
    let rem = del.removed in
    let n = del.num_slots in
    let up = del.upper in
    let room = v.room in
    let free = get_free_space-Inv p v in
    let (q, ins, facts) =
      insert_record_in_slot-run m d r w u.0 (rw n u.1) rem.gone b (omega arith) in
    let n' = facts.num_slots in
    (
      q,
      update_record-steps p m q id r (e, u) fits (run false) ins,
      facts.inv,
      λ c. rw (n' ∙ n) (
          let c' : 0 < p.header.num_slots = rw (n' ∙ n) at c in
          let old_last = t c' in
          let new_last = facts.used p.header.num_slots (omega arith) (omega arith) in
          let del_last = rem.used p.header.num_slots (omega arith) (omega arith) in
          ground (arith, del_last)),
      facts.page_number ∙ del.page_number,
      facts.next_page_number ∙ del.next_page_number,
      λ k. let a = facts.records k in let a' = recs k in ground arith,
    )
