-- ===== src/Tests/RecordLaws.antt =====
-- The laws of the pages of src/page.h at concrete pages.
use cs564_project.Prelude.{◌≡◌, refl, false, ◌==◌, some, none, get_or, arith, if◌then◌else◌, sym}
use cs564_project.Exceptions.{ok, err, slot_in_use, assertion_failed}
use cs564_project.Page.Bytes.{assign_bytes, poke, replace}
use cs564_project.Page.Slots.{get_slot, set_used, set_item_offset, set_item_length, slot_position}
use cs564_project.Page.State.{
  Page, slot, page_number, initialize, has_space_for_record, get_free_space, insert_record,
  get_record, allocate_slot, data_size, get_available_slot, insert_record_in_slot, fill_slot,
  replace_data,
}
use cs564_project.Page.Iterator.{visit_records, begin}
use cs564_project.Page.Totals.{total}
use cs564_project.Page.Inv.{Inv, Trimmed, record_at}
use cs564_project.Page.Slotting.{next_slot}
use cs564_project.Page.InsertLaws.{Grows, insert_record-records}
use cs564_project.Page.DeleteLaws.{Deletes, delete_record-records}
use cs564_project.Page.UpdateLaws.{Updates, update_record-records}
use cs564_project.Page.Refusals.{invalid, get_record-record_at}
use cs564_project.Page.Stale.{insert_record-stale}
use cs564_project.Page.History.{done, inserted, Steps-WellFormed}
use cs564_project.Page.Walk.{record_ids, visit_records-begin}
use cs564_project.Tests.Records.{
  memory, new_page, new_page-Inv, abc, xy, id, one_record, one_record-facts,
}

-- By evaluation: the sizes of the page with one record.
one_record-sizes :
    (one_record.header.num_slots ≡ 1)
    × (get_free_space one_record ≡ 8167)
    × ((slot one_record 1).item_length ≡ 3)
    × ((slot one_record 2).used ≡ false)
unfolding insert_record has_space_for_record get_free_space get_available_slot insert_record_in_slot
    fill_slot replace_data initialize assign_bytes poke replace get_slot set_used set_item_offset
    set_item_length slot_position get_or
one_record-sizes = (refl, refl, refl, refl)

insert_record-records_example : Grows new_page xy
unfolding initialize has_space_for_record next_slot get_slot assign_bytes slot_position
insert_record-records_example =
    insert_record-records new_page xy new_page-Inv.0 new_page-Inv.1 (omega arith) refl refl

delete_record-records_example : Deletes one_record (id 1)
delete_record-records_example =
    let (v, t, h, n) = one_record-facts in delete_record-records one_record (id 1) abc v t (sym n) h

update_record-records_example : Updates one_record (id 1) xy
update_record-records_example =
    let (v, t, h, n) = one_record-facts in
    let (_, free, len, _) = one_record-sizes in
    update_record-records one_record (id 1) abc xy v t (sym n) h (omega arith) (omega arith)

get_record-record_at_example : get_record (id 1) one_record ≡ (
    if 0 == page_number one_record
    then (elim (record_at one_record 1) [
      | some r ↦ (ok r, one_record)
      | none ↦ (invalid one_record (id 1), one_record)
    ])
    else (invalid one_record (id 1), one_record))
get_record-record_at_example =
    let (v, t, h, n) = one_record-facts in
    let (slots, _, _, _) = one_record-sizes in
    get_record-record_at one_record (id 1) v (omega arith) (omega arith)

visit_records-begin_example :
    visit_records one_record 2 (begin one_record)
    ≡ record_ids one_record 1 one_record.header.num_slots
visit_records-begin_example =
    let (slots, _, _, _) = one_record-sizes in
    visit_records-begin one_record 2 one_record-facts.0 (omega arith)

Steps-WellFormed_example : Inv one_record × Trimmed one_record
unfolding initialize next_slot get_slot assign_bytes slot_position
Steps-WellFormed_example = Steps-WellFormed memory one_record (
    inserted new_page one_record one_record abc (insert_record abc new_page).0 (omega arith) refl
      refl (done one_record))

-- A page without slots whose bytes are left over from records.
abbrev leftover_page : Page
leftover_page = record {
  header = record {
    free_space_lower_bound = 0;
    free_space_upper_bound = data_size;
    num_slots = 0;
    num_free_slots = 0;
    current_page_number = 1;
    next_page_number = 0;
  };
  data_ = record { size = data_size; byte = λ _. 7 };
}

leftover_page-Inv : Inv leftover_page
unfolding total
leftover_page-Inv = record {
  lower = refl;
  room = omega arith;
  upper = omega arith;
  size = refl;
  free = refl;
  layout = record {
    inside = λ k u. absurd (let (a, b, _) = u in omega arith);
    apart = λ j k u. absurd (let (a, b, _) = u in omega arith);
    tiled = λ k u. absurd (let (a, b, _) = u in omega arith);
    full = refl;
  };
}

insert_record-stale_example :
    (insert_record abc leftover_page ≡ (err (slot_in_use 1 1), allocate_slot leftover_page))
    × (insert_record xy (allocate_slot leftover_page)
        ≡ (err assertion_failed, allocate_slot leftover_page))
unfolding get_slot has_space_for_record slot_position
insert_record-stale_example =
    insert_record-stale leftover_page abc xy leftover_page-Inv refl refl refl refl
