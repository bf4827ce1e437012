-- ===== src/Page/Delete.antt =====
-- `deleteRecord` and `updateRecord` of src/page.cpp.
use cs564_project.Prelude.{
  ℕ, zero, suc, ◌+◌, ◌-◌, ◌*◌, Bool, true, false, ◌&&◌, List, ltb, ◌==◌, if◌then◌else◌, length,
  replicate,
}
use cs564_project.Exceptions.{ok, err, insufficient_space}
use cs564_project.Effects.{M, ◌>>◌, return, throw, modify}
use cs564_project.Page.Bytes.{Bytes, substr}
use cs564_project.Page.Slots.{sizeof_slot, get_slot, set_used, set_item_offset, set_item_length}
use cs564_project.Page.State.{
  Page, RecordId, slot, u16, sub16, page_number, get_free_space, validate_record_id, replace_data,
  insert_record_in_slot,
}

-- The locals of the loop that finds what to move, and the bytes, where it changes the offsets.
pub record Move : Type 0 where
  pub bytes : Bytes
  pub move_offset : ℕ
  pub move_bytes : ℕ

-- The loop's round at slot `i`; `d` is the slot of the record that is deleted.
unfoldable pub move_step : ℕ → ℕ → Move → Move
move_step d i s =
    let deleted = get_slot s.bytes d in
    let other = get_slot s.bytes i in
    if other.used && ltb other.item_offset deleted.item_offset
    then record {
      bytes = set_item_offset s.bytes i (u16 (other.item_offset + deleted.item_length));
      move_offset =
          if ltb other.item_offset s.move_offset then other.item_offset else s.move_offset;
      move_bytes = s.move_bytes + other.item_length;
    }
    else s

unfoldable pub move_loop : ℕ → ℕ → ℕ → Move → Move
move_loop d i zero s = s
move_loop d i (suc n) s = move_loop d (i + 1) n (move_step d i s)

-- The shift to the right of the `move_bytes` bytes.
unfoldable pub move_data : ℕ → Move → M Page (Unit {0})
unfolding replace_data
move_data d s p =
    if ltb 0 s.move_bytes
    then elim (substr p.data_ s.move_offset s.move_bytes) [
      | ok bytes ↦ replace_data (s.move_offset + (slot p d).item_length) s.move_bytes bytes p
      | err e ↦ throw e p
    ]
    else return tt p

unfoldable pub release_slot : ℕ → Page → Page
release_slot d p = record {
  header = record p.header {
    free_space_upper_bound = u16 (p.header.free_space_upper_bound + (slot p d).item_length);
    num_free_slots = u16 (p.header.num_free_slots + 1);
  };
  data_ = set_item_length (set_item_offset (set_used p.data_ d false) d 0) d 0;
}

-- How many slots are unused in a row, from slot `k` down.
unfoldable pub count_unused : Bytes → ℕ → ℕ
count_unused m zero = 0
count_unused m (suc k) = if (get_slot m (suc k)).used then 0 else suc (count_unused m k)

unfoldable pub compact_slots : Page → Page
compact_slots p =
    let n = suc (count_unused p.data_ (p.header.num_slots - 1)) in
    record p {
      header = record p.header {
        num_slots = sub16 p.header.num_slots n;
        num_free_slots = sub16 p.header.num_free_slots n;
        free_space_lower_bound = sub16 p.header.free_space_lower_bound (sizeof_slot * n);
      };
    }

-- What follows the check of the record's id and the loop over the slots.
unfoldable pub move_records : ℕ → M Page (Unit {0})
unfolding move_loop move_data
move_records d p =
    let s =
      move_loop d 1 p.header.num_slots
        (record { bytes = p.data_; move_offset = (slot p d).item_offset; move_bytes = 0 }) in
    move_data d s (record p { data_ = s.bytes })

unfoldable pub erase : ℕ → M Page (Unit {0})
unfolding replace_data
erase d p =
    let n = (slot p d).item_length in replace_data (slot p d).item_offset n (replicate n 0) p

unfoldable pub delete_record_with : RecordId → Bool → M Page (Unit {0})
unfolding validate_record_id erase move_records release_slot compact_slots
delete_record_with id allow_slot_compaction = do
  validate_record_id id
  erase id.slot_number
  move_records id.slot_number
  modify (release_slot id.slot_number)
  modify λ p.
      if allow_slot_compaction && id.slot_number == p.header.num_slots then compact_slots p else p

unfoldable pub delete_record : RecordId → M Page (Unit {0})
unfolding delete_record_with
delete_record id = delete_record_with id true

unfoldable pub update_record : RecordId → List ℕ → M Page (Unit {0})
unfolding validate_record_id get_free_space delete_record_with insert_record_in_slot
update_record id record_data = do
  validate_record_id id
  λ p.
      let free = get_free_space p + (slot p id.slot_number).item_length in
      if ltb free (length record_data)
      then throw (insufficient_space (page_number p) (length record_data) free) p
      else (do delete_record_with id false; insert_record_in_slot id.slot_number record_data) p
