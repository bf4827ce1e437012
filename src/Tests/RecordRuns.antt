-- ===== src/Tests/RecordRuns.antt =====
-- Runs of the operations of src/page.cpp.
use cs564_project.Prelude.{◌≡◌, refl, [], ◌∷◌, ◌++◌, replicate, get_or}
use cs564_project.Exceptions.{Result, ok, err, slot_in_use, assertion_failed}
use cs564_project.Effects.{M, ◌>>=◌, ◌>>◌, return}
use cs564_project.Page.Bytes.{assign_bytes, poke, read, substr, replace}
use cs564_project.Page.Slots.{get_slot, set_used, set_item_offset, set_item_length, slot_position}
use cs564_project.Page.State.{
  Page, initialize, has_space_for_record, get_free_space, insert_record, get_record, find_unused,
  validate_record_id, get_available_slot, insert_record_in_slot, fill_slot, replace_data,
}
use cs564_project.Page.Delete.{
  delete_record, update_record, delete_record_with, erase, move_records, move_loop, move_step,
  move_data, release_slot, compact_slots, count_unused,
}
use cs564_project.Tests.Records.{new_page, abc, xy, id}

abbrev run : {A : Type 0} → M Page A → Page → Result A
run m p = (m p).0

-- A record is found again, also after others came and went, with new contents after an update.
sequence :
    run
      (do
        a ← insert_record abc
        b ← insert_record xy
        c ← insert_record (1 ∷ [])
        delete_record b
        update_record a (7 ∷ 8 ∷ 9 ∷ 10 ∷ [])
        d ← insert_record xy
        delete_record c
        x ← get_record a
        y ← get_record d
        return (x ++ y))
      new_page
    ≡ ok (7 ∷ 8 ∷ 9 ∷ 10 ∷ 120 ∷ 121 ∷ [])
unfolding insert_record has_space_for_record get_free_space get_available_slot insert_record_in_slot
    fill_slot replace_data delete_record delete_record_with erase move_records move_loop move_step
    move_data release_slot compact_slots count_unused update_record get_record validate_record_id
    find_unused initialize assign_bytes poke read substr replace get_slot set_used set_item_offset
    set_item_length slot_position get_or replicate
sequence = refl

-- An empty record keeps its offset when those above it move, so a later deletion moves too much.
empty_record_corrupts :
    run
      (do
        a ← insert_record (1 ∷ 2 ∷ 3 ∷ 4 ∷ 5 ∷ [])
        b ← insert_record (11 ∷ 12 ∷ 13 ∷ 14 ∷ 15 ∷ [])
        c ← insert_record []
        delete_record b
        d ← insert_record abc
        delete_record a
        get_record d)
      new_page
    ≡ ok (97 ∷ 0 ∷ 0 ∷ [])
unfolding insert_record has_space_for_record get_free_space get_available_slot insert_record_in_slot
    fill_slot replace_data delete_record delete_record_with erase move_records move_loop move_step
    move_data release_slot compact_slots count_unused update_record get_record validate_record_id
    find_unused initialize assign_bytes poke read substr replace get_slot set_used set_item_offset
    set_item_length slot_position get_or replicate
empty_record_corrupts = refl

-- A page on which the bytes of the fourth slot are left over from a record that has moved.
unfoldable leftover : Page
unfolding insert_record has_space_for_record get_free_space get_available_slot insert_record_in_slot
    fill_slot replace_data delete_record delete_record_with erase move_records move_loop move_step
    move_data release_slot compact_slots count_unused update_record get_record validate_record_id
    find_unused initialize assign_bytes poke read substr replace get_slot set_used set_item_offset
    set_item_length slot_position get_or replicate
leftover =
    ((do
      a ← insert_record (replicate 4000 1)
      b ← insert_record (replicate 4160 1)
      delete_record a
      c ← insert_record abc
      insert_record xy)
      new_page).1

-- It has 3993 bytes of free space, and refuses a record of two; then no insertion returns.
leftover_refuses :
    (get_free_space leftover ≡ 3993)
    × (run (insert_record xy) leftover ≡ err (slot_in_use 0 4))
    × (run (insert_record xy) (insert_record xy leftover).1 ≡ err assertion_failed)
unfolding insert_record has_space_for_record get_free_space get_available_slot insert_record_in_slot
    fill_slot replace_data delete_record delete_record_with erase move_records move_loop move_step
    move_data release_slot compact_slots count_unused update_record get_record validate_record_id
    find_unused initialize assign_bytes poke read substr replace get_slot set_used set_item_offset
    set_item_length slot_position get_or replicate leftover
leftover_refuses = (refl, refl, refl)

-- Slot 2 was never allocated, but its bytes are those of the record, and it passes as used.
data_as_slot :
    run (do a ← insert_record (replicate 8170 1); get_record (id 2)) new_page ≡ ok (replicate 257 1)
unfolding insert_record has_space_for_record get_free_space get_available_slot insert_record_in_slot
    fill_slot replace_data delete_record delete_record_with erase move_records move_loop move_step
    move_data release_slot compact_slots count_unused update_record get_record validate_record_id
    find_unused initialize assign_bytes poke read substr replace get_slot set_used set_item_offset
    set_item_length slot_position get_or replicate
data_as_slot = refl
