-- ===== src/Page/Iterator.antt =====
-- src/page_iterator.h, and `begin` and `end` of src/page.cpp: the records of a page in turn.
use cs564_project.Prelude.{ℕ, zero, suc, ◌+◌, ◌-◌, Bool, ◌&&◌, List, [], ◌∷◌, ◌==◌, if◌then◌else◌}
use cs564_project.Page.Bytes.{Bytes}
use cs564_project.Page.Slots.{get_slot}
use cs564_project.Page.State.{Page, RecordId, u16, page_number, invalid_slot_number}

unfoldable pub id_eq : RecordId → RecordId → Bool
id_eq a b = a.page_number == b.page_number && a.slot_number == b.slot_number

-- The loop of `getNextUsedSlot`, of `n` rounds from slot `i` on.
unfoldable pub find_used : Bytes → ℕ → ℕ → ℕ
find_used m i zero = invalid_slot_number
find_used m i (suc n) = let rest = find_used m (i + 1) n in if (get_slot m i).used then i else rest

unfoldable pub get_next_used_slot : Page → ℕ → ℕ
unfolding find_used
get_next_used_slot p start =
    let i = u16 (start + 1) in find_used p.data_ i (p.header.num_slots + 1 - i)

-- The iterators over one page, which none of these changes: an iterator is its current record.
unfoldable pub begin : Page → RecordId
unfolding get_next_used_slot
begin p = record {
  page_number = page_number p;
  slot_number = get_next_used_slot p invalid_slot_number;
}

unfoldable pub end : Page → RecordId
end p = record { page_number = page_number p; slot_number = invalid_slot_number }

unfoldable pub next : Page → RecordId → RecordId
unfolding get_next_used_slot
next p it = record {
  page_number = page_number p;
  slot_number = get_next_used_slot p it.slot_number;
}

-- The loop `for (it = page.begin(); it != page.end(); ++it)`: the records that it visits.
unfoldable pub visit_records : Page → ℕ → RecordId → List RecordId
unfolding end next id_eq
visit_records p zero it = []
visit_records p (suc fuel) it =
    let rest = it ∷ visit_records p fuel (next p it) in if id_eq it (end p) then [] else rest
