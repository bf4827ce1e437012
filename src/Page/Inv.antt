-- ===== src/Page/Inv.antt =====
-- Pages of src/page.cpp that are well formed, and the records that they hold, by slot.
use cs564_project.Prelude.{
  ℕ, ◌-◌, ◌*◌, ◌≤◌, ◌<◌, ◌≡◌, Option, none, some, true, false, ◌&&◌, List, leb, if◌then◌else◌,
  arith,
}
use cs564_project.Page.Bytes.{read}
use cs564_project.Page.Slots.{PageSlot}
use cs564_project.Page.State.{Page, slot, data_size, get_free_space}
use cs564_project.Page.Totals.{total, total-le}
use cs564_project.Page.Layout.{InUse, Layout}

abbrev pub unused : (ℕ → PageSlot) → ℕ → ℕ
unused sl k = if (sl k).used then 0 else 1

-- The header agrees with the slots, and the records lie without gaps up to the end of the data.
pub record Inv (p : Page) : Type 0 where
  pub lower : p.header.free_space_lower_bound ≡ 6 * p.header.num_slots
  pub room : 6 * p.header.num_slots ≤ p.header.free_space_upper_bound
  pub upper : p.header.free_space_upper_bound ≤ data_size
  pub size : p.data_.size ≡ data_size
  pub free : p.header.num_free_slots ≡ total p.header.num_slots (unused (slot p))
  pub layout : Layout (slot p) p.header.num_slots p.header.free_space_upper_bound

-- The record of slot `k`.
unfoldable pub record_at : Page → ℕ → Option (List ℕ)
record_at p k =
    if leb 1 k && leb k p.header.num_slots && (slot p k).used
    then some (read p.data_.byte (slot p k).item_offset (slot p k).item_length)
    else none

pub record_at-InUse :
    (p : Page) (k : ℕ)
    → InUse (slot p) p.header.num_slots k
    → record_at p k ≡ some (read p.data_.byte (slot p k).item_offset (slot p k).item_length)
unfolding record_at
record_at-InUse p k (l, r, u) = ground arith

pub record_at-unused : (p : Page) (k : ℕ) → (slot p k).used ≡ false → record_at p k ≡ none
unfolding record_at
record_at-unused p k u = ground arith

pub record_at-out : (p : Page) (k : ℕ) → p.header.num_slots < k → record_at p k ≡ none
unfolding record_at
record_at-out p k u = ground arith

pub record_at-zero : (p : Page) → record_at p 0 ≡ none
unfolding record_at
record_at-zero p = ground arith

pub record_at-some :
    (p : Page) (k : ℕ) (r : List ℕ)
    → record_at p k ≡ some r
    → InUse (slot p) p.header.num_slots k
      × (r ≡ read p.data_.byte (slot p k).item_offset (slot p k).item_length)
unfolding record_at
record_at-some p k r h = ground arith

pub get_free_space-Inv :
    (p : Page) → Inv p → get_free_space p ≡ p.header.free_space_upper_bound - 6 * p.header.num_slots
unfolding get_free_space
get_free_space-Inv p v = let e = v.lower in let r = v.room in let u = v.upper in omega arith

-- The counts of slots and of bytes fit their 16 bits.
pub Inv-counts :
    (p : Page)
    → Inv p
    → (p.header.num_free_slots ≤ p.header.num_slots) × (p.header.num_slots ≤ 1362)
Inv-counts p v =
    let f = v.free in
    let r = v.room in
    let u = v.upper in
    let t = total-le p.header.num_slots (unused (slot p)) λ k. ground arith in
    (omega arith, omega arith)

-- The last of the slots is used.
abbrev pub Trimmed : Page → Type 0
Trimmed p = 0 < p.header.num_slots → (slot p p.header.num_slots).used ≡ true
