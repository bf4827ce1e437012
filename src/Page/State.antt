-- ===== src/Page/State.antt =====
-- src/page.h, src/page.cpp and `RecordId` of src/types.h: the state of a page and its operations.
use cs564_project.Prelude.{
  ℕ, zero, suc, ◌+◌, ◌-◌, ◌*◌, ◌%◌, ◌^◌, Bool, true, ◌||◌, List, ltb, leb, ◌==◌, if◌then◌else◌,
  length, not,
}
use cs564_project.Exceptions.{
  ok, err, insufficient_space, invalid_record, invalid_slot, slot_in_use, assertion_failed,
}
use cs564_project.Effects.{M, ◌>>=◌, ◌>>◌, return, throw}
use cs564_project.Page.Bytes.{Bytes, assign_bytes, substr, replace}
use cs564_project.Page.Slots.{
  PageSlot, sizeof_slot, get_slot, set_used, set_item_offset, set_item_length,
}

pub record PageHeader : Type 0 where
  pub free_space_lower_bound : ℕ
  pub free_space_upper_bound : ℕ
  pub num_slots : ℕ
  pub num_free_slots : ℕ
  pub current_page_number : ℕ
  pub next_page_number : ℕ

pub record Page : Type 0 where
  pub header : PageHeader
  pub data_ : Bytes

pub record RecordId : Type 0 where
  pub page_number : ℕ
  pub slot_number : ℕ

-- `Page::DATA_SIZE`, of the 8192 bytes less those of the header.
abbrev pub data_size : ℕ
data_size = 8192 - 16

-- `Page::INVALID_NUMBER` and `Page::INVALID_SLOT`.
abbrev pub invalid_number : ℕ
invalid_number = 0

abbrev pub invalid_slot_number : ℕ
invalid_slot_number = 0

-- A value that is stored in a `std::uint16_t`, and a difference of two such.
abbrev pub u16 : ℕ → ℕ
u16 n = n % 2 ^ 16

abbrev pub sub16 : ℕ → ℕ → ℕ
sub16 a b = (a + (2 ^ 16 - b % 2 ^ 16)) % 2 ^ 16

-- The memory of the page is what it was.
unfoldable pub initialize : Page → Page
initialize p = record {
  header = record {
    free_space_lower_bound = 0;
    free_space_upper_bound = data_size;
    num_slots = 0;
    num_free_slots = 0;
    current_page_number = invalid_number;
    next_page_number = invalid_number;
  };
  data_ = assign_bytes p.data_ data_size 0;
}

unfoldable pub get_free_space : Page → ℕ
get_free_space p = sub16 p.header.free_space_upper_bound p.header.free_space_lower_bound

abbrev pub page_number : Page → ℕ
page_number p = p.header.current_page_number

unfoldable pub set_page_number : Page → ℕ → Page
set_page_number p n = record p { header = record p.header { current_page_number = n } }

unfoldable pub set_next_page_number : Page → ℕ → Page
set_next_page_number p n = record p { header = record p.header { next_page_number = n } }

unfoldable pub is_used : Page → Bool
is_used p = not (page_number p == invalid_number)

abbrev pub slot : Page → ℕ → PageSlot
slot p n = get_slot p.data_ n

unfoldable pub has_space_for_record : Page → List ℕ → Bool
unfolding get_free_space
has_space_for_record p record_data =
    leb (length record_data + (if p.header.num_free_slots == 0 then sizeof_slot else 0))
      (get_free_space p)

unfoldable pub validate_record_id : RecordId → M Page (Unit {0})
validate_record_id id p =
    if not (id.page_number == page_number p)
    then throw (invalid_record id.page_number id.slot_number (page_number p)) p
    else if not (slot p id.slot_number).used
    then throw (invalid_record id.page_number id.slot_number (page_number p)) p
    else return tt p

unfoldable pub get_record : RecordId → M Page (List ℕ)
unfolding validate_record_id
get_record id = do
  validate_record_id id
  λ p. let s = slot p id.slot_number in (substr p.data_ s.item_offset s.item_length, p)

-- The loop of `getAvailableSlot`, of `n` rounds from slot `i` on.
unfoldable pub find_unused : Bytes → ℕ → ℕ → ℕ
find_unused m i zero = invalid_slot_number
find_unused m i (suc n) =
    let rest = find_unused m (i + 1) n in if not (get_slot m i).used then i else rest

abbrev pub allocate_slot : Page → Page
allocate_slot p =
    let n = u16 (p.header.num_slots + 1) in
    record p {
      header = record p.header {
        num_slots = n;
        num_free_slots = u16 (p.header.num_free_slots + 1);
        free_space_lower_bound = u16 (sizeof_slot * n);
      };
    }

unfoldable pub get_available_slot : M Page ℕ
unfolding find_unused
get_available_slot p =
    let free = ltb 0 p.header.num_free_slots in
    let n =
      if free then find_unused p.data_ 1 p.header.num_slots else u16 (p.header.num_slots + 1) in
    let q = if free then p else allocate_slot p in
    if n == invalid_slot_number then throw assertion_failed q else return n q

-- `data_.replace`, which leaves the page alone when it throws.
unfoldable pub replace_data : ℕ → ℕ → List ℕ → M Page (Unit {0})
replace_data pos n s p = elim (replace p.data_ pos n s) [
  | ok d ↦ return tt (record p { data_ = d })
  | err e ↦ throw e p
]

-- The slot and the header, before the bytes of the record are written.
unfoldable pub fill_slot : ℕ → ℕ → Page → Page
unfolding set_used set_item_length set_item_offset
fill_slot n record_length p =
    let offset = sub16 p.header.free_space_upper_bound record_length in
    record {
      header = record p.header {
        free_space_upper_bound = offset;
        num_free_slots = sub16 p.header.num_free_slots 1;
      };
      data_ =
          set_item_offset (set_item_length (set_used p.data_ n true) n (u16 record_length)) n
            offset;
    }

unfoldable pub insert_record_in_slot : ℕ → List ℕ → M Page (Unit {0})
unfolding fill_slot replace_data
insert_record_in_slot n record_data p =
    if ltb p.header.num_slots n || n == invalid_slot_number
    then throw (invalid_slot (page_number p) n) p
    else if (slot p n).used
    then throw (slot_in_use (page_number p) n) p
    else (let q = fill_slot n (length record_data) p in
        replace_data (slot q n).item_offset (slot q n).item_length record_data q)

unfoldable pub insert_record : List ℕ → M Page RecordId
unfolding has_space_for_record get_available_slot insert_record_in_slot
insert_record record_data p =
    if not (has_space_for_record p record_data)
    then throw (insufficient_space (page_number p) (length record_data) (get_free_space p)) p
    else (do
      n ← get_available_slot
      insert_record_in_slot n record_data
      λ q. return (record { page_number = page_number q; slot_number = n }) q)
        p
