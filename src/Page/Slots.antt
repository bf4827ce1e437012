-- ===== src/Page/Slots.antt =====
-- `PageSlot` and `getSlot` of src/page.h and src/page.cpp: the slots at the bottom of `data_`.
-- A slot has six bytes: `used`, one of padding, `item_offset` and `item_length`, low byte first.
use cs564_project.Prelude.{
  ℕ, ◌+◌, ◌-◌, ◌*◌, ◌/◌, ◌%◌, ◌^◌, ◌≤◌, ◌<◌, ◌≡◌, refl, Bool, not, ◌==◌, if◌then◌else◌, arith,
}
use cs564_project.Page.Bytes.{Bytes, poke}

pub record PageSlot : Type 0 where
  pub used : Bool
  pub item_offset : ℕ
  pub item_length : ℕ

abbrev pub sizeof_slot : ℕ
sizeof_slot = 6

-- `(slot_number - 1) * sizeof(PageSlot)`, of type `size_t`.
unfoldable pub slot_position : ℕ → ℕ
slot_position n = ((n + 2 ^ 64 - 1) * sizeof_slot) % 2 ^ 64

abbrev pub u16_at : Bytes → ℕ → ℕ
u16_at m i = m.byte i + 256 * m.byte (i + 1)

unfoldable pub get_slot : Bytes → ℕ → PageSlot
get_slot m n =
    let at = slot_position n in
    record {
      used = not (m.byte at == 0);
      item_offset = u16_at m (at + 2);
      item_length = u16_at m (at + 4);
    }

abbrev pub set_u16 : Bytes → ℕ → ℕ → Bytes
set_u16 m i v = poke (poke m i (v % 256)) (i + 1) (v / 256)

-- The assignments to a slot's fields through the pointer that `getSlot` gives.
unfoldable pub set_used : Bytes → ℕ → Bool → Bytes
set_used m n b = poke m (slot_position n) (if b then 1 else 0)

unfoldable pub set_item_offset : Bytes → ℕ → ℕ → Bytes
set_item_offset m n v = set_u16 m (slot_position n + 2) v

unfoldable pub set_item_length : Bytes → ℕ → ℕ → Bytes
set_item_length m n v = set_u16 m (slot_position n + 4) v

position : (n : ℕ) → 1 ≤ n → n < 2 ^ 16 → slot_position n + 6 ≡ 6 * n
unfolding slot_position
position n lo hi = omega arith

pub get_slot-set_used :
    (m : Bytes) (n k : ℕ) (b : Bool)
    → 1 ≤ n
    → n < 2 ^ 16
    → 1 ≤ k
    → k < 2 ^ 16
    → get_slot (set_used m n b) k ≡ (
        if n == k
        then record {
          used = b;
          item_offset = (get_slot m k).item_offset;
          item_length = (get_slot m k).item_length;
        }
        else get_slot m k)
unfolding get_slot set_used poke
get_slot-set_used m n k b ln hn lk hk = ground (arith, position n, position k)

pub get_slot-set_item_offset :
    (m : Bytes) (n k v : ℕ)
    → 1 ≤ n
    → n < 2 ^ 16
    → 1 ≤ k
    → k < 2 ^ 16
    → get_slot (set_item_offset m n v) k ≡ (
        if n == k
        then record {
          used = (get_slot m k).used;
          item_offset = v;
          item_length = (get_slot m k).item_length;
        }
        else get_slot m k)
unfolding get_slot set_item_offset poke
get_slot-set_item_offset m n k v ln hn lk hk = ground (arith, position n, position k)

pub get_slot-set_item_length :
    (m : Bytes) (n k v : ℕ)
    → 1 ≤ n
    → n < 2 ^ 16
    → 1 ≤ k
    → k < 2 ^ 16
    → get_slot (set_item_length m n v) k ≡ (
        if n == k
        then record {
          used = (get_slot m k).used;
          item_offset = (get_slot m k).item_offset;
          item_length = v;
        }
        else get_slot m k)
unfolding get_slot set_item_length poke
get_slot-set_item_length m n k v ln hn lk hk = ground (arith, position n, position k)

-- A slot's six bytes lie below those of the records.
pub byte-set_used :
    (m : Bytes) (n i : ℕ) (b : Bool)
    → 1 ≤ n
    → n < 2 ^ 16
    → 6 * n ≤ i
    → (set_used m n b).byte i ≡ m.byte i
unfolding set_used poke
byte-set_used m n i b ln hn h = ground (arith, position n)

pub byte-set_item_offset :
    (m : Bytes) (n i v : ℕ)
    → 1 ≤ n
    → n < 2 ^ 16
    → 6 * n ≤ i
    → (set_item_offset m n v).byte i ≡ m.byte i
unfolding set_item_offset poke
byte-set_item_offset m n i v ln hn h = ground (arith, position n)

pub byte-set_item_length :
    (m : Bytes) (n i v : ℕ)
    → 1 ≤ n
    → n < 2 ^ 16
    → 6 * n ≤ i
    → (set_item_length m n v).byte i ≡ m.byte i
unfolding set_item_length poke
byte-set_item_length m n i v ln hn h = ground (arith, position n)

-- A slot is read from its six bytes.
pub get_slot-ext :
    (m m' : Bytes) (k : ℕ)
    → 1 ≤ k
    → k < 2 ^ 16
    → ((i : ℕ) → i < 6 * k → m'.byte i ≡ m.byte i)
    → get_slot m' k ≡ get_slot m k
unfolding get_slot
get_slot-ext m m' k lk hk h =
    let e = position k lk hk in
    ground (
      arith,
      h (slot_position k),
      h (slot_position k + 2),
      h (slot_position k + 2 + 1),
      h (slot_position k + 4),
      h (slot_position k + 4 + 1),
    )

pub size-set_used : (m : Bytes) (n : ℕ) (b : Bool) → (set_used m n b).size ≡ m.size
unfolding set_used poke
size-set_used m n b = refl

pub size-set_item_offset : (m : Bytes) (n v : ℕ) → (set_item_offset m n v).size ≡ m.size
unfolding set_item_offset poke
size-set_item_offset m n v = refl

pub size-set_item_length : (m : Bytes) (n v : ℕ) → (set_item_length m n v).size ≡ m.size
unfolding set_item_length poke
size-set_item_length m n v = refl
