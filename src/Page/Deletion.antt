-- ===== src/Page/Deletion.antt =====
-- `deleteRecord` of src/page.cpp up to the slots at the end: the record is gone, and the bytes of
-- those below it have moved up.
use cs564_project.Prelude.{
  ℕ, ◌+◌, ◌-◌, ◌≤◌, ◌<◌, ◌≡◌, ◌⊎◌, refl, inl, inr, ltb, List, replicate, length-replicate, arith,
  if◌then◌else◌, Bool-cases,
}
use cs564_project.Exceptions.{ok}
use cs564_project.Page.Bytes.{Bytes, read, length-read, get_or-read, substr-inside}
use cs564_project.Page.Slots.{PageSlot, get_slot}
use cs564_project.Page.State.{Page, slot, u16}
use cs564_project.Page.Delete.{Move, move_loop, move_data, move_records, erase}
use cs564_project.Page.Splicing.{with_data, Spliced, replace_data-inside}
use cs564_project.Page.Layout.{InUse}
use cs564_project.Page.Moving.{Moving, is_below, move_loop-all, Moving-range}
use cs564_project.Page.Inv.{Inv}

-- The slots once the offsets are new, slot `d` still as it was.
abbrev pub moved_slot : (ℕ → PageSlot) → ℕ → ℕ → PageSlot
moved_slot sl d k =
    if is_below sl d k
    then record {
      used = (sl k).used;
      item_offset = u16 ((sl k).item_offset + (sl d).item_length);
      item_length = (sl k).item_length;
    }
    else sl k

-- The page with the bytes below the record moved over it.
pub record Moved (p q : Page) (d : ℕ) : Type 0 where
  pub header : q.header ≡ p.header
  pub size : q.data_.size ≡ p.data_.size
  pub above :
      (i : ℕ)
      → (slot p d).item_offset + (slot p d).item_length ≤ i
      → q.data_.byte i ≡ p.data_.byte i
  pub under :
      (i : ℕ)
      → p.header.free_space_upper_bound ≤ i
      → i < (slot p d).item_offset
      → q.data_.byte (i + (slot p d).item_length) ≡ p.data_.byte i
  pub slots : (k : ℕ) → 1 ≤ k → k ≤ p.header.num_slots → slot q k ≡ moved_slot (slot p) d k

module _ (p : Page) (d : ℕ) (v : Inv p) (is : InUse (slot p) p.header.num_slots d) where
  abbrev zeros : ℕ → List ℕ
  zeros n = replicate n 0

  -- The locals of the loop, and the page that it leaves, once the record's bytes are `m`.
  abbrev after_loop : Bytes → Move
  after_loop m =
      move_loop d 1 p.header.num_slots
        (record { bytes = m; move_offset = (get_slot m d).item_offset; move_bytes = 0 })

  erase-lem :
      (m : Bytes) × Spliced p
        (slot p d).item_offset
        (slot p d).item_length
        (zeros (slot p d).item_length)
        m
  erase-lem =
      let i = v.layout.inside d is in
      let z = v.size in
      replace_data-inside p (slot p d).item_offset (slot p d).item_length
        (zeros (slot p d).item_length) (omega arith) (length-replicate (slot p d).item_length 0)

  loop_lem :
      (m : Bytes)
      → Spliced p (slot p d).item_offset (slot p d).item_length (zeros (slot p d).item_length) m
      → Moving (slot p) m p.header.num_slots d p.header.num_slots (after_loop m)
  loop_lem m sp =
      let i = v.layout.inside d is in
      let r = v.room in
      let u = v.upper in
      let same : (k : ℕ) → 1 ≤ k → k ≤ p.header.num_slots → get_slot m k ≡ slot p k =
        λ k a b. sp.slots k a (omega arith) (omega arith) in
      let e : get_slot m d ≡ slot p d = same d is.0 is.1 in
      move_loop-all (slot p) m p.header.num_slots d (omega arith) is.0 is.1
        (record { bytes = m; move_offset = (get_slot m d).item_offset; move_bytes = 0 }) refl
        (rw e refl) refl is.2 same

  -- The bytes below the record after the loop.
  under_loop :
      (m : Bytes) (s : Move)
      → Spliced p (slot p d).item_offset (slot p d).item_length (zeros (slot p d).item_length) m
      → Moving (slot p) m p.header.num_slots d p.header.num_slots s
      → (i : ℕ) → p.header.free_space_upper_bound ≤ i
      → i < (slot p d).item_offset ⊎ ((slot p d).item_offset + (slot p d).item_length ≤ i)
      → s.bytes.byte i ≡ p.data_.byte i
  under_loop m s sp mv i low out = let r = v.room in ground (arith, mv.records i, sp.bytes i)

  loop-slots :
      (m : Bytes) (s : Move)
      → Moving (slot p) m p.header.num_slots d p.header.num_slots s
      → (k : ℕ) → 1 ≤ k
      → k ≤ p.header.num_slots
      → get_slot s.bytes k ≡ moved_slot (slot p) d k
  loop-slots m s mv k a b = ground (arith, mv.slots k a b)

  move_data-lem :
      (m : Bytes) (s : Move)
      → Spliced p (slot p d).item_offset (slot p d).item_length (zeros (slot p d).item_length) m
      → Moving (slot p) m p.header.num_slots d p.header.num_slots s
      → (q : Page) × (move_data d s (with_data p s.bytes) ≡ (ok tt, q)) × Moved p q d
  unfolding move_data
  move_data-lem m s sp mv =
      let u = is.2 in
      let i = v.layout.inside d is in
      let z = v.size in
      let up = v.upper in
      let room = v.room in
      let z' = sp.size in
      let z'' = mv.size in
      let (start, stop) =
        Moving-range (slot p) m p.header.num_slots d (omega arith) is.0 is.1
          p.header.free_space_upper_bound s v.layout u mv in
      let own : get_slot s.bytes d ≡ slot p d = ground (arith, loop-slots m s mv d is.0 is.1) in
      elim (Bool-cases (ltb 0 s.move_bytes)) [
        | inl some_bytes ↦
            let f = s.bytes.byte in
            let bytes = read f s.move_offset s.move_bytes in
            let (m', sp') =
              replace_data-inside (with_data p s.bytes) (s.move_offset + (slot p d).item_length)
                s.move_bytes bytes (omega arith) (length-read f s.move_offset s.move_bytes) in
            let size' = sp'.size in
            let part = substr-inside s.bytes s.move_offset s.move_bytes (omega arith) in
            (
              with_data p m',
              rw (some_bytes, part, own) sp'.result,
              record {
                header = refl;
                size = omega arith;
                above = λ i h.
                    let e = under_loop m s sp mv i (omega arith) (inr h) in
                    ground (arith, sp'.bytes i);
                under = λ i h h'.
                    let e = under_loop m s sp mv i h (inl h') in
                    let at : s.move_offset + (i - s.move_offset) ≡ i = omega arith in
                    let j : i + (slot p d).item_length - (s.move_offset + (slot p d).item_length)
                        ≡ i - s.move_offset =
                      omega arith in
                    let b = sp'.bytes (i + (slot p d).item_length) in
                    let g =
                      get_or-read f s.move_offset s.move_bytes (i - s.move_offset) (omega arith) in
                    let g' : f (s.move_offset + (i - s.move_offset)) ≡ f i = rw at refl in
                    ground arith;
                slots = λ k a b.
                    let e = sp'.slots k a (omega arith) (omega arith) in
                    let e' = loop-slots m s mv k a b in cc;
              },
            )
        | inr no_bytes ↦ (
          with_data p s.bytes,
          rw (no_bytes) refl,
          record {
            header = refl;
            size = omega arith;
            above = λ i h. under_loop m s sp mv i (omega arith) (inr h);
            under = λ i h h'. absurd (ground arith);
            slots = loop-slots m s mv;
          },
        )
      ]

  -- The record's bytes are cleared and those below it moved.
  pub move_records-Moved :
      (m : Bytes) × (q : Page) × (erase d p ≡ (ok tt, with_data p m))
      × (move_records d (with_data p m) ≡ (ok tt, q))
      × Moved p q d
  unfolding erase move_records
  move_records-Moved =
      let (m, sp) = erase-lem in
      let (q, run, mv) = move_data-lem m (after_loop m) sp (loop_lem m sp) in
      (m, q, sp.result, run, mv)
