-- ===== src/Page/Filling.antt =====
-- `insertRecordInSlot` of src/page.cpp at an unused slot of a well-formed page.
use cs564_project.Prelude.{
  ℕ, ◌+◌, ◌-◌, ◌*◌, ◌≤◌, ◌<◌, ◌≡◌, ◌≢◌, refl, inl, inr, true, false, ◌&&◌, ◌||◌, ◌==◌, ltb, leb,
  arith, if◌then◌else◌, Bool-cases, ℕ_discrete, some, List, length, sym,
}
use cs564_project.Exceptions.{ok}
use cs564_project.Page.Bytes.{Bytes, poke, read, read-ext, read-splice}
use cs564_project.Page.Slots.{
  get_slot, set_used, set_item_offset, set_item_length, get_slot-set_used, get_slot-set_item_offset,
  get_slot-set_item_length, byte-set_used, byte-set_item_offset, byte-set_item_length,
}
use cs564_project.Page.State.{Page, slot, u16, sub16, fill_slot, insert_record_in_slot}
use cs564_project.Page.Totals.{total-swap, le-total}
use cs564_project.Page.Layout.{InUse}
use cs564_project.Page.Addition.{Added, Added-Layout}
use cs564_project.Page.Splicing.{with_data, Spliced, replace_data-inside}
use cs564_project.Page.Inv.{Inv, Inv-counts, unused, record_at}
use cs564_project.Page.Slotting.{Inserted}

module _ (p : Page) (d : ℕ) (r : List ℕ) (v : Inv p) (low : 1 ≤ d) (high : d ≤ p.header.num_slots)
    (free : (slot p d).used ≡ false) (some_bytes : 0 < length r)
    (fits : 6 * p.header.num_slots + length r ≤ p.header.free_space_upper_bound) where
  -- Where the record goes.
  at : ℕ
  at = p.header.free_space_upper_bound - length r

  abbrev filled : Page
  filled = fill_slot d (length r) p

  filled-slots :
      (k : ℕ)
      → 1 ≤ k
      → k ≤ p.header.num_slots
      → slot filled k ≡ (
          if d == k
          then record { used = true; item_offset = at; item_length = length r }
          else slot p k)
  unfolding fill_slot at
  filled-slots k a b =
      let c = Inv-counts p v in
      let up = v.upper in
      let offset = sub16 p.header.free_space_upper_bound (length r) in
      let m1 = set_used p.data_ d true in
      let m2 = set_item_length m1 d (u16 (length r)) in
      let s1 = get_slot-set_used p.data_ d k true low (omega arith) a (omega arith) in
      let s2 = get_slot-set_item_length m1 d k (u16 (length r)) low (omega arith) a (omega arith) in
      let s3 = get_slot-set_item_offset m2 d k offset low (omega arith) a (omega arith) in
      let e : offset ≡ p.header.free_space_upper_bound - length r = omega arith in
      let e' : u16 (length r) ≡ length r = omega arith in
      elim (ℕ_discrete d k) [ yes x ↦ ground arith | no x ↦ ground arith ]

  filled-byte : (i : ℕ) → 6 * p.header.num_slots ≤ i → filled.data_.byte i ≡ p.data_.byte i
  unfolding fill_slot
  filled-byte i h =
      let c = Inv-counts p v in
      let m1 = set_used p.data_ d true in
      let m2 = set_item_length m1 d (u16 (length r)) in
      ground (
        arith,
        byte-set_used p.data_ d i true low,
        byte-set_item_length m1 d i (u16 (length r)) low,
        byte-set_item_offset m2 d i (sub16 p.header.free_space_upper_bound (length r)) low,
      )

  filled-header :
      (filled.header.free_space_upper_bound ≡ at)
      × (filled.header.num_free_slots + 1 ≡ p.header.num_free_slots)
  unfolding fill_slot at
  filled-header =
      let c = Inv-counts p v in
      let f = v.free in
      let up = v.upper in
      let one = le-total p.header.num_slots d (unused (slot p)) low high in
      let mine : unused (slot p) d ≡ 1 = rw free refl in (omega arith, omega arith)

  filled-rest :
      (filled.header.free_space_lower_bound ≡ p.header.free_space_lower_bound)
      × (filled.header.num_slots ≡ p.header.num_slots)
      × (filled.header.current_page_number ≡ p.header.current_page_number)
      × (filled.header.next_page_number ≡ p.header.next_page_number)
      × (filled.data_.size ≡ p.data_.size)
  unfolding fill_slot set_used set_item_length set_item_offset poke
  filled-rest = (refl, refl, refl, refl, refl)

  own : slot filled d ≡ record { used = true; item_offset = at; item_length = length r }
  own = let e = filled-slots d low high in ground arith

  module _ (m : Bytes) (sp : Spliced filled at (length r) r m) where
    result-slots : (k : ℕ) → 1 ≤ k → k ≤ p.header.num_slots → get_slot m k ≡ slot filled k
    unfolding at
    result-slots k a b = let c = Inv-counts p v in sp.slots k a (omega arith) (omega arith)

    result-Added : Added (slot p) (get_slot m) p.header.num_slots d at (length r)
    result-Added =
        let mine = result-slots d low high in
        record {
          free = free;
          filled = rw (mine, own) refl;
          offset = rw (mine, own) refl;
          size = rw (mine, own) refl;
          others =
              λ k a b ne. let e = result-slots k a b in let e' = filled-slots k a b in ground arith;
        }

    result-Inv : Inv (with_data filled m)
    unfolding at
    result-Inv =
        let h = filled-header in
        let rest = filled-rest in
        let add = result-Added in
        let up = v.upper in
        let room = v.room in
        let f = v.free in
        let whole : at + length r ≡ p.header.free_space_upper_bound = omega arith in
        let same : (k : ℕ)
            → 1 ≤ k
            → k ≤ p.header.num_slots
            → k ≢ d
            → unused (slot p) k ≡ unused (get_slot m) k =
          λ k a b ne. rw (add.others k a b ne) refl in
        let swap =
          total-swap p.header.num_slots d (unused (slot p)) (unused (get_slot m)) low high same in
        let size = sp.size in
        let size' = v.size in
        let lower = v.lower in
        record {
          lower = omega arith;
          room = omega arith;
          upper = omega arith;
          size = omega arith;
          free = rw rest.1 (ground (arith, add.filled));
          layout =
              rw (rest.1, h.0)
                (Added-Layout (rw whole v.layout) low high some_bytes (omega arith) add);
        }

    -- The new record's bytes, and that those of the others are as they were.
    new_bytes : read m.byte at (length r) ≡ r
    new_bytes =
        read-splice m.byte at r
          λ i b. let e : at + i - at ≡ i = omega arith in let s = sp.bytes (at + i) in ground arith

    old_bytes :
        (k : ℕ)
        → InUse (slot p) p.header.num_slots k
        → read m.byte (slot p k).item_offset (slot p k).item_length
          ≡ read p.data_.byte (slot p k).item_offset (slot p k).item_length
    unfolding at
    old_bytes k u =
        let i = v.layout.inside k u in
        let r = v.room in
        read-ext m.byte p.data_.byte (slot p k).item_offset (slot p k).item_offset
          (slot p k).item_length
          λ j b.
            let s = sp.bytes ((slot p k).item_offset + j) in
            let f = filled-byte ((slot p k).item_offset + j) (omega arith) in ground arith

    result-records :
        (k : ℕ) → record_at (with_data filled m) k ≡ (if d == k then some r else record_at p k)
    unfolding record_at
    result-records k =
        let rest = filled-rest in
        let add = result-Added in
        let add_size = add.size in
        let add_offset = add.offset in
        let add_filled = add.filled in
        let fresh = new_bytes in
        elim (ℕ_discrete d k) [
          | yes e ↦
              let e' : read m.byte (get_slot m d).item_offset (get_slot m d).item_length ≡ r =
                rw (add_size, add_offset) fresh in
              rw (sym e, rest.1) (ground arith)
          | no ne ↦
              let ne' : k ≢ d = λ x. ne (omega arith) in
              elim (Bool-cases (leb 1 k && leb k p.header.num_slots)) [
                | inl b ↦
                    let same = add.others k (ground arith) (ground arith) ne' in
                    elim (Bool-cases (slot p k).used) [
                      | inl u ↦
                          let bytes = old_bytes k (ground arith, ground arith, u) in
                          rw (rest.1, same) (ground arith)
                      | inr u ↦ rw (rest.1, same) (ground arith)
                    ]
                | inr b ↦ rw rest.1 (ground arith)
              ]
        ]

    result-used :
        (k : ℕ)
        → 1 ≤ k
        → k ≤ p.header.num_slots
        → (get_slot m k).used ≡ (if d == k then true else (slot p k).used)
    result-used k a b = let e = result-slots k a b in let e' = filled-slots k a b in ground arith

  pub insert_record_in_slot-run :
      (q : Page) × (insert_record_in_slot d r p ≡ (ok tt, q)) × Inserted p q d r
  unfolding insert_record_in_slot at
  insert_record_in_slot-run =
      let h = filled-header in
      let rest = filled-rest in
      let up = v.upper in
      let size = v.size in
      let (m, sp) =
        replace_data-inside filled (p.header.free_space_upper_bound - length r) (length r) r
          (omega arith) refl in
      let mine : slot filled d ≡ record {
        used = true;
        item_offset = p.header.free_space_upper_bound - length r;
        item_length = length r;
      } =
        own in
      let pass : (ltb p.header.num_slots d || d == 0) ≡ false = ground arith in
      (
        with_data filled m,
        rw (pass, free, mine) sp.result,
        record {
          inv = result-Inv m sp;
          num_slots = rest.1;
          upper = omega arith;
          page_number = rest.2;
          next_page_number = rest.3;
          used = result-used m sp;
          records = result-records m sp;
        },
      )
