-- ===== src/Page/Release.antt =====
-- `deleteRecord` of src/page.cpp with its slot marked as unused: what it does to the records.
use cs564_project.Prelude.{
  ℕ, suc, ◌+◌, ◌≤◌, ◌<◌, ◌≡◌, ◌≢◌, refl, inl, inr, false, ◌&&◌, leb, ◌==◌, arith, if◌then◌else◌,
  Bool-cases, ℕ_discrete, none, sym,
}
use cs564_project.Page.Bytes.{poke, read, read-ext}
use cs564_project.Page.Slots.{
  set_used, set_item_offset, set_item_length, get_slot-set_used, get_slot-set_item_offset,
  get_slot-set_item_length, byte-set_used, byte-set_item_offset, byte-set_item_length,
}
use cs564_project.Page.State.{Page, slot}
use cs564_project.Page.Delete.{release_slot}
use cs564_project.Page.Totals.{total-swap}
use cs564_project.Page.Layout.{InUse}
use cs564_project.Page.Removal.{Removed, Removed-Layout, Removed-offset}
use cs564_project.Page.Deletion.{Moved, moved_slot}
use cs564_project.Page.Inv.{Inv, unused, record_at, Inv-counts}

-- The page without the record of slot `d`.
pub record Deleted (p q : Page) (d : ℕ) : Type 0 where
  pub lower : q.header.free_space_lower_bound ≡ p.header.free_space_lower_bound
  pub upper :
      q.header.free_space_upper_bound ≡ p.header.free_space_upper_bound + (slot p d).item_length
  pub num_slots : q.header.num_slots ≡ p.header.num_slots
  pub free : q.header.num_free_slots ≡ suc p.header.num_free_slots
  pub page_number : q.header.current_page_number ≡ p.header.current_page_number
  pub next_page_number : q.header.next_page_number ≡ p.header.next_page_number
  pub size : q.data_.size ≡ p.data_.size
  pub above :
      (i : ℕ)
      → (slot p d).item_offset + (slot p d).item_length ≤ i
      → q.data_.byte i ≡ p.data_.byte i
  pub under :
      (i : ℕ)
      → p.header.free_space_upper_bound ≤ i
      → i < (slot p d).item_offset
      → q.data_.byte (i + (slot p d).item_length) ≡ p.data_.byte i
  pub removed : Removed (slot p) (slot q) p.header.num_slots d

module _ (p m : Page) (d : ℕ) (v : Inv p) (is : InUse (slot p) p.header.num_slots d)
    (mv : Moved p m d) where
  release-slots :
      (k : ℕ)
      → 1 ≤ k
      → k ≤ p.header.num_slots
      → slot (release_slot d m) k ≡ (
          if d == k
          then record { used = false; item_offset = 0; item_length = 0 }
          else moved_slot (slot p) d k)
  unfolding release_slot
  release-slots k a b =
      let r = v.room in
      let u = v.upper in
      let e = mv.slots k a b in
      let m1 = set_used m.data_ d false in
      let m2 = set_item_offset m1 d 0 in
      let s1 = get_slot-set_used m.data_ d k false is.0 (omega arith) a (omega arith) in
      let s2 = get_slot-set_item_offset m1 d k 0 is.0 (omega arith) a (omega arith) in
      let s3 = get_slot-set_item_length m2 d k 0 is.0 (omega arith) a (omega arith) in
      elim (ℕ_discrete d k) [ yes c ↦ ground arith | no c ↦ ground arith ]

  release-byte :
      (i : ℕ)
      → p.header.free_space_upper_bound ≤ i
      → (release_slot d m).data_.byte i ≡ m.data_.byte i
  unfolding release_slot
  release-byte i h =
      let r = v.room in
      let u = v.upper in
      let m1 = set_used m.data_ d false in
      let m2 = set_item_offset m1 d 0 in
      ground (
        arith,
        byte-set_used m.data_ d i false is.0,
        byte-set_item_offset m1 d i 0 is.0,
        byte-set_item_length m2 d i 0 is.0,
      )

  -- Where slot `d`'s record was, and what stands in the slots of the others.
  other_slot :
      (k : ℕ)
      → 1 ≤ k
      → k ≤ p.header.num_slots
      → k ≢ d
      → slot (release_slot d m) k ≡ moved_slot (slot p) d k
  other_slot k a b ne = let e = release-slots k a b in ground arith

  own_slot : slot (release_slot d m) d ≡ record { used = false; item_offset = 0; item_length = 0 }
  own_slot = let e = release-slots d is.0 is.1 in ground arith

  release-Removed : Removed (slot p) (slot (release_slot d m)) p.header.num_slots d
  release-Removed =
      let i = v.layout.inside d is in
      record {
        gone = rw own_slot refl;
        used = λ k a b ne. rw (other_slot k a b ne) (ground arith);
        kept = λ k u ne. rw (other_slot k u.0 u.1 ne) (ground arith);
        moved = λ k u ne.
            let j = v.layout.inside k u in
            let c = v.layout.apart k d u is ne in
            let e = u.2 in rw (other_slot k u.0 u.1 ne) (ground arith);
      }

  pub release-Deleted : Deleted p (release_slot d m) d
  unfolding release_slot set_item_length poke set_item_offset set_used
  release-Deleted =
      let i = v.layout.inside d is in
      let counts = Inv-counts p v in
      let h = mv.header in
      let e : slot m d ≡ slot p d = ground (arith, mv.slots d is.0 is.1) in
      record {
        lower = rw h refl;
        upper = rw (h, e) (omega arith);
        num_slots = rw h refl;
        free = rw h (omega arith);
        page_number = rw h refl;
        next_page_number = rw h refl;
        size = mv.size;
        above = λ j b. rw (release-byte j (omega arith)) (mv.above j b);
        under =
            λ j b c. rw (release-byte (j + (slot p d).item_length) (omega arith)) (mv.under j b c);
        removed = release-Removed;
      }

module _ (p q : Page) (d : ℕ) (v : Inv p) (is : InUse (slot p) p.header.num_slots d)
    (del : Deleted p q d) where
  pub Deleted-Inv : Inv q
  Deleted-Inv =
      let rem = del.removed in
      let i = v.layout.inside d is in
      let lay = Removed-Layout v.layout is rem in
      let same : (k : ℕ)
          → 1 ≤ k
          → k ≤ p.header.num_slots
          → k ≢ d
          → unused (slot p) k ≡ unused (slot q) k =
        λ k a b ne. ground (arith, rem.used k a b ne) in
      let swap =
        total-swap p.header.num_slots d (unused (slot p)) (unused (slot q)) is.0 is.1 same in
      record {
        lower = ground (arith, v.lower, del.lower, del.num_slots);
        room = ground (arith, v.room, del.upper, del.num_slots);
        upper = ground (arith, del.upper);
        size = ground (arith, v.size, del.size);
        free = rw (del.num_slots, del.free) (ground (arith, v.free, rem.gone));
        layout = rw (del.num_slots, del.upper) lay;
      }

  -- The bytes of another record are the same, wherever they now are.
  other_bytes :
      (k : ℕ)
      → InUse (slot p) p.header.num_slots k
      → k ≢ d
      → read q.data_.byte (slot q k).item_offset (slot q k).item_length
        ≡ read p.data_.byte (slot p k).item_offset (slot p k).item_length
  other_bytes k u ne =
      let rem = del.removed in
      let i = v.layout.inside k u in
      let e = rem.kept k u ne in
      let o = Removed-offset v.layout is rem k u ne in
      rw e (
        read-ext q.data_.byte p.data_.byte (slot q k).item_offset (slot p k).item_offset
          (slot p k).item_length
          λ j b. elim o [
            | inl (c, e') ↦
                let a = del.under ((slot p k).item_offset + j) (omega arith) (omega arith) in
                let at : (slot q k).item_offset + j
                    ≡ (slot p k).item_offset + j + (slot p d).item_length =
                  omega arith in
                rw at a
            | inr (c, e') ↦ rw e' (del.above ((slot p k).item_offset + j) (omega arith))
          ])

  pub Deleted-records : (k : ℕ) → record_at q k ≡ (if d == k then none else record_at p k)
  unfolding record_at
  Deleted-records k =
      let rem = del.removed in
      let n = del.num_slots in
      let gone = rem.gone in
      elim (ℕ_discrete d k) [
        | yes e ↦ rw (sym e) (ground arith)
        | no ne ↦
            let c : k ≢ d = λ x. ne (omega arith) in
            elim (Bool-cases (leb 1 k && leb k p.header.num_slots && (slot p k).used)) [
              | inl b ↦
                  let u : InUse (slot p) p.header.num_slots k = ground arith in
                  let used = rem.used k u.0 u.1 c in let bytes = other_bytes k u c in ground arith
              | inr b ↦ ground (arith, rem.used k)
            ]
      ]
