-- ===== src/Page/InsertLaws.antt =====
-- `insertRecord` of src/page.cpp on a well-formed page.
use cs564_project.Prelude.{
  ℕ, suc, ◌+◌, ◌*◌, ◌≤◌, ◌<◌, ◌≡◌, ◌∙◌, refl, inl, inr, true, false, ◌==◌, ltb, arith,
  if◌then◌else◌, Bool-cases, some, none, List, length, sym,
}
use cs564_project.Exceptions.{ok}
use cs564_project.Page.State.{
  Page, slot, u16, page_number, has_space_for_record, allocate_slot, get_available_slot,
  insert_record_in_slot, insert_record,
}
use cs564_project.Page.Inv.{
  Inv, Inv-counts, Trimmed, record_at, record_at-unused, record_at-out, get_free_space-Inv,
}
use cs564_project.Page.Slotting.{
  next_slot, next_slot-free, with_slot, get_available_slot-run, allocate_slot-Inv,
  allocate_slot-records,
}
use cs564_project.Page.Filling.{insert_record_in_slot-run}

-- The bytes that an insertion takes from the free space.
abbrev pub space_for : Page → List ℕ → ℕ
space_for p r = length r + (if p.header.num_free_slots == 0 then 6 else 0)

has_space-le :
    (p : Page) (r : List ℕ)
    → Inv p
    → has_space_for_record p r ≡ true
    → 6 * p.header.num_slots + space_for p r ≤ p.header.free_space_upper_bound
unfolding has_space_for_record
has_space-le p r v h = let e = get_free_space-Inv p v in let room = v.room in ground arith

-- Once the slot is found, on the page `s` that has it.
insert_record-tail :
    (p s : Page) (r : List ℕ) (d : ℕ)
    → has_space_for_record p r ≡ true
    → get_available_slot p ≡ (ok d, s)
    → (q : Page) → insert_record_in_slot d r s ≡ (ok tt, q)
    → page_number q ≡ page_number p
    → insert_record r p ≡ (ok (record { page_number = page_number p; slot_number = d }), q)
unfolding insert_record
insert_record-tail p s r d h e q run n = rw (h, e, run, n) refl

-- The insertion gives a new id for the record, and the page keeps all that it had.
abbrev pub Grows : Page → List ℕ → Type 0
Grows p r =
    (q : Page) × (insert_record r p
      ≡ (ok (record { page_number = page_number p; slot_number = next_slot p }), q))
    × Inv q
    × Trimmed q
    × (page_number q ≡ page_number p)
    × (q.header.next_page_number ≡ p.header.next_page_number)
    × (record_at p (next_slot p) ≡ none)
    × ((k : ℕ) → record_at q k ≡ (if next_slot p == k then some r else record_at p k))

module _ (p : Page) (r : List ℕ) (v : Inv p) (t : Trimmed p) (some_bytes : 0 < length r)
    (fits : has_space_for_record p r ≡ true) where
  grown_reused : 0 < p.header.num_free_slots → Grows p r
  grown_reused h =
      let (low, high, free, _) = next_slot-free p v h in
      let le = has_space-le p r v fits in
      let get = get_available_slot-run p v in
      let same : with_slot p ≡ p = ground arith in
      let (q, run, ins) =
        insert_record_in_slot-run p (next_slot p) r v low high free some_bytes (ground arith) in
      let tail =
        insert_record-tail p p r (next_slot p) fits (get ∙ rw same refl) q run ins.page_number in
      let n = ins.num_slots in
      (
        q,
        tail,
        ins.inv,
        λ b. rw n (
            let b' : 0 < p.header.num_slots = rw n at b in
            let u = t b' in
            let u' = ins.used p.header.num_slots (omega arith) (omega arith) in ground arith),
        ins.page_number,
        ins.next_page_number,
        record_at-unused p (next_slot p) free,
        ins.records,
      )

  grown_new :
      p.header.num_free_slots ≡ 0 → (slot p (suc p.header.num_slots)).used ≡ false → Grows p r
  unfolding next_slot
  grown_new h free =
      let le = has_space-le p r v fits in
      let c = Inv-counts p v in
      let none_free : ltb 0 p.header.num_free_slots ≡ false = ground arith in
      let e : u16 (p.header.num_slots + 1) ≡ p.header.num_slots + 1 = omega arith in
      let e' : p.header.num_slots + 1 ≡ suc p.header.num_slots = omega arith in
      let s = allocate_slot p in
      let w = allocate_slot-Inv p v (ground arith) free in
      let (q, run, ins) =
        insert_record_in_slot-run s (p.header.num_slots + 1) r w (omega arith) (omega arith)
          (rw e' free) some_bytes (rw e (ground arith)) in
      let get : get_available_slot p ≡ (ok (p.header.num_slots + 1), s) =
        get_available_slot-run p v ∙ rw none_free refl in
      let tail = insert_record-tail p s r (p.header.num_slots + 1) fits get q run ins.page_number in
      let n = ins.num_slots in
      let last = ins.used (p.header.num_slots + 1) (omega arith) (omega arith) in
      rw none_free (
        q,
        tail,
        ins.inv,
        λ b. rw (n, e) (ground arith),
        ins.page_number,
        ins.next_page_number,
        record_at-out p (p.header.num_slots + 1) (omega arith),
        λ k. rw (sym (allocate_slot-records p v free k)) (ins.records k),
      )

-- Into a page that is well formed, with its last slot used, a record that is not empty and that fits
-- is inserted, where the bytes of the slot that it takes read as unused: it comes to that slot, all
-- other records stay under their ids, and the page stays well formed.
pub insert_record-records :
    (p : Page) (r : List ℕ)
    → Inv p
    → Trimmed p
    → 0 < length r
    → has_space_for_record p r ≡ true
    → (slot p (next_slot p)).used ≡ false
    → Grows p r
unfolding next_slot
insert_record-records p r v t b fits free = elim (Bool-cases (ltb 0 p.header.num_free_slots)) [
  | inl some_free ↦ grown_reused p r v t b fits (ground arith)
  | inr none_free ↦
      let e : p.header.num_slots + 1 ≡ suc p.header.num_slots = omega arith in
      let free' : (slot p (p.header.num_slots + 1)).used ≡ false = rw none_free at free in
      grown_new p r v t b fits (ground arith) (rw e at free')
]
