-- ===== src/Page/History.antt =====
-- The pages that the calls of src/page.cpp make from a new one.
use cs564_project.Prelude.{
  ℕ, ◌≤◌, ◌<◌, ◌≡◌, ◌⊎◌, refl, inl, inr, true, false, ◌&&◌, ◌==◌, leb, arith, Bool-cases, none,
  some, List, length, sym, ap, ◌∙◌,
}
use cs564_project.Exceptions.{Result, ok}
use mathlib.Core.Path.{subst}
use cs564_project.Page.Bytes.{assign_bytes}
use cs564_project.Page.State.{
  PageHeader, Page, RecordId, slot, page_number, get_free_space, has_space_for_record,
  insert_record, initialize, set_page_number, set_next_page_number, data_size, invalid_number,
}
use cs564_project.Page.Delete.{update_record, delete_record}
use cs564_project.Page.Totals.{total}
use cs564_project.Page.Inv.{Inv, Trimmed, record_at, record_at-InUse, record_at-some}
use cs564_project.Page.Slotting.{next_slot}
use cs564_project.Page.InsertLaws.{insert_record-records}
use cs564_project.Page.DeleteLaws.{delete_record-records}
use cs564_project.Page.UpdateLaws.{update_record-records, space_at}
use cs564_project.Page.Refusals.{operations-refuse, update_record-lacks_space}

-- A new page is well formed, of no file, without records and with all its bytes free.
pub initialize-empty :
    (p : Page)
    → Inv (initialize p)
      × Trimmed (initialize p)
      × (page_number (initialize p) ≡ invalid_number)
      × (get_free_space (initialize p) ≡ data_size)
      × ((k : ℕ) → record_at (initialize p) k ≡ none)
unfolding initialize total assign_bytes get_free_space record_at
initialize-empty p = (
  record {
    lower = refl;
    room = omega arith;
    upper = omega arith;
    size = refl;
    free = refl;
    layout = record {
      inside = λ k u. absurd (let (a, b, _) = u in omega arith);
      apart = λ j k u. absurd (let (a, b, _) = u in omega arith);
      tiled = λ k u. absurd (let (a, b, _) = u in omega arith);
      full = refl;
    };
  },
  λ h. absurd (omega arith),
  refl,
  refl,
  λ k. ground arith,
)

-- The calls of a client and of a file, that a page comes to `q` by: records are not empty, ids are of
-- slots of the page, and the slot that an insertion takes reads as unused.
pub data Steps : Page → Page → Type 0 where
  done : (p : Page) → Steps p p
  inserted :
      (p q s : Page) (r : List ℕ) (result : Result RecordId)
      → 0 < length r
      → (slot p (next_slot p)).used ≡ false
      → insert_record r p ≡ (result, q)
      → Steps q s
      → Steps p s
  updated :
      (p q s : Page) (id : RecordId) (r : List ℕ) (result : Result (Unit {0}))
      → 0 < length r
      → 1 ≤ id.slot_number
      → id.slot_number ≤ p.header.num_slots
      → update_record id r p ≡ (result, q)
      → Steps q s
      → Steps p s
  deleted :
      (p q s : Page) (id : RecordId) (result : Result (Unit {0}))
      → 1 ≤ id.slot_number
      → id.slot_number ≤ p.header.num_slots
      → delete_record id p ≡ (result, q)
      → Steps q s
      → Steps p s
  set_number : (p s : Page) (n : ℕ) → Steps (set_page_number p n) s → Steps p s
  set_next : (p s : Page) (n : ℕ) → Steps (set_next_page_number p n) s → Steps p s

abbrev WellFormed : Page → Type 0
WellFormed p = Inv p × Trimmed p

-- A page that a call leaves is the one that a run of it is known to leave.
same_page :
    {A : Type 0} (x : Result A × Page) (result known : Result A) (q m : Page)
    → x ≡ (result, q)
    → x ≡ (known, m)
    → WellFormed m
    → WellFormed q
same_page x result known q m e e' w =
    let same : m ≡ q = ap (λ y. y.1) (sym e' ∙ e) in subst WellFormed same w

insert-WellFormed :
    (p q : Page) (r : List ℕ) (result : Result RecordId)
    → 0 < length r
    → (slot p (next_slot p)).used ≡ false
    → insert_record r p ≡ (result, q)
    → WellFormed p
    → WellFormed q
unfolding insert_record
insert-WellFormed p q r result b free e (v, t) = elim (Bool-cases (has_space_for_record p r)) [
  | inl fits ↦
      let (m, run, w, t', _, _, _, _) = insert_record-records p r v t b fits free in
      same_page (insert_record r p) result
        (ok (record { page_number = page_number p; slot_number = next_slot p })) q m e run (w, t')
  | inr full ↦
      same_page (insert_record r p) result (insert_record r p).0 q p e (rw full refl) (v, t)
]

-- Whether the id's slot has a record, and the id is of this page.
here :
    (p : Page) (id : RecordId)
    → 1 ≤ id.slot_number
    → id.slot_number ≤ p.header.num_slots
    → ((id.page_number ≡ page_number p) × (r : List ℕ) × (record_at p id.slot_number ≡ some r))
      ⊎ ((id.page_number == page_number p && (slot p id.slot_number).used) ≡ false)
here p id a b =
    elim (Bool-cases (id.page_number == page_number p && (slot p id.slot_number).used)) [
      | inl h ↦ inl (ground arith, _, record_at-InUse p id.slot_number (a, b, ground arith))
      | inr h ↦ inr h
    ]

delete-WellFormed :
    (p q : Page) (id : RecordId) (result : Result (Unit {0}))
    → 1 ≤ id.slot_number
    → id.slot_number ≤ p.header.num_slots
    → delete_record id p ≡ (result, q)
    → WellFormed p
    → WellFormed q
delete-WellFormed p q id result a b e (v, t) = elim (here p id a b) [
  | inl (n, r, h) ↦
      let (m, run, w, t', _, _, _) = delete_record-records p id r v t n h in
      same_page (delete_record id p) result (ok tt) q m e run (w, t')
  | inr h ↦
      let (_, run, _) = operations-refuse p id (List.[]) h in
      same_page (delete_record id p) result _ q p e run (v, t)
]

update-WellFormed :
    (p q : Page) (id : RecordId) (r : List ℕ) (result : Result (Unit {0}))
    → 0 < length r
    → 1 ≤ id.slot_number
    → id.slot_number ≤ p.header.num_slots
    → update_record id r p ≡ (result, q)
    → WellFormed p
    → WellFormed q
update-WellFormed p q id r result c a b e (v, t) = elim (here p id a b) [
  | inl (n, old, h) ↦ elim (Bool-cases (leb (length r) (space_at p id.slot_number))) [
    | inl fits ↦
        let (m, run, w, t', _, _, _) = update_record-records p id old r v t n h c (ground arith) in
        same_page (update_record id r p) result (ok tt) q m e run (w, t')
    | inr full ↦
        let used : (slot p id.slot_number).used ≡ true =
          (record_at-some p id.slot_number old h).0.2 in
        let run = update_record-lacks_space p id r n used (ground arith) in
        same_page (update_record id r p) result _ q p e run (v, t)
  ]
  | inr h ↦
      let (_, _, run) = operations-refuse p id r h in
      same_page (update_record id r p) result _ q p e run (v, t)
]

-- The numbers of a page and of the next are no part of its records.
numbers-WellFormed :
    (p : Page) (n : ℕ)
    → WellFormed p
    → WellFormed (set_page_number p n) × WellFormed (set_next_page_number p n)
unfolding set_page_number set_next_page_number
numbers-WellFormed p n (v, t) =
    let w : (h : PageHeader)
        → h ≡ record p.header {
          current_page_number = h.current_page_number;
          next_page_number = h.next_page_number;
        }
        → Inv (record p { header = h }) =
      λ h e. rw e (record {
        lower = v.lower;
        room = v.room;
        upper = v.upper;
        size = v.size;
        free = v.free;
        layout = v.layout;
      }) in
    ((w _ refl, t), (w _ refl, t))

Steps-all : (p q : Page) → Steps p q → WellFormed p → WellFormed q
Steps-all p q (done _) w = w
Steps-all p s (inserted _ q _ r result b free e st) w =
    Steps-all q s st (insert-WellFormed p q r result b free e w)
Steps-all p s (updated _ q _ id r result c a b e st) w =
    Steps-all q s st (update-WellFormed p q id r result c a b e w)
Steps-all p s (deleted _ q _ id result a b e st) w =
    Steps-all q s st (delete-WellFormed p q id result a b e w)
Steps-all p s (set_number _ _ n st) w =
    Steps-all (set_page_number p n) s st (numbers-WellFormed p n w).0
Steps-all p s (set_next _ _ n st) w =
    Steps-all (set_next_page_number p n) s st (numbers-WellFormed p n w).1

-- Every page is well formed, with its last slot used, that a new page becomes by insertions, updates,
-- deletions and changes of its numbers, calls that throw included, where all records are not empty,
-- the ids are of slots of the page, and the slot that an insertion takes reads as unused.
pub Steps-WellFormed : (p q : Page) → Steps (initialize p) q → Inv q × Trimmed q
Steps-WellFormed p q st =
    let (v, t, _, _, _) = initialize-empty p in Steps-all (initialize p) q st (v, t)
