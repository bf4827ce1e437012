-- ===== src/Tests/Records.antt =====
-- Pages of src/page.h with a few records.
use cs564_project.Prelude.{ℕ, ◌≡◌, refl, some, List, [], ◌∷◌, sym, ap, ◌∙◌, arith}
use mathlib.Core.Path.{subst}
use cs564_project.Page.Bytes.{assign_bytes}
use cs564_project.Page.Slots.{get_slot, slot_position}
use cs564_project.Page.State.{
  Page, RecordId, page_number, initialize, has_space_for_record, insert_record,
}
use cs564_project.Page.Inv.{Inv, Trimmed, record_at}
use cs564_project.Page.Slotting.{next_slot}
use cs564_project.Page.InsertLaws.{Grows, insert_record-records}
use cs564_project.Page.History.{initialize-empty}

-- A page of new memory, and a new page of number 5.
abbrev pub memory : Page
memory = record {
  header = record {
    free_space_lower_bound = 0;
    free_space_upper_bound = 0;
    num_slots = 0;
    num_free_slots = 0;
    current_page_number = 0;
    next_page_number = 0;
  };
  data_ = record { size = 0; byte = λ _. 0 };
}

abbrev pub new_page : Page
new_page = initialize memory

abbrev pub abc : List ℕ
abc = 97 ∷ 98 ∷ 99 ∷ []

abbrev pub xy : List ℕ
xy = 120 ∷ 121 ∷ []

abbrev pub id : ℕ → RecordId
id k = record { page_number = 0; slot_number = k }

-- The page that an insertion leaves.
abbrev pub after : Page → List ℕ → Page
after p r = (insert_record r p).1

pub after-facts :
    (p : Page) (r : List ℕ)
    → Grows p r
    → Inv (after p r)
      × Trimmed (after p r)
      × (record_at (after p r) (next_slot p) ≡ some r)
      × (page_number (after p r) ≡ page_number p)
after-facts p r (q, run, v, t, n, _, _, recs) =
    let same : q ≡ after p r = ap (λ x. x.1) (sym run) in
    (
      subst Inv same v,
      subst Trimmed same t,
      subst (λ x. record_at x (next_slot p) ≡ some r) same (recs (next_slot p) ∙ ground arith),
      subst (λ x. page_number x ≡ page_number p) same n,
    )

pub new_page-Inv : Inv new_page × Trimmed new_page
new_page-Inv = let (v, t, _, _, _) = initialize-empty memory in (v, t)

abbrev pub one_record : Page
one_record = after new_page abc

one_record-Grows : Grows new_page abc
unfolding initialize has_space_for_record next_slot get_slot assign_bytes slot_position
one_record-Grows =
    insert_record-records new_page abc new_page-Inv.0 new_page-Inv.1 (omega arith) refl refl

pub one_record-facts :
    Inv one_record
    × Trimmed one_record
    × (record_at one_record 1 ≡ some abc)
    × (page_number one_record ≡ 0)
unfolding initialize next_slot
one_record-facts = after-facts new_page abc one_record-Grows
