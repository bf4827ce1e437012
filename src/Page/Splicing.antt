-- ===== src/Page/Splicing.antt =====
-- `data_.replace` of src/page.cpp within the data of a page, above the slots.
use cs564_project.Prelude.{
  ℕ, ◌+◌, ◌-◌, ◌*◌, ◌^◌, ◌≤◌, ◌<◌, ◌≡◌, refl, ◌&&◌, ltb, leb, List, get_or, length, arith,
  if◌then◌else◌,
}
use cs564_project.Exceptions.{ok}
use cs564_project.Page.Bytes.{Bytes, splice, replace-inside}
use cs564_project.Page.Slots.{get_slot, get_slot-ext}
use cs564_project.Page.State.{Page, slot, replace_data}

-- A page with new data.
abbrev pub with_data : Page → Bytes → Page
with_data p m = record p { data_ = m }

-- A replacement of bytes within the data, above the slots.
pub record Spliced (p : Page) (pos n : ℕ) (s : List ℕ) (m : Bytes) : Type 0 where
  pub result : replace_data pos n s p ≡ (ok tt, with_data p m)
  pub size : m.size ≡ p.data_.size
  pub bytes :
      (i : ℕ)
      → m.byte i ≡ (if leb pos i && ltb i (pos + n) then get_or s (i - pos) 0 else p.data_.byte i)
  pub slots : (k : ℕ) → 1 ≤ k → k < 2 ^ 16 → 6 * k ≤ pos → get_slot m k ≡ slot p k

pub replace_data-inside :
    (p : Page) (pos n : ℕ) (s : List ℕ)
    → pos + n ≤ p.data_.size
    → length s ≡ n
    → (m : Bytes) × Spliced p pos n s m
unfolding replace_data
replace_data-inside p pos n s h e =
    let m = splice p.data_ pos n s in
    let at : (i : ℕ)
        → m.byte i
          ≡ (if leb pos i && ltb i (pos + n) then get_or s (i - pos) 0 else p.data_.byte i) =
      λ i. ground arith in
    (
      m,
      record {
        result = rw (replace_data, replace-inside p.data_ pos n s h e) refl;
        size = omega arith;
        bytes = at;
        slots = λ k l u b. get_slot-ext p.data_ m k l u λ i c. ground arith;
      },
    )
