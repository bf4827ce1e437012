-- ===== src/BufMgr/Unpin.antt =====
-- unPinPage of src/buffer.cpp.
use cs564_project.Prelude.{
  ℕ, ◌-◌, ◌<◌, ◌≡◌, refl, ◌⊎◌, inl, inr, none, some, Bool, ◌||◌, arith, Option-cases, ℕ_discrete,
}
use cs564_project.Exceptions.{ok, err, page_not_pinned, hash_not_found}
use cs564_project.Files.{Files}
use cs564_project.HashTbl.Laws.{view, lookup-view}
use cs564_project.BufMgr.State.{BufDesc, BufMgr, desc, set_desc}
use cs564_project.BufMgr.Calls.{un_pin_page, unpin, lookup_frame}
use cs564_project.BufMgr.Inv.{Inv, touch-Inv}

-- The descriptor of a frame that one client less has pinned.
abbrev pub released : BufDesc → Bool → BufDesc
released d dirty = record d { pin_cnt = d.pin_cnt - 1; dirty = dirty || d.dirty }

module _ {files : Files} where
  pub lookup_frame-hit :
      (s : BufMgr files) (f p k : ℕ)
      → view s.hash_table f p ≡ some k
      → lookup_frame f p s ≡ (ok k, s)
  unfolding lookup_frame
  lookup_frame-hit s f p k there = ground (arith, lookup-view s.hash_table f p)

  pub lookup_frame-miss :
      (s : BufMgr files) (f p : ℕ)
      → view s.hash_table f p ≡ none
      → lookup_frame f p s ≡ (err (hash_not_found f p), s)
  unfolding lookup_frame
  lookup_frame-miss s f p absent = ground (arith, lookup-view s.hash_table f p)

  -- In a state of the invariant, `unPinPage` does nothing to a page that is not in the pool; it throws PageNotPinnedException on
  -- a frame with pin count 0, and nothing changes; otherwise it takes one from the pin count, sets
  -- the dirty bit if asked to and never clears it, changes nothing else, and keeps the invariant.
  pub un_pin_page_cases :
      (s : BufMgr files) (f p : ℕ) (dirty : Bool)
      → Inv s
      → ((view s.hash_table f p ≡ none) × (un_pin_page f p dirty s ≡ (ok tt, s)))
        ⊎ ((k : ℕ) × (view s.hash_table f p ≡ some k)
            × ((((desc s k).pin_cnt ≡ 0)
                  × (un_pin_page f p dirty s ≡ (err (page_not_pinned f p k), s)))
                ⊎ ((0 < (desc s k).pin_cnt)
                    × (un_pin_page f p dirty s ≡ (ok tt, set_desc k (released (desc s k) dirty) s))
                    × Inv (set_desc k (released (desc s k) dirty) s))))
  unfolding un_pin_page unpin
  un_pin_page_cases s f p dirty v = elim (Option-cases (view s.hash_table f p)) [
    | inl absent ↦ inl (absent, rw (lookup_frame-miss s f p absent))
    | inr (k, there) ↦
        let (h, used, _, _) = v.owned f p k there in
        inr (
          k,
          there,
          elim (ℕ_discrete (desc s k).pin_cnt 0) [
            | yes zero_pins ↦ inl (zero_pins, rw (lookup_frame-hit s f p k there) (ground arith))
            | no pinned ↦ inr (
              omega arith,
              rw (lookup_frame-hit s f p k there) (ground arith),
              touch-Inv k (released (desc s k) dirty) v h used used refl refl refl,
            )
          ],
        )
  ]

  pub un_pin_page-Inv :
      (s : BufMgr files) (f p : ℕ) (dirty : Bool) → Inv s → Inv (un_pin_page f p dirty s).1
  un_pin_page-Inv s f p dirty v = elim (un_pin_page_cases s f p dirty v) [
    | inl (_, e) ↦ rw e v
    | inr (k, _, inl (_, e)) ↦ rw e v
    | inr (k, _, inr (_, e, w)) ↦ rw e w
  ]
