-- ===== src/Page/Addition.antt =====
-- A page with one more record, below the others, and one with an unused slot more or less at its end.
use cs564_project.Prelude.{
  ℕ, suc, ◌+◌, ◌≤◌, ◌<◌, ◌≡◌, ◌≢◌, inl, inr, true, false, arith, Bool-cases, ℕ_discrete,
}
use cs564_project.Page.Slots.{PageSlot}
use cs564_project.Page.State.{data_size}
use cs564_project.Page.Totals.{total, total-zero, total-swap}
use cs564_project.Page.Layout.{length_below, below, InUse, Layout}

-- The slots after a record of length `len` came to the unused slot `d`, at `upper`.
pub record Added (sl sl' : ℕ → PageSlot) (n d upper len : ℕ) : Type 0 where
  pub free : (sl d).used ≡ false
  pub filled : (sl' d).used ≡ true
  pub offset : (sl' d).item_offset ≡ upper
  pub size : (sl' d).item_length ≡ len
  pub others : (k : ℕ) → 1 ≤ k → k ≤ n → k ≢ d → sl' k ≡ sl k

module _ {sl sl' : ℕ → PageSlot} {n upper d len : ℕ} (lay : Layout sl n (upper + len)) (low : 1 ≤ d)
    (high : d ≤ n) (some_bytes : 0 < len) (top : upper + len ≤ data_size)
    (add : Added sl sl' n d upper len) where
  Added-below : (x : ℕ) → upper < x → below sl' n x ≡ below sl n x + len
  Added-below x h =
      let at : (k : ℕ) → 1 ≤ k → k ≤ n → k ≢ d → length_below sl x k ≡ length_below sl' x k =
        λ k l r ne. rw (add.others k l r ne) (ground arith) in
      let swap = total-swap n d (length_below sl x) (length_below sl' x) low high at in
      ground (arith, add.free, add.filled, add.offset, add.size)

  -- No record starts below the new one.
  Added-below-none : below sl' n upper ≡ 0
  Added-below-none = total-zero n (length_below sl' upper) λ k l r. elim (ℕ_discrete k d) [
    | yes e ↦ rw e (ground (arith, add.offset))
    | no ne ↦ elim (Bool-cases (sl k).used) [
      | inl u ↦ let i = lay.inside k (l, r, u) in rw (add.others k l r ne) (ground arith)
      | inr u ↦ rw (add.others k l r ne) (ground arith)
    ]
  ]

  old : (k : ℕ) → InUse sl' n k → k ≢ d → InUse sl n k
  old k (l, r, u) ne = (l, r, ground (arith, add.others k l r ne))

  pub Added-Layout : Layout sl' n upper
  Added-Layout = record {
    inside = λ k u. elim (ℕ_discrete k d) [
      | yes e ↦ rw e (ground (arith, add.offset, add.size))
      | no ne ↦ let i = lay.inside k (old k u ne) in rw (add.others k u.0 u.1 ne) (ground arith)
    ];
    apart = λ j k u v ne. elim (ℕ_discrete j d) [
      | yes e ↦
          let c : k ≢ d = λ q. ne (ground arith) in
          let i = lay.inside k (old k v c) in
          rw (e, add.others k v.0 v.1 c) (ground (arith, add.offset, add.size))
      | no c ↦ elim (ℕ_discrete k d) [
        | yes e ↦
            let i = lay.inside j (old j u c) in
            rw (e, add.others j u.0 u.1 c) (ground (arith, add.offset, add.size))
        | no c' ↦
            rw (add.others k v.0 v.1 c', add.others j u.0 u.1 c)
              (lay.apart j k (old j u c) (old k v c') ne)
      ]
    ];
    tiled = λ k u. elim (ℕ_discrete k d) [
      | yes e ↦ rw (e, add.offset) (omega (arith, Added-below-none))
      | no ne ↦
          let i = lay.inside k (old k u ne) in
          let t = lay.tiled k (old k u ne) in
          let b = Added-below (sl k).item_offset (ground arith) in
          rw (add.others k u.0 u.1 ne) (omega arith)
    ];
    full = let b = Added-below data_size (omega arith) in let f = lay.full in omega arith;
  }

module _ (sl : ℕ → PageSlot) (n : ℕ) (free : (sl (suc n)).used ≡ false) where
  last-below : (x : ℕ) → below sl (suc n) x ≡ below sl n x
  unfolding total
  last-below x = ground (arith, free)

  not_last : (k : ℕ) → InUse sl (suc n) k → InUse sl n k
  not_last k (l, r, u) = elim (ℕ_discrete k (suc n)) [
    | yes e ↦ absurd (ground (arith, free))
    | no ne ↦ (l, omega (arith, ne), u)
  ]

  one_more : (k : ℕ) → InUse sl n k → InUse sl (suc n) k
  one_more k (l, r, u) = (l, omega arith, u)

  -- An unused slot may be appended.
  pub Layout-suc : (upper : ℕ) → Layout sl n upper → Layout sl (suc n) upper
  Layout-suc upper lay = record {
    inside = λ k u. lay.inside k (not_last k u);
    apart = λ j k u v ne. lay.apart j k (not_last j u) (not_last k v) ne;
    tiled = λ k u. let t = lay.tiled k (not_last k u) in omega (arith, last-below);
    full = let f = lay.full in omega (arith, last-below data_size);
  }

  -- An unused slot may be taken off the end.
  pub Layout-pred : (upper : ℕ) → Layout sl (suc n) upper → Layout sl n upper
  Layout-pred upper lay = record {
    inside = λ k u. lay.inside k (one_more k u);
    apart = λ j k u v ne. lay.apart j k (one_more j u) (one_more k v) ne;
    tiled = λ k u. let t = lay.tiled k (one_more k u) in omega (arith, last-below);
    full = let f = lay.full in omega (arith, last-below data_size);
  }
