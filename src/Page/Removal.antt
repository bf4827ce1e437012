-- ===== src/Page/Removal.antt =====
-- A page without one of its records, the others moved up to close the hole.
use cs564_project.Prelude.{
  ℕ, ◌+◌, ◌≤◌, ◌≡◌, ◌≢◌, ◌⊎◌, inl, inr, false, ltb, arith, if◌then◌else◌, Bool-cases, ℕ_discrete,
}
use cs564_project.Page.Slots.{PageSlot}
use cs564_project.Page.State.{data_size}
use cs564_project.Page.Totals.{total-swap}
use cs564_project.Page.Layout.{length_below, below, InUse, Layout}

-- The slots after a record of length `l` at offset `o` is gone from slot `d`.
pub record Removed (sl sl' : ℕ → PageSlot) (n d : ℕ) : Type 0 where
  pub gone : (sl' d).used ≡ false
  pub used : (k : ℕ) → 1 ≤ k → k ≤ n → k ≢ d → (sl' k).used ≡ (sl k).used
  pub kept : (k : ℕ) → InUse sl n k → k ≢ d → (sl' k).item_length ≡ (sl k).item_length
  pub moved :
      (k : ℕ)
      → InUse sl n k
      → k ≢ d
      → (sl' k).item_offset ≡ (
          if ltb (sl k).item_offset (sl d).item_offset
          then (sl k).item_offset + (sl d).item_length
          else (sl k).item_offset)

module _ {sl sl' : ℕ → PageSlot} {n upper d : ℕ} (lay : Layout sl n upper) (is : InUse sl n d)
    (rem : Removed sl sl' n d) where
  still : (k : ℕ) → InUse sl' n k → (InUse sl n k) × (k ≢ d)
  still k (l, r, u) = elim (ℕ_discrete k d) [
    | yes e ↦ absurd (ground (arith, rem.gone))
    | no ne ↦ ((l, r, ground (arith, rem.used k l r ne)), ne)
  ]

  -- Below a bound, the moved records count as before, less the one that is gone.
  Removed-below :
      (x y : ℕ)
      → ((k : ℕ) → InUse sl n k → k ≢ d → ltb (sl' k).item_offset x ≡ ltb (sl k).item_offset y)
      → below sl n y ≡ below sl' n x + length_below sl y d
  Removed-below x y h =
      let at : (k : ℕ) → 1 ≤ k → k ≤ n → k ≢ d → length_below sl y k ≡ length_below sl' x k =
        λ k l r ne. elim (Bool-cases (sl k).used) [
          | inl u ↦ ground (arith, rem.used k l r ne, rem.kept k (l, r, u) ne, h k (l, r, u) ne)
          | inr u ↦ ground (arith, rem.used k l r ne)
        ] in
      let swap = total-swap n d (length_below sl y) (length_below sl' x) is.0 is.1 at in
      ground (arith, rem.gone)

  -- Where slot `k` starts after the move.
  pub Removed-offset :
      (k : ℕ)
      → InUse sl n k
      → k ≢ d
      → (((sl k).item_offset + (sl k).item_length ≤ (sl d).item_offset)
          × ((sl' k).item_offset ≡ (sl k).item_offset + (sl d).item_length))
        ⊎ (((sl d).item_offset + (sl d).item_length ≤ (sl k).item_offset)
            × ((sl' k).item_offset ≡ (sl k).item_offset))
  Removed-offset k u ne =
      let i = lay.inside k u in
      let j = lay.inside d is in ground (arith, lay.apart k d u is ne, rem.moved k u ne)

  Removed-order :
      (j k : ℕ)
      → InUse sl n j
      → InUse sl n k
      → j ≢ d
      → k ≢ d
      → ltb (sl' j).item_offset (sl' k).item_offset ≡ ltb (sl j).item_offset (sl k).item_offset
  Removed-order j k u v ne ne' =
      let a = lay.inside j u in
      let b = lay.inside k v in ground (arith, Removed-offset j u ne, Removed-offset k v ne')

  Removed-apart :
      (j k : ℕ)
      → InUse sl n j
      → InUse sl n k
      → j ≢ d
      → k ≢ d
      → j ≢ k
      → ((sl' j).item_offset + (sl' j).item_length ≤ (sl' k).item_offset)
        ⊎ ((sl' k).item_offset + (sl' k).item_length ≤ (sl' j).item_offset)
  Removed-apart j k u v ne ne' c =
      let p = Removed-offset j u ne in
      let q = Removed-offset k v ne' in
      let e = rem.kept j u ne in
      let e' = rem.kept k v ne' in
      let a = lay.inside j u in
      let b = lay.inside k v in rw (e, e') (ground (arith, lay.apart j k u v c))

  pub Removed-Layout : Layout sl' n (upper + (sl d).item_length)
  Removed-Layout =
      let o = lay.inside d is in
      record {
        inside = λ k u.
            let (v, ne) = still k u in
            let i = lay.inside k v in
            let e = rem.kept k v ne in ground (arith, Removed-offset k v ne);
        apart = λ j k u v ne.
            Removed-apart j k (still j u).0 (still k v).0 (still j u).1 (still k v).1 ne;
        tiled = λ k u.
            let v = (still k u).0 in
            let ne = (still k u).1 in
            let t = lay.tiled k v in
            let b =
              Removed-below (sl' k).item_offset (sl k).item_offset
                λ j w c. Removed-order j k w v c ne in
            ground (arith, Removed-offset k v ne);
        full =
            let b =
              Removed-below data_size data_size
                λ j w c. let i = lay.inside j w in ground (arith, Removed-offset j w c) in
            let f = lay.full in ground arith;
      }
