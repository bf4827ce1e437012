-- ===== src/Page/Layout.antt =====
-- How the records of a page lie in it, by its slots: one next to the other up to the end of the page.
use cs564_project.Prelude.{ℕ, ◌+◌, ◌≤◌, ◌<◌, ◌≡◌, ◌≢◌, ◌⊎◌, true, ◌&&◌, ltb, if◌then◌else◌}
use cs564_project.Page.Slots.{PageSlot}
use cs564_project.Page.State.{data_size}
use cs564_project.Page.Totals.{total}

-- The bytes of slot `k`'s record if it starts below `x`.
abbrev pub length_below : (ℕ → PageSlot) → ℕ → ℕ → ℕ
length_below sl x k = if (sl k).used && ltb (sl k).item_offset x then (sl k).item_length else 0

-- The bytes of the records that start below `x`.
abbrev pub below : (ℕ → PageSlot) → ℕ → ℕ → ℕ
below sl n x = total n (length_below sl x)

abbrev pub InUse : (ℕ → PageSlot) → ℕ → ℕ → Type 0
InUse sl n k = (1 ≤ k) × (k ≤ n) × ((sl k).used ≡ true)

-- Records are not empty, lie between `upper` and the end, apart, and with no room between them.
pub record Layout (sl : ℕ → PageSlot) (n upper : ℕ) : Type 0 where
  pub inside :
      (k : ℕ)
      → InUse sl n k
      → (0 < (sl k).item_length)
        × (upper ≤ (sl k).item_offset)
        × ((sl k).item_offset + (sl k).item_length ≤ data_size)
  pub apart :
      (j k : ℕ)
      → InUse sl n j
      → InUse sl n k
      → j ≢ k
      → ((sl j).item_offset + (sl j).item_length ≤ (sl k).item_offset)
        ⊎ ((sl k).item_offset + (sl k).item_length ≤ (sl j).item_offset)
  pub tiled : (k : ℕ) → InUse sl n k → upper + below sl n (sl k).item_offset ≡ (sl k).item_offset
  pub full : upper + below sl n data_size ≡ data_size
