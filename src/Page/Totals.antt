-- ===== src/Page/Totals.antt =====
-- Sums over the slots 1 to n of a page.
use cs564_project.Prelude.{ℕ, zero, suc, ◌+◌, ◌≤◌, ◌≡◌, ◌≢◌, refl, ℕ_discrete, arith}

unfoldable pub total : ℕ → (ℕ → ℕ) → ℕ
total zero f = 0
total (suc n) f = f (suc n) + total n f

pub total-ext :
    (n : ℕ) (f g : ℕ → ℕ) → ((k : ℕ) → 1 ≤ k → k ≤ n → f k ≡ g k) → total n f ≡ total n g
unfolding total
total-ext zero f g h = refl
total-ext (suc n) f g h =
    let tail = total-ext n f g λ k l r. h k l (omega arith) in
    let last = h (suc n) (omega arith) (omega arith) in omega arith

pub total-zero : (n : ℕ) (f : ℕ → ℕ) → ((k : ℕ) → 1 ≤ k → k ≤ n → f k ≡ 0) → total n f ≡ 0
unfolding total
total-zero zero f h = refl
total-zero (suc n) f h =
    let tail = total-zero n f λ k l r. h k l (omega arith) in
    let last = h (suc n) (omega arith) (omega arith) in omega arith

pub le-total : (n k : ℕ) (f : ℕ → ℕ) → 1 ≤ k → k ≤ n → f k ≤ total n f
unfolding total
le-total zero k f l r = absurd (omega arith)
le-total (suc n) k f l r = elim (ℕ_discrete k (suc n)) [
  | yes e ↦ rw e (omega arith)
  | no ne ↦ let tail = le-total n k f l (omega (arith, ne)) in omega arith
]

-- Two summands that differ at `d` alone.
pub total-swap :
    (n d : ℕ) (f g : ℕ → ℕ)
    → 1 ≤ d
    → d ≤ n
    → ((k : ℕ) → 1 ≤ k → k ≤ n → k ≢ d → f k ≡ g k)
    → total n f + g d ≡ total n g + f d
unfolding total
total-swap zero d f g l r h = absurd (omega arith)
total-swap (suc n) d f g l r h = elim (ℕ_discrete d (suc n)) [
  | yes e ↦
      let tail = total-ext n f g λ k p q. h k p (omega arith) (λ c. omega arith) in
      rw e (omega arith)
  | no ne ↦
      let tail = total-swap n d f g l (omega (arith, ne)) λ k p q c. h k p (omega arith) c in
      let last = h (suc n) (omega arith) (omega arith) (λ c. ne (omega arith)) in omega arith
]

pub total-le : (n : ℕ) (f : ℕ → ℕ) → ((k : ℕ) → f k ≤ 1) → total n f ≤ n
unfolding total
total-le zero f h = omega arith
total-le (suc n) f h = omega (arith, total-le n f h, h (suc n))
