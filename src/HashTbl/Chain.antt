-- ===== src/HashTbl/Chain.antt =====
-- The walks of src/bufHashTbl.cpp along one chain.
use cs564_project.Prelude.{
  ℕ, ◌+◌, ◌≤◌, ◌≡◌, refl, List, [], ◌∷◌, Option, none, some, ◌&&◌, ◌==◌, if◌then◌else◌, arith,
}
use cs564_project.HashTbl.{HashBucket, matches, find, unlink}

abbrev pub frame_of : Option HashBucket → Option ℕ
frame_of none = none
frame_of (some b) = some b.frame_no

-- How often a key stands in a chain.
unfoldable pub count : ℕ → ℕ → List HashBucket → ℕ
count f p [] = 0
count f p (b ∷ bs) = (if matches f p b then 1 else 0) + count f p bs

pub find-some-key :
    (f p : ℕ) (c : List HashBucket) (b : HashBucket)
    → find f p c ≡ some b
    → (b.file ≡ f) × (b.page_no ≡ p)
unfolding find
find-some-key f p [] b h = ground arith
find-some-key f p (x ∷ c) b h = ground (arith, find-some-key f p c b)

pub find-eq-none : (f p : ℕ) (c : List HashBucket) → count f p c ≡ 0 → find f p c ≡ none
unfolding find count
find-eq-none f p [] h = refl
find-eq-none f p (x ∷ c) h = ground (arith, find-eq-none f p c)

pub count-eq-zero : (f p : ℕ) (c : List HashBucket) → find f p c ≡ none → count f p c ≡ 0
unfolding find count
count-eq-zero f p [] h = refl
count-eq-zero f p (x ∷ c) h = ground (arith, count-eq-zero f p c)

pub count-unlink-le : (f p g q : ℕ) (c : List HashBucket) → count g q (unlink f p c) ≤ count g q c
unfolding unlink count
count-unlink-le f p g q [] = omega arith
count-unlink-le f p g q (x ∷ c) = ground (arith, count-unlink-le f p g q c)

-- With each key at most once, unlinking a key clears it and keeps every other.
pub find-unlink :
    (f p g q : ℕ) (c : List HashBucket)
    → count g q c ≤ 1
    → find g q (unlink f p c) ≡ (if f == g && p == q then none else find g q c)
unfolding unlink find count
find-unlink f p g q [] h = ground arith
find-unlink f p g q (x ∷ c) h = ground (arith, find-unlink f p g q c, find-eq-none g q c)
