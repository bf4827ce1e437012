-- ===== src/HashTbl/Laws.antt =====
-- The hash table of src/bufHashTbl.cpp as a map from keys to frames.
use cs564_project.Prelude.{
  ℕ, ◌≤◌, ◌<◌, ◌≡◌, refl, List, [], ◌∷◌, Option, none, some, ◌&&◌, ◌==◌, if◌then◌else◌, arith,
  length, set, length-set, length-replicate, get_or-replicate, get_or-set, Option-cases, inl, inr,
}
use cs564_project.Exceptions.{ok, err, hash_already_present, hash_not_found}
use cs564_project.HashTbl.Chain.{
  frame_of, count, find-some-key, count-eq-zero, count-unlink-le, find-unlink,
}
use cs564_project.HashTbl.{
  HashBucket, BufHashTbl, hash, new, find, unlink, chain_at, insert, lookup, remove,
}

-- The array has `htsize` chains, and no chain holds a key twice.
pub record IsValid (t : BufHashTbl) : Type 0 where
  pub pos : 0 < t.htsize
  pub width : length t.ht ≡ t.htsize
  pub unique : (f p i : ℕ) → count f p (chain_at t i) ≤ 1

-- The map that the table stands for.
unfoldable pub view : BufHashTbl → ℕ → ℕ → Option ℕ
view t f p = frame_of (find f p (chain_at t (hash t f p)))

pub hash-lt : (t : BufHashTbl) (f p : ℕ) → IsValid t → hash t f p < length t.ht
unfolding hash
hash-lt t f p v = let h : 0 < t.htsize = v.pos in omega (arith, v.width)

pub new-IsValid : (n : ℕ) → 0 < n → IsValid (new n)
unfolding new count
new-IsValid n h = record {
  pos = h;
  width = length-replicate n [];
  unique = λ f p i. rw get_or-replicate (omega arith);
}

pub view-new : (n f p : ℕ) → view (new n) f p ≡ none
unfolding view new find
view-new n f p = rw get_or-replicate

pub lookup-view :
    (t : BufHashTbl) (f p : ℕ)
    → lookup t f p ≡ elim (view t f p) [ some k ↦ ok k | none ↦ err (hash_not_found f p) ]
unfolding lookup view
lookup-view t f p = ground arith

-- What a write of `v` at the key (f, p) does to the map.
abbrev pub update : (ℕ → ℕ → Option ℕ) → ℕ → ℕ → Option ℕ → ℕ → ℕ → Option ℕ
update m f p v g q = if f == g && p == q then v else m g q

-- `t'` is `t` with the map written at the key.
pub record Writes (t : BufHashTbl) (f p : ℕ) (v : Option ℕ) (t' : BufHashTbl) : Type 0 where
  pub valid : IsValid t'
  pub reads : (g q : ℕ) → view t' g q ≡ update (view t) f p v g q

module _ (t : BufHashTbl) (valid : IsValid t) (f p : ℕ) where
  home_chain : List HashBucket
  home_chain = chain_at t (hash t f p)

  -- Both writes replace the chain of the key by some `c`.
  set-Writes :
      (v : Option ℕ) (c : List HashBucket)
      → ((g q : ℕ) → count g q c ≤ 1)
      → ((g q : ℕ)
          → frame_of (find g q c) ≡ update (λ a b. frame_of (find a b home_chain)) f p v g q)
      → Writes t f p v (record t { ht = set t.ht (hash t f p) c })
  unfolding view home_chain hash
  set-Writes v c few reads = record {
    valid = record {
      pos = valid.pos;
      width = rw length-set valid.width;
      unique = λ g q j.
          rw (get_or-set t.ht (hash t f p) j c [] (hash-lt t f p valid))
            (ground (arith, few g q, valid.unique g q j));
    };
    reads = λ g q.
        rw (get_or-set t.ht (hash t f p) (hash t g q) c [] (hash-lt t f p valid))
          (ground (arith, reads g q));
  }

  view-home : view t f p ≡ frame_of (find f p home_chain)
  unfolding view home_chain
  view-home = refl

  absent_chain : view t f p ≡ none → find f p home_chain ≡ none
  absent_chain e = ground (arith, view-home)

  -- `insert` of an absent key succeeds, and writes the map there.
  pub insert-Writes :
      (k : ℕ)
      → view t f p ≡ none
      → (t' : BufHashTbl) × (insert t f p k ≡ ok t') × Writes t f p (some k) t'
  unfolding insert home_chain count find
  insert-Writes k absent =
      let node : HashBucket = record { file = f; page_no = p; frame_no = k } in
      let empty = absent_chain absent in
      (
        record t { ht = set t.ht (hash t f p) (node ∷ home_chain) },
        ground (arith, empty),
        set-Writes (some k) (node ∷ home_chain)
            (λ g q.
              ground (arith, valid.unique g q (hash t f p), count-eq-zero g q home_chain, empty))
            (λ g q. ground arith),
      )

  -- `insert` of a key that is there throws, and names the frame that holds it.
  pub insert-present :
      (k j : ℕ) → view t f p ≡ some j → insert t f p k ≡ err (hash_already_present f p j)
  unfolding insert view
  insert-present k j there = elim (Option-cases (find f p (chain_at t (hash t f p)))) [
    | inl e ↦ ground arith
    | inr (b, e) ↦ ground (arith, find-some-key f p (chain_at t (hash t f p)) b e)
  ]

  -- `remove` of a key that is there succeeds, and clears the map there.
  pub remove-Writes :
      (j : ℕ)
      → view t f p ≡ some j
      → (t' : BufHashTbl) × (remove t f p ≡ ok t') × Writes t f p none t'
  unfolding remove home_chain
  remove-Writes j there = (
    record t { ht = set t.ht (hash t f p) (unlink f p home_chain) },
    ground (arith, view-home),
    set-Writes none (unlink f p home_chain)
        (λ g q. omega (arith, valid.unique g q (hash t f p), count-unlink-le f p g q home_chain))
        (λ g q. ground (arith, find-unlink f p g q home_chain (valid.unique g q (hash t f p)))),
  )

  -- `remove` of an absent key throws.
  pub remove-absent : view t f p ≡ none → remove t f p ≡ err (hash_not_found f p)
  unfolding remove view
  remove-absent e = ground arith
