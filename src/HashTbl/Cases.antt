-- ===== src/HashTbl/Cases.antt =====
-- The hash table of src/bufHashTbl.cpp, call by call, as its clients see it through lookup.
use cs564_project.Prelude.{
  ℕ, ◌≡◌, ◌⊎◌, none, some, ◌&&◌, ◌==◌, if◌then◌else◌, arith, Option-cases, inl, inr,
}
use cs564_project.Exceptions.{Result, ok, err, hash_already_present, hash_not_found}
use cs564_project.HashTbl.{BufHashTbl, insert, lookup, remove}
use cs564_project.HashTbl.Laws.{
  IsValid, view, Writes, lookup-view, insert-Writes, insert-present, remove-Writes, remove-absent,
}

-- The answers of `lookup`, with the one for the key (f, p) replaced.
abbrev pub replaced : (ℕ → ℕ → Result ℕ) → (f p : ℕ) → Result ℕ → (ℕ → ℕ → Result ℕ)
replaced m f p r g q = if f == g && p == q then r else m g q

lookup-some : (t : BufHashTbl) (f p k : ℕ) → view t f p ≡ some k → lookup t f p ≡ ok k
lookup-some t f p k e = rw (lookup-view, e)

lookup-none :
    (t : BufHashTbl) (f p : ℕ) → view t f p ≡ none → lookup t f p ≡ err (hash_not_found f p)
lookup-none t f p e = rw (lookup-view, e)

lookup-Writes-some :
    (t t' : BufHashTbl) (f p k g q : ℕ)
    → Writes t f p (some k) t'
    → lookup t' g q ≡ replaced (lookup t) f p (ok k) g q
lookup-Writes-some t t' f p k g q w =
    ground (arith, w.reads g q, lookup-view t g q, lookup-view t' g q)

lookup-Writes-none :
    (t t' : BufHashTbl) (f p g q : ℕ)
    → Writes t f p none t'
    → lookup t' g q ≡ replaced (lookup t) f p (err (hash_not_found f p)) g q
lookup-Writes-none t t' f p g q w =
    ground (arith, w.reads g q, lookup-view t g q, lookup-view t' g q)

-- On a valid table, `insert` of a key that `lookup` does not find succeeds with a valid table, in
-- which `lookup` finds the frame at the key and answers as before at all others; of a key that
-- `lookup` finds, it throws HashAlreadyPresentException with the frame that is there.
pub insert_cases :
    (t : BufHashTbl) (f p k : ℕ)
    → IsValid t
    → ((lookup t f p ≡ err (hash_not_found f p))
        × ((t' : BufHashTbl) × (insert t f p k ≡ ok t')
            × IsValid t'
            × ((g q : ℕ) → lookup t' g q ≡ replaced (lookup t) f p (ok k) g q)))
      ⊎ ((j : ℕ) × (lookup t f p ≡ ok j) × (insert t f p k ≡ err (hash_already_present f p j)))
insert_cases t f p k v = elim (Option-cases (view t f p)) [
  | inl absent ↦
      let (t', e, w) = insert-Writes t v f p k absent in
      inl (lookup-none t f p absent, (t', e, w.valid, λ g q. lookup-Writes-some t t' f p k g q w))
  | inr (j, there) ↦ inr (j, lookup-some t f p j there, insert-present t v f p k j there)
]

-- On a valid table, `remove` of a key that `lookup` finds succeeds with a valid table, in which
-- `lookup` does not find the key and answers as before at all others; of a key that `lookup` does
-- not find, it throws HashNotFoundException.
pub remove_cases :
    (t : BufHashTbl) (f p : ℕ)
    → IsValid t
    → ((j : ℕ) × (lookup t f p ≡ ok j)
        × ((t' : BufHashTbl) × (remove t f p ≡ ok t')
            × IsValid t'
            × ((g q : ℕ) → lookup t' g q ≡ replaced (lookup t) f p (err (hash_not_found f p)) g q)))
      ⊎ ((lookup t f p ≡ err (hash_not_found f p)) × (remove t f p ≡ err (hash_not_found f p)))
remove_cases t f p v = elim (Option-cases (view t f p)) [
  | inl absent ↦ inr (lookup-none t f p absent, remove-absent t v f p absent)
  | inr (j, there) ↦
      let (t', e, w) = remove-Writes t v f p j there in
      inl (j, lookup-some t f p j there, (t', e, w.valid, λ g q. lookup-Writes-none t t' f p g q w))
]
