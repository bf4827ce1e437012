-- ===== src/Tests/Hash.antt =====
-- Runs of src/bufHashTbl.cpp.
use cs564_project.Prelude.{ℕ, ◌≡◌, refl, [], ◌∷◌, ◌⊎◌, arith, get_or, set, replicate}
use mathlib.Core.Path.{subst}
use cs564_project.Exceptions.{ok, err, hash_already_present, hash_not_found}
use cs564_project.HashTbl.{BufHashTbl, new, insert, lookup, remove, hash, find, unlink}
use cs564_project.HashTbl.Laws.{IsValid, new-IsValid, view-new, insert-Writes}
use cs564_project.HashTbl.Cases.{replaced, insert_cases, remove_cases}

abbrev small : BufHashTbl
small = new 3

small-IsValid : IsValid small
small-IsValid = new-IsValid 3 (omega arith)

abbrev filled : BufHashTbl
filled = record {
  htsize = 3;
  ht = [] ∷ [] ∷ (record { file = 4; page_no = 1; frame_no = 5 } ∷ []) ∷ [];
}

insert_run : insert small 4 1 5 ≡ ok filled
unfolding insert hash find new replicate get_or set
insert_run = refl

lookup_run : lookup filled 4 1 ≡ ok 5
unfolding lookup hash find get_or
lookup_run = refl

remove_run : remove filled 4 1 ≡ ok small
unfolding remove hash find unlink get_or set new replicate
remove_run = refl

filled-IsValid : IsValid filled
filled-IsValid =
    let (t, e, w) = insert-Writes small small-IsValid 4 1 5 (view-new 3 4 1) in
    let run = insert_run in let same : t ≡ filled = cc in subst IsValid same w.valid

insert_cases_example :
    ((lookup filled 4 1 ≡ err (hash_not_found 4 1))
      × ((t' : BufHashTbl) × (insert filled 4 1 6 ≡ ok t')
          × IsValid t'
          × ((g q : ℕ) → lookup t' g q ≡ replaced (lookup filled) 4 1 (ok 6) g q)))
    ⊎ ((j : ℕ) × (lookup filled 4 1 ≡ ok j)
        × (insert filled 4 1 6 ≡ err (hash_already_present 4 1 j)))
insert_cases_example = insert_cases filled 4 1 6 filled-IsValid

remove_cases_example :
    ((j : ℕ) × (lookup filled 4 1 ≡ ok j)
      × ((t' : BufHashTbl) × (remove filled 4 1 ≡ ok t')
          × IsValid t'
          × ((g q : ℕ)
              → lookup t' g q ≡ replaced (lookup filled) 4 1 (err (hash_not_found 4 1)) g q)))
    ⊎ ((lookup filled 4 1 ≡ err (hash_not_found 4 1))
        × (remove filled 4 1 ≡ err (hash_not_found 4 1)))
remove_cases_example = remove_cases filled 4 1 filled-IsValid
