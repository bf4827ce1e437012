-- ===== src/File/Places.antt =====
-- The loops of `allocatePage` of src/file.cpp over the used pages, and the lists that the new links make.
use cs564_project.Prelude.{
  ℕ, zero, suc, ◌<◌, ◌≡◌, inl, inr, refl, true, false, ◌||◌, ltb, ◌==◌, arith, if◌then◌else◌, List,
  [], ◌∷◌, length, Bool-cases,
}
use mathlib.Core.Path.{subst}
use cs564_project.Exceptions.{ok}
use cs564_project.Effects.{bind_result}
use cs564_project.File.State.{File, file_next}
use cs564_project.File.Alloc.{find_place, find_tail}
use cs564_project.File.Chains.{Used, next_of, file_read_page-used, file_next-run}

-- The last of the pages `x` and `xs`.
abbrev pub last : ℕ → List ℕ → ℕ
last x [] = x
last x (y ∷ ys) = last y ys

-- Where `n` comes in an ascending list: the page before it and the page after it, 0 for none.
abbrev pub before : ℕ → ℕ → List ℕ → ℕ
before n x [] = x
before n x (y ∷ ys) = if ltb n y then x else before n y ys

abbrev pub insert_sorted : ℕ → List ℕ → List ℕ
insert_sorted n [] = n ∷ []
insert_sorted n (x ∷ xs) = if ltb n x then n ∷ x ∷ xs else x ∷ insert_sorted n xs

module _ (f : File) (good : f.good ≡ true) (extent : f.extent ≡ f.header.num_pages) where
  -- The loop for the tail returns the last of the used pages.
  pub find_tail-last :
      (fuel m x : ℕ) (xs : List ℕ)
      → Used f.pages f.header.num_pages m x (x ∷ xs)
      → length xs < fuel
      → find_tail fuel x f ≡ (ok (f.pages (last x xs)), f)
  unfolding find_tail
  find_tail-last zero m x xs u more = absurd (omega arith)
  find_tail-last (suc fuel) m x [] (_, low, high, own, end) more =
      let positive : (x == 0) ≡ false = ground arith in
      let stop : (next_of f.pages x == 0) ≡ true = ground arith in
      let read = file_read_page-used f x good extent (omega arith) high own in
      rw (find_tail, positive, read, bind_result, stop) read
  find_tail-last (suc fuel) m x (y ∷ ys) (_, low, high, own, (link, low_y, high_y, own_y, rest))
        more =
      let positive : (x == 0) ≡ false = ground arith in
      let go : (next_of f.pages x == 0) ≡ false = ground arith in
      let read = file_read_page-used f x good extent (omega arith) high own in
      let step : file_next x f ≡ (ok y, f) =
        subst (λ z. file_next x f ≡ (ok z, f)) link
          (file_next-run f x good extent (omega arith) high) in
      let tail = find_tail-last fuel x y ys (refl, low_y, high_y, own_y, rest) (omega arith) in
      rw (find_tail, positive, read, bind_result, go, step) tail

  -- The loop for a page that is used again returns the page before it, with that page's link.
  pub find_place-before :
      (n fuel m x l : ℕ) (xs : List ℕ)
      → Used f.pages f.header.num_pages m x (x ∷ xs)
      → length xs < fuel
      → find_place n fuel x l f ≡ (
        ok (record {
          existing_page = f.pages (before n x xs);
          next_page_number = next_of f.pages (before n x xs);
        }),
        f,
      )
  unfolding find_place
  find_place-before n zero m x l xs u more = absurd (omega arith)
  find_place-before n (suc fuel) m x l [] (_, low, high, own, end) more =
      let positive : (x == 0) ≡ false = ground arith in
      let stop : (ltb n (next_of f.pages x) || next_of f.pages x == 0) ≡ true = ground arith in
      let read = file_read_page-used f x good extent (omega arith) high own in
      rw (find_place, positive, read, bind_result, stop, read) refl
  find_place-before n (suc fuel) m x l (y ∷ ys)
        (_, low, high, own, (link, low_y, high_y, own_y, rest)) more =
      let positive : (x == 0) ≡ false = ground arith in
      let read = file_read_page-used f x good extent (omega arith) high own in
      let step : file_next x f ≡ (ok y, f) =
        subst (λ z. file_next x f ≡ (ok z, f)) link
          (file_next-run f x good extent (omega arith) high) in
      elim (Bool-cases (ltb n y)) [
        | inl here ↦
            let stop : (ltb n (next_of f.pages x) || next_of f.pages x == 0) ≡ true =
              ground arith in
            rw (find_place, positive, read, bind_result, stop, read, here) refl
        | inr later ↦
            let go : (ltb n (next_of f.pages x) || next_of f.pages x == 0) ≡ false = ground arith in
            let tail =
              find_place-before n fuel x y (next_of f.pages x) ys (refl, low_y, high_y, own_y, rest)
                (omega arith) in
            rw (find_place, positive, read, bind_result, go, step, later) tail
      ]
