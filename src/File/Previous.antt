-- ===== src/File/Previous.antt =====
-- The loop of `deletePage` of src/file.cpp over the used pages, and the list without a page.
use cs564_project.Prelude.{
  ℕ, zero, suc, ◌≤◌, ◌<◌, ◌≡◌, ◌≢◌, ◌⊎◌, inl, inr, refl, true, false, ◌==◌, arith, if◌then◌else◌,
  List, [], ◌∷◌, length, sym, ap, ◌∙◌, Bool-cases,
}
use mathlib.Core.Path.{subst}
use cs564_project.Exceptions.{ok}
use cs564_project.Effects.{bind_result}
use cs564_project.Page.State.{Page, page_number, set_next_page_number}
use cs564_project.File.State.{File, file_next}
use cs564_project.File.Free.{find_previous}
use cs564_project.File.Chains.{Used, number_of, next_of, file_read_page-used, file_next-run}
use cs564_project.File.Linking.{Used-keep}

abbrev pub In : ℕ → List ℕ → Type 0
In n [] = ⊥
In n (x ∷ xs) = (n ≡ x) ⊎ In n xs

-- The page of the list that comes before `n`.
abbrev pub prior : ℕ → ℕ → List ℕ → ℕ
prior n x [] = x
prior n x (y ∷ ys) = if y == n then x else prior n y ys

abbrev pub remove_page : ℕ → List ℕ → List ℕ
remove_page n [] = []
remove_page n (x ∷ xs) = if x == n then xs else x ∷ remove_page n xs

pub Used-In :
    (pages : ℕ → Page) (count n m h : ℕ) (us : List ℕ)
    → Used pages count m h us
    → In n us
    → (m < n) × (n < count) × (number_of pages n ≡ n)
Used-In pages count n m h [] u i = absurd i
Used-In pages count n m h (x ∷ xs) (at, low, high, own, rest) (inl e) =
    subst (λ z. (m < z) × (z < count) × (number_of pages z ≡ z)) (sym e) (low, high, own)
Used-In pages count n m h (x ∷ xs) (at, low, high, own, rest) (inr i) =
    let (a, b, c) = Used-In pages count n x (next_of pages x) xs rest i in (omega arith, b, c)

-- The page before is a used one.
pub prior-Used :
    (pages : ℕ → Page) (count n m x : ℕ) (xs : List ℕ)
    → Used pages count m x (x ∷ xs)
    → (x ≤ prior n x xs) × (prior n x xs < count) × (number_of pages (prior n x xs) ≡ prior n x xs)
prior-Used pages count n m x [] (_, low, high, own, end) = (omega arith, high, own)
prior-Used pages count n m x (y ∷ ys) (_, low, high, own, (link, low_y, high_y, own_y, rest)) =
    let tail = prior-Used pages count n x y ys (refl, low_y, high_y, own_y, rest) in
    elim (Bool-cases (y == n)) [
      | inl here ↦ rw here (omega arith, high, own)
      | inr later ↦ rw later (omega arith, tail.1, tail.2)
    ]

pub prior-lt :
    (pages : ℕ → Page) (count n m x : ℕ) (xs : List ℕ)
    → Used pages count m x (x ∷ xs)
    → In n xs
    → prior n x xs < n
prior-lt pages count n m x [] u i = absurd i
prior-lt pages count n m x (y ∷ ys) (_, low, high, own, (link, low_y, high_y, own_y, rest)) i =
    elim (Bool-cases (y == n)) [
      | inl here ↦ rw here (ground arith)
      | inr later ↦ elim i [
        | inl e ↦ absurd (ground arith)
        | inr j ↦ rw later (prior-lt pages count n x y ys (refl, low_y, high_y, own_y, rest) j)
      ]
    ]

module _ (f : File) (good : f.good ≡ true) (extent : f.extent ≡ f.header.num_pages) where
  -- The loop returns the page before, linked over the page.
  pub find_previous-prior :
      (n next fuel m x : ℕ) (last : Page) (xs : List ℕ)
      → Used f.pages f.header.num_pages m x (x ∷ xs)
      → In n xs
      → length xs < fuel
      → find_previous n next fuel x last f
        ≡ (ok (set_next_page_number (f.pages (prior n x xs)) next), f)
  unfolding find_previous
  find_previous-prior n next fuel m x last [] u i more = absurd i
  find_previous-prior n next zero m x last (y ∷ ys) u i more = absurd (omega arith)
  find_previous-prior n next (suc fuel) m x last (y ∷ ys)
        (_, low, high, own, (link, low_y, high_y, own_y, rest)) i more =
      let positive : (x == 0) ≡ false = ground arith in
      let read = file_read_page-used f x good extent (omega arith) high own in
      let step : file_next x f ≡ (ok y, f) =
        subst (λ z. file_next x f ≡ (ok z, f)) link
          (file_next-run f x good extent (omega arith) high) in
      elim (Bool-cases (y == n)) [
        | inl here ↦
            let stop : (next_of f.pages x == n) ≡ true = ground arith in
            rw (find_previous, positive, read, bind_result, stop, here) refl
        | inr later ↦
            let go : (next_of f.pages x == n) ≡ false = ground arith in
            elim i [
              | inl e ↦ absurd (ground arith)
              | inr j ↦
                  let tail =
                    find_previous-prior n next fuel x y (f.pages x) ys
                      (refl, low_y, high_y, own_y, rest) j (omega arith) in
                  rw (find_previous, positive, read, bind_result, go, step, later) tail
            ]
      ]

pub Used-weaken :
    (pages : ℕ → Page) (count m m' h : ℕ) (us : List ℕ)
    → Used pages count m h us
    → m' ≤ m
    → Used pages count m' h us
Used-weaken pages count m m' h [] u le = u
Used-weaken pages count m m' h (x ∷ xs) (at, low, high, own, rest) le =
    (at, omega arith, high, own, rest)

-- The used pages without `n`, once the page before it is linked over it.
pub remove-Used :
    (pages pages' : ℕ → Page) (count n m x : ℕ) (xs : List ℕ)
    → Used pages count m x (x ∷ xs)
    → In n xs
    → ((k : ℕ) → k ≢ n → k ≢ prior n x xs → pages' k ≡ pages k)
    → number_of pages' (prior n x xs) ≡ prior n x xs
    → next_of pages' (prior n x xs) ≡ next_of pages n
    → Used pages' count m x (x ∷ remove_page n xs)
remove-Used pages pages' count n m x [] u i same own_p link_p = absurd i
remove-Used pages pages' count n m x (y ∷ ys)
      (_, low, high, own, (link, low_y, high_y, own_y, rest)) i same own_p link_p =
    elim (Bool-cases (y == n)) [
      | inl here ↦
          let e : prior n x (y ∷ ys) ≡ x = rw here refl in
          let is : y ≡ n = ground arith in
          let after : Used pages' count y (next_of pages y) ys =
            Used-keep pages pages' count count y (next_of pages y) ys rest (omega arith)
              λ k a o. same k (λ q. omega arith) (λ q. omega arith) in
          let to : next_of pages' x ≡ next_of pages y =
            subst (λ z. next_of pages' z ≡ next_of pages n) e link_p
            ∙ ap (next_of pages) (sym is) in
          rw here (
            refl,
            low,
            high,
            subst (λ z. number_of pages' z ≡ z) e own_p,
            subst (λ z. Used pages' count x z ys) (sym to)
                (Used-weaken pages' count y x (next_of pages y) ys after (omega arith)),
          )
      | inr later ↦
          let e : prior n x (y ∷ ys) ≡ prior n y ys = rw later refl in
          let in_tail : Used pages count x y (y ∷ ys) = (refl, low_y, high_y, own_y, rest) in
          elim i [
            | inl q ↦ absurd (ground arith)
            | inr j ↦
                let ge = (prior-Used pages count n x y ys in_tail).0 in
                let n_in = Used-In pages count n y (next_of pages y) ys rest j in
                let keep : pages' x ≡ pages x = same x (λ q. omega arith) (λ q. omega arith) in
                let tail =
                  remove-Used pages pages' count n x y ys in_tail j
                    (λ k a b. same k a (λ q. b (q ∙ e)))
                    (subst (λ z. number_of pages' z ≡ z) e own_p)
                    (subst (λ z. next_of pages' z ≡ next_of pages n) e link_p) in
                rw later (
                  refl,
                  low,
                  high,
                  ap (λ (p : Page). page_number p) keep ∙ own,
                  subst (λ z. Used pages' count x z (y ∷ remove_page n ys))
                      (sym (ap (λ (p : Page). p.header.next_page_number) keep ∙ link)) tail,
                )
          ]
    ]
