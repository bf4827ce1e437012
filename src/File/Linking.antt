-- ===== src/File/Linking.antt =====
-- The lists of a file of src/file.cpp when a page is linked into the used ones.
use cs564_project.Prelude.{
  ℕ, ◌≤◌, ◌<◌, ◌≡◌, ◌≢◌, inl, inr, refl, ltb, arith, List, [], ◌∷◌, sym, ap, ◌∙◌, Bool-cases,
}
use mathlib.Core.Path.{subst}
use cs564_project.Page.State.{Page, page_number}
use cs564_project.File.Chains.{Used, Free, Absent, number_of, next_of}
use cs564_project.File.Places.{before, insert_sorted}

-- Used pages that are as they were.
pub Used-keep :
    (pages pages' : ℕ → Page) (count count' m h : ℕ) (us : List ℕ)
    → Used pages count m h us
    → count ≤ count'
    → ((k : ℕ) → m < k → number_of pages k ≡ k → pages' k ≡ pages k)
    → Used pages' count' m h us
Used-keep pages pages' count count' m h [] u c same = u
Used-keep pages pages' count count' m h (x ∷ xs) (at, low, high, own, rest) c same =
    let e : pages' x ≡ pages x = same x low own in
    let tail =
      Used-keep pages pages' count count' x (next_of pages x) xs rest c
        λ k a o. same k (omega arith) o in
    (
      at,
      low,
      omega arith,
      ap (λ (p : Page). page_number p) e ∙ own,
      subst (λ (p : Page). Used pages' count' x p.header.next_page_number xs) (sym e) tail,
    )

-- The bound below the first page.
pub Used-above :
    (pages : ℕ → Page) (count m m' x : ℕ) (xs : List ℕ)
    → Used pages count m x (x ∷ xs)
    → m' < x
    → Used pages count m' x (x ∷ xs)
Used-above pages count m m' x xs (at, low, high, own, rest) h = (at, h, high, own, rest)

-- The page that comes before is one of the list.
pub le-before :
    (pages : ℕ → Page) (count n m x : ℕ) (xs : List ℕ)
    → Used pages count m x (x ∷ xs)
    → (x ≤ before n x xs)
      × (before n x xs < count)
      × (number_of pages (before n x xs) ≡ before n x xs)
le-before pages count n m x [] (_, low, high, own, end) = (omega arith, high, own)
le-before pages count n m x (y ∷ ys) (_, low, high, own, (link, low_y, high_y, own_y, rest)) =
    let tail = le-before pages count n x y ys (refl, low_y, high_y, own_y, rest) in
    elim (Bool-cases (ltb n y)) [
      | inl here ↦ rw here (omega arith, high, own)
      | inr later ↦ rw later (omega arith, tail.1, tail.2)
    ]

pub insert-Used :
    (pages pages' : ℕ → Page) (count count' n m x : ℕ) (xs : List ℕ)
    → Used pages count m x (x ∷ xs)
    → count ≤ count'
    → x < n
    → n < count'
    → Absent n xs
    → ((k : ℕ) → k ≢ n → k ≢ before n x xs → pages' k ≡ pages k)
    → number_of pages' (before n x xs) ≡ before n x xs
    → next_of pages' (before n x xs) ≡ n
    → number_of pages' n ≡ n
    → next_of pages' n ≡ next_of pages (before n x xs)
    → Used pages' count' m x (x ∷ insert_sorted n xs)
insert-Used pages pages' count count' n m x [] (_, low, high, own, end) c up top ab same own_e to
      own_n from =
    (refl, low, omega arith, own_e, (to, up, top, own_n, from ∙ end))
insert-Used pages pages' count count' n m x (y ∷ ys)
      (_, low, high, own, (link, low_y, high_y, own_y, rest)) c up top (ne, ab) same own_e to own_n
      from =
    elim (Bool-cases (ltb n y)) [
      | inl here ↦
          let e : before n x (y ∷ ys) ≡ x = rw here refl in
          let after : Used pages' count' n y (y ∷ ys) =
            Used-keep pages pages' count count' n y (y ∷ ys)
              (refl, ground arith, high_y, own_y, rest) c
              λ k a o. same k (omega arith) (λ q. omega arith) in
          let from' : next_of pages' n ≡ y = from ∙ ap (next_of pages) e ∙ link in
          rw here (
            refl,
            low,
            omega arith,
            subst (λ z. number_of pages' z ≡ z) e own_e,
            (
              subst (λ z. next_of pages' z ≡ n) e to,
              up,
              top,
              own_n,
              subst (λ z. Used pages' count' n z (y ∷ ys)) (sym from') after,
            ),
          )
      | inr later ↦
          let e : before n x (y ∷ ys) ≡ before n y ys = rw later refl in
          let in_tail : Used pages count x y (y ∷ ys) = (refl, low_y, high_y, own_y, rest) in
          let ge = (le-before pages count n x y ys in_tail).0 in
          let less : y < n = ground arith in
          let keep : pages' x ≡ pages x = same x (λ q. omega arith) (λ q. omega arith) in
          let tail =
            insert-Used pages pages' count count' n x y ys in_tail c less top ab
              (λ k a b. same k a (λ q. b (q ∙ e))) (subst (λ z. number_of pages' z ≡ z) e own_e)
              (subst (λ z. next_of pages' z ≡ n) e to) own_n (from ∙ ap (next_of pages) e) in
          rw later (
            refl,
            low,
            omega arith,
            ap (λ (p : Page). page_number p) keep ∙ own,
            subst (λ z. Used pages' count' x z (y ∷ insert_sorted n ys))
                (sym (ap (λ (p : Page). p.header.next_page_number) keep ∙ link)) tail,
          )
    ]

-- Free pages that are as they were.
pub Free-keep :
    (pages pages' : ℕ → Page) (count count' n h : ℕ) (fs : List ℕ)
    → Free pages count h fs
    → count ≤ count'
    → Absent n fs
    → ((k : ℕ) → k ≢ n → 0 < k → number_of pages k ≡ 0 → pages' k ≡ pages k)
    → Free pages' count' h fs
Free-keep pages pages' count count' n h [] u c ab same = u
Free-keep pages pages' count count' n h (x ∷ xs) (at, low, high, free, once, rest) c (ne, ab) same =
    let e : pages' x ≡ pages x = same x (λ q. ne (sym q)) low free in
    let tail = Free-keep pages pages' count count' n (next_of pages x) xs rest c ab same in
    (
      at,
      low,
      omega arith,
      ap (λ (p : Page). page_number p) e ∙ free,
      once,
      subst (λ (p : Page). Free pages' count' p.header.next_page_number xs) (sym e) tail,
    )

-- A page that is not a used one is not among the used ones.
pub Used-Absent :
    (pages : ℕ → Page) (count n m h : ℕ) (us : List ℕ)
    → Used pages count m h us
    → (m < n → n < count → number_of pages n ≡ n → ⊥)
    → Absent n us
Used-Absent pages count n m h [] u no_page = tt
Used-Absent pages count n m h (x ∷ xs) (at, low, high, own, rest) no_page = (
  λ e.
      no_page (subst (λ z. m < z) (sym e) low) (subst (λ z. z < count) (sym e) high)
        (subst (λ z. number_of pages z ≡ z) (sym e) own),
  Used-Absent pages count n x (next_of pages x) xs rest λ a. no_page (omega arith),
)

pub before-ne : (n x : ℕ) (xs : List ℕ) → Absent n (x ∷ xs) → n ≢ before n x xs
before-ne n x [] (ne, _) = ne
before-ne n x (y ∷ ys) (ne, ab) = elim (Bool-cases (ltb n y)) [
  | inl here ↦ rw here ne
  | inr later ↦ rw later (before-ne n y ys ab)
]
