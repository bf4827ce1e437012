-- ===== src/File/Deleting.antt =====
-- `deletePage` of src/file.cpp on both its branches.
use cs564_project.Prelude.{
  ℕ, ◌+◌, ◌^◌, ◌<◌, ◌≡◌, ◌≢◌, inl, inr, refl, true, false, ◌==◌, arith, List, [], ◌∷◌, sym, ap, ◌∙◌,
  ℕ_discrete,
}
use mathlib.Core.Path.{subst}
use cs564_project.Exceptions.{ok}
use cs564_project.Page.State.{Page, page_number, set_next_page_number}
use cs564_project.File.State.{FileHeader, File, blank_page, with_page, file_read_page, file_begin}
use cs564_project.File.Free.{find_previous, store_freed, file_delete_page}
use cs564_project.File.Chains.{
  Used, Lists, number_of, next_of, read_header-run, file_read_page-used,
}
use cs564_project.File.Linking.{Used-keep}
use cs564_project.File.Walk.{length-Used}
use cs564_project.File.Reusing.{file_begin-run}
use cs564_project.File.Previous.{
  In, prior, remove_page, Used-In, prior-Used, prior-lt, find_previous-prior, remove-Used,
  Used-weaken,
}
use cs564_project.File.FreeLaws.{
  Freed, cleared, freed_file, store_freed-one, store_freed-two, file-Freed,
}

-- What a deletion promises.
abbrev pub DeletesPage : File → List ℕ → List ℕ → ℕ → Type 0
DeletesPage f us fs n = (g : File) × (file_delete_page n f ≡ (ok tt, g)) × Freed f g us fs n

module _ (f : File) (x n : ℕ) (xs fs : List ℕ) (v : Lists f (x ∷ xs) fs)
    (few : f.header.num_free_pages + 1 < 2 ^ 32) where
  at_first : f.header.first_used_page ≡ x
  at_first = v.used.0

  reads : In n (x ∷ xs) → file_read_page n f ≡ (ok (f.pages n), f)
  reads is =
      let (low, high, own) =
        Used-In f.pages f.header.num_pages n 0 f.header.first_used_page (x ∷ xs) v.used is in
      file_read_page-used f n v.good v.extent low high own

  abbrev second_first : FileHeader
  second_first = record f.header { first_used_page = next_of f.pages n }

  delete_first : n ≡ x → DeletesPage f (x ∷ xs) fs n
  unfolding file_delete_page
  delete_first e =
      let (_, low, high, own, rest) = v.used in
      let ext = v.extent in
      let pages = with_page f.pages n (cleared (f.pages n) second_first) in
      let run = store_freed-one f n (f.pages n) second_first v.good (omega arith) in
      let front : (n == f.header.first_used_page) ≡ true = let at = at_first in ground arith in
      let here : (x == n) ≡ true = ground arith in
      let others : (k : ℕ) → k ≢ n → pages k ≡ f.pages k = λ k ne. ground arith in
      let used : Used pages f.header.num_pages 0 (next_of f.pages n) (remove_page n (x ∷ xs)) =
        rw here (
          Used-weaken pages f.header.num_pages x 0 (next_of f.pages n) xs
            (Used-keep f.pages pages f.header.num_pages f.header.num_pages x (next_of f.pages n) xs
              (subst (λ z. Used f.pages f.header.num_pages x (next_of f.pages z) xs) (sym e) rest)
              (omega arith) λ k a o. others k (λ q. omega arith))
            (omega arith)) in
      (
        freed_file f second_first n pages,
        rw (file_delete_page, read_header-run f v.good, reads (inl e), front) run,
        file-Freed f n (x ∷ xs) fs second_first pages v (inl e) few refl refl refl (ground arith)
            used
            (λ k ne. (
              ap (λ (p : Page). page_number p) (others k ne),
              ap (λ (p : Page). p.data_) (others k ne),
            ))
            (λ k ne low z. others k ne),
      )

  abbrev before_it : ℕ
  before_it = prior n x xs

  abbrev relinked : Page
  relinked = set_next_page_number (f.pages (prior n x xs)) (next_of f.pages n)

  relinked-numbers :
      (page_number relinked ≡ number_of f.pages (prior n x xs))
      × (relinked.header.next_page_number ≡ next_of f.pages n)
      × (relinked.data_ ≡ (f.pages (prior n x xs)).data_)
  unfolding set_next_page_number
  relinked-numbers = (refl, refl, refl)

  later_pages : ℕ → Page
  later_pages = with_page (with_page f.pages before_it relinked) n (cleared (f.pages n) f.header)

  later-others : (k : ℕ) → k ≢ n → k ≢ before_it → later_pages k ≡ f.pages k
  unfolding later_pages
  later-others k a b = ground arith

  later-cleared : later_pages n ≡ cleared (f.pages n) f.header
  unfolding later_pages
  later-cleared = ground arith

  later-before : n ≢ before_it → later_pages before_it ≡ relinked
  unfolding later_pages
  later-before ne = ground arith

  later-others-same :
      n ≢ before_it
      → (k : ℕ) → k ≢ n
      → (number_of later_pages k ≡ number_of f.pages k)
        × ((later_pages k).data_ ≡ (f.pages k).data_)
  later-others-same apart k ne = elim (ℕ_discrete k before_it) [
    | yes q ↦
        let at = later-before apart in
        let (num, _, bytes) = relinked-numbers in
        subst
          (λ z.
            (number_of later_pages z ≡ number_of f.pages z)
            × ((later_pages z).data_ ≡ (f.pages z).data_))
          (sym q) (ap (λ (p : Page). page_number p) at ∙ num, ap (λ (p : Page). p.data_) at ∙ bytes)
    | no q ↦
        let same = later-others k ne q in
        (ap (λ (p : Page). page_number p) same, ap (λ (p : Page). p.data_) same)
  ]

  later_run :
      0 < before_it
      → before_it < f.extent
      → n < f.extent
      → page_number relinked ≡ before_it
      → store_freed n (f.pages n) relinked f.header f ≡ (ok tt, freed_file f f.header n later_pages)
  unfolding later_pages
  later_run low high inside num =
      subst
        (λ z. store_freed n (f.pages n) relinked f.header f ≡ (
          ok tt,
          freed_file f f.header n
              (with_page (with_page f.pages z relinked) n (cleared (f.pages n) f.header)),
        ))
        num
        (store_freed-two f n (f.pages n) relinked f.header v.good inside (rw num low) (rw num high))

  delete_later : n ≢ x → In n xs → DeletesPage f (x ∷ xs) fs n
  unfolding file_delete_page
  delete_later ne is =
      let at = at_first in
      let (_, low, _, _, _) = v.used in
      let ext = v.extent in
      let chain : Used f.pages f.header.num_pages 0 x (x ∷ xs) =
        subst (λ z. Used f.pages f.header.num_pages 0 z (x ∷ xs)) at v.used in
      let (low_n, high_n, own_n) =
        Used-In f.pages f.header.num_pages n 0 f.header.first_used_page (x ∷ xs) v.used (inr is) in
      let (ge, high_p, own_p) = prior-Used f.pages f.header.num_pages n 0 x xs chain in
      let less = prior-lt f.pages f.header.num_pages n 0 x xs chain is in
      let apart : n ≢ before_it = λ q. omega arith in
      let size =
        length-Used f.pages f.header.num_pages 0 f.header.first_used_page (x ∷ xs) v.counted
          v.used in
      let (num, link, _) = relinked-numbers in
      let found =
        find_previous-prior f v.good v.extent n (next_of f.pages n) (f.header.num_pages + 1) 0 x
          blank_page xs chain is (omega arith) in
      let found' : find_previous (number_of f.pages n) (next_of f.pages n) (f.header.num_pages + 1)
            x blank_page f
          ≡ (ok relinked, f) =
        subst
          (λ z.
            find_previous z (next_of f.pages n) (f.header.num_pages + 1) x blank_page f
            ≡ (ok relinked, f))
          (sym own_n) found in
      let start : file_begin f ≡ (ok x, f) =
        subst (λ z. file_begin f ≡ (ok z, f)) at (file_begin-run f v.good) in
      let run = later_run (omega arith) (omega arith) (omega arith) (num ∙ own_p) in
      let front : (n == f.header.first_used_page) ≡ false = ground arith in
      let first_stays : (x == n) ≡ false = ground arith in
      let used : Used later_pages f.header.num_pages 0 x (x ∷ remove_page n xs) =
        remove-Used f.pages later_pages f.header.num_pages n 0 x xs chain is later-others
          (ap (λ (p : Page). page_number p) (later-before apart) ∙ num ∙ own_p)
          (ap (λ (p : Page). p.header.next_page_number) (later-before apart) ∙ link) in
      (
        freed_file f f.header n later_pages,
        rw (file_delete_page, read_header-run f v.good, reads (inr is), front, start, found') run,
        file-Freed f n (x ∷ xs) fs f.header later_pages v (inr is) few refl refl refl later-cleared
            (rw first_stays (
              subst (λ z. Used later_pages f.header.num_pages 0 z (x ∷ remove_page n xs)) (sym at)
                used))
            (later-others-same apart)
            (λ k a low z. later-others k a λ q.
              let own : number_of f.pages k ≡ k =
                subst (λ y. number_of f.pages y ≡ y) (sym q) own_p in
              omega arith),
      )

-- In a file whose lists are in order, where the count of free pages fits 32 bits, a used page is
-- deleted: it leaves the used pages, which stay in order, and becomes the first free
-- one; the other pages keep their numbers and contents.
pub file_delete_page-Freed :
    (f : File) (us fs : List ℕ) (n : ℕ)
    → Lists f us fs
    → In n us
    → f.header.num_free_pages + 1 < 2 ^ 32
    → DeletesPage f us fs n
file_delete_page-Freed f [] fs n v is few = absurd is
file_delete_page-Freed f (x ∷ xs) fs n v (inl e) few = delete_first f x n xs fs v few e
file_delete_page-Freed f (x ∷ xs) fs n v (inr is) few = elim (ℕ_discrete n x) [
  | yes e ↦ delete_first f x n xs fs v few e
  | no ne ↦ delete_later f x n xs fs v few ne is
]
