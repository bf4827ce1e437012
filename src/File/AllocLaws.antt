-- ===== src/File/AllocLaws.antt =====
-- `allocatePage` of src/file.cpp on a file whose lists are in order.
use cs564_project.Prelude.{
  ℕ, ◌+◌, ◌^◌, ◌≤◌, ◌<◌, ◌≡◌, ◌≢◌, refl, true, false, ltb, arith, if◌then◌else◌, List, [], ◌∷◌,
  length, sym, ap, ◌∙◌, ℕ_discrete,
}
use mathlib.Core.Path.{subst}
use cs564_project.Exceptions.{ok}
use cs564_project.Page.State.{Page, page_number, set_next_page_number}
use cs564_project.File.State.{FileHeader, File, with_page}
use cs564_project.File.Alloc.{store_pages}
use cs564_project.File.Chains.{Used, Free, Absent, Lists, number_of, next_of}
use cs564_project.File.Store.{store_pages-two}
use cs564_project.File.Places.{before, insert_sorted}
use cs564_project.File.Linking.{le-before, before-ne, insert-Used, Free-keep}

-- The page that is allocated: the first free one, else a new one at the end; and the other free ones.
abbrev pub allocated : File → List ℕ → ℕ
allocated f [] = f.header.num_pages
allocated f (n ∷ _) = n

abbrev pub others_free : List ℕ → List ℕ
others_free [] = []
others_free (_ ∷ fs) = fs

-- The page `n` is in its place among the used ones, and the other pages have what they had.
pub record Allocated (f g : File) (us fs : List ℕ) (n : ℕ) : Type 0 where
  pub lists : Lists g (insert_sorted n us) fs
  pub fresh : Absent n us
  pub own : number_of g.pages n ≡ n
  pub same_numbers : (k : ℕ) → k ≢ n → number_of g.pages k ≡ number_of f.pages k
  pub same_data : (k : ℕ) → k ≢ n → (g.pages k).data_ ≡ (f.pages k).data_

-- What both branches know of the new page and of the header.
pub record Ready (f : File) (us fs : List ℕ) (n : ℕ) (new_page : Page) (h : FileHeader)
    : Type 0 where
  pub number : page_number new_page ≡ n
  pub positive : 0 < n
  pub inside : n < h.num_pages
  pub grows : f.header.num_pages ≤ h.num_pages
  pub small : h.num_pages + 1 < 2 ^ 32
  pub extent : (if ltb n f.extent then f.extent else n + 1) ≡ h.num_pages
  pub fresh : Absent n us
  pub free : Free f.pages f.header.num_pages h.first_free_page fs
  pub apart : Absent n fs
  pub num_free : h.num_free_pages ≡ length fs

-- With the page linked behind another.
module _ (f : File) (x n : ℕ) (xs old fs : List ℕ) (new_page : Page) (h : FileHeader)
    (v : Lists f (x ∷ xs) old) (rd : Ready f (x ∷ xs) fs n new_page h) (less : x < n)
    (first : h.first_used_page ≡ f.header.first_used_page)
    (link : new_page.header.next_page_number ≡ next_of f.pages (before n x xs)) where
  e : ℕ
  e = before n x xs

  linked : File
  linked = record {
    filename = f.filename;
    good = true;
    header = h;
    extent = if ltb n f.extent then f.extent else n + 1;
    pages = with_page (with_page f.pages n new_page) e (set_next_page_number (f.pages e) n);
  }

  e_facts : (x ≤ e) × (e < f.header.num_pages) × (number_of f.pages e ≡ e)
  unfolding e
  e_facts =
      le-before f.pages f.header.num_pages n 0 x xs
        (subst (λ z. Used f.pages f.header.num_pages 0 z (x ∷ xs)) v.used.0 v.used)

  e_ne : n ≢ e
  unfolding e
  e_ne = before-ne n x xs rd.fresh

  store-linked :
      store_pages new_page (set_next_page_number (f.pages (before n x xs)) n) h f
      ≡ (ok new_page, linked)
  unfolding linked e set_next_page_number
  store-linked =
      let (ge, high, own) = e_facts in
      let (_, low, _, _, _) = v.used in
      let ext = v.extent in
      let ext' = rd.extent in
      let grows = rd.grows in
      let existing = set_next_page_number (f.pages (before n x xs)) n in
      let at : page_number existing ≡ before n x xs = own in
      let run = store_pages-two f new_page existing h v.good (rw own (omega arith)) (
        subst (λ z. page_number existing < (if ltb z f.extent then f.extent else z + 1))
          (sym rd.number) (rw own (omega arith))) in
      let at_page =
        subst
          (λ z. store_pages new_page existing h f ≡ (
            ok new_page,
            record {
              filename = f.filename;
              good = true;
              header = h;
              extent = if ltb z f.extent then f.extent else z + 1;
              pages = with_page (with_page f.pages z new_page) (page_number existing) existing;
            },
          ))
          rd.number run in
      subst
        (λ z. store_pages new_page existing h f ≡ (
          ok new_page,
          record {
            filename = f.filename;
            good = true;
            header = h;
            extent = if ltb n f.extent then f.extent else n + 1;
            pages = with_page (with_page f.pages n new_page) z existing;
          },
        ))
        at at_page

  linked-others : (k : ℕ) → k ≢ n → k ≢ e → linked.pages k ≡ f.pages k
  unfolding linked
  linked-others k a b = ground arith

  linked-new : linked.pages n ≡ new_page
  unfolding linked
  linked-new = let ne = e_ne in ground arith

  linked-before : linked.pages e ≡ set_next_page_number (f.pages e) n
  unfolding linked
  linked-before = ground arith

  before_numbers :
      (page_number (set_next_page_number (f.pages e) n) ≡ e)
      × (next_of linked.pages e ≡ n)
      × ((set_next_page_number (f.pages e) n).data_ ≡ (f.pages e).data_)
  unfolding set_next_page_number
  before_numbers = (e_facts.2, ap (λ (p : Page). p.header.next_page_number) linked-before, refl)

  linked-Used : Used linked.pages h.num_pages 0 x (x ∷ insert_sorted n xs)
  unfolding e
  linked-Used =
      insert-Used f.pages linked.pages f.header.num_pages h.num_pages n 0 x xs
        (subst (λ z. Used f.pages f.header.num_pages 0 z (x ∷ xs)) v.used.0 v.used) rd.grows less
        rd.inside (rd.fresh).1 linked-others
        (ap (λ (p : Page). page_number p) linked-before ∙ before_numbers.0) before_numbers.1
        (ap (λ (p : Page). page_number p) linked-new ∙ rd.number)
        (ap (λ (p : Page). p.header.next_page_number) linked-new ∙ link)

  linked-Free : Free linked.pages h.num_pages h.first_free_page fs
  linked-Free =
      Free-keep f.pages linked.pages f.header.num_pages h.num_pages n h.first_free_page fs rd.free
        rd.grows rd.apart
        λ k a low free.
          let own = e_facts.2 in
          linked-others k a λ q.
            let bad : number_of f.pages k ≡ k = subst (λ z. number_of f.pages z ≡ z) (sym q) own in
            omega arith

  linked-Lists : Lists linked (x ∷ insert_sorted n xs) fs
  unfolding linked
  linked-Lists = record {
    good = refl;
    extent = rd.extent;
    counted = let i = rd.inside in omega arith;
    small = rd.small;
    used =
        subst (λ z. Used linked.pages h.num_pages 0 z (x ∷ insert_sorted n xs))
          (sym (first ∙ v.used.0)) linked-Used;
    free = linked-Free;
    num_free = rd.num_free;
  }

  linked-others-same :
      (k : ℕ)
      → k ≢ n
      → (number_of linked.pages k ≡ number_of f.pages k)
        × ((linked.pages k).data_ ≡ (f.pages k).data_)
  linked-others-same k ne = elim (ℕ_discrete k e) [
    | yes q ↦
        let at = linked-before in
        let (num, _, bytes) = before_numbers in
        subst
          (λ z.
            (number_of linked.pages z ≡ number_of f.pages z)
            × ((linked.pages z).data_ ≡ (f.pages z).data_))
          (sym q)
          (
            ap (λ (p : Page). page_number p) at ∙ num ∙ sym e_facts.2,
            ap (λ (p : Page). p.data_) at ∙ bytes,
          )
    | no q ↦
        let same = linked-others k ne q in
        (ap (λ (p : Page). page_number p) same, ap (λ (p : Page). p.data_) same)
  ]

  pub linked-Allocated :
      (g : File) × (store_pages new_page (set_next_page_number (f.pages (before n x xs)) n) h f
        ≡ (ok new_page, g))
      × Allocated f g (x ∷ xs) fs n
  linked-Allocated =
      let after : ltb n x ≡ false = ground arith in
      (
        linked,
        store-linked,
        record {
          lists = rw after linked-Lists;
          fresh = rd.fresh;
          own = ap (λ (p : Page). page_number p) linked-new ∙ rd.number;
          same_numbers = λ k ne. (linked-others-same k ne).0;
          same_data = λ k ne. (linked-others-same k ne).1;
        },
      )
