-- ===== src/File/Heading.antt =====
-- The lists of a file of src/file.cpp when a page becomes the first of the used ones.
use cs564_project.Prelude.{
  ℕ, ◌+◌, ◌<◌, ◌≡◌, ◌≢◌, ◌⊎◌, refl, true, ltb, arith, if◌then◌else◌, List, [], ◌∷◌, sym, ap, ◌∙◌,
}
use mathlib.Core.Path.{subst}
use cs564_project.Exceptions.{ok}
use cs564_project.Page.State.{Page, page_number}
use cs564_project.File.State.{FileHeader, File, blank_page, with_page}
use cs564_project.File.Alloc.{store_pages}
use cs564_project.File.Chains.{Used, Lists}
use cs564_project.File.Store.{store_pages-one}
use cs564_project.File.Places.{insert_sorted}
use cs564_project.File.Linking.{Used-keep, Free-keep}
use cs564_project.File.AllocLaws.{Allocated, Ready}

-- With the page as the first of the used ones.
module _ (f : File) (n : ℕ) (us old fs : List ℕ) (new_page : Page) (h : FileHeader)
    (v : Lists f us old) (rd : Ready f us fs n new_page h)
    (less : (f.header.first_used_page ≡ 0) ⊎ (n < f.header.first_used_page))
    (first : h.first_used_page ≡ n)
    (link : new_page.header.next_page_number ≡ f.header.first_used_page) where
  headed : File
  headed = record {
    filename = f.filename;
    good = true;
    header = h;
    extent = if ltb n f.extent then f.extent else n + 1;
    pages = with_page f.pages n new_page;
  }

  store-headed : store_pages new_page blank_page h f ≡ (ok new_page, headed)
  unfolding headed
  store-headed =
      subst
        (λ z. store_pages new_page blank_page h f ≡ (
          ok new_page,
          record {
            filename = f.filename;
            good = true;
            header = h;
            extent = if ltb z f.extent then f.extent else z + 1;
            pages = with_page f.pages z new_page;
          },
        ))
        rd.number (store_pages-one f new_page h v.good)

  headed-others : (k : ℕ) → k ≢ n → headed.pages k ≡ f.pages k
  unfolding headed
  headed-others k a = ground arith

  headed-new : headed.pages n ≡ new_page
  unfolding headed
  headed-new = ground arith

  -- The used pages behind the new one.
  behind :
      (h' : ℕ) (vs : List ℕ)
      → Used f.pages f.header.num_pages 0 h' vs
      → (h' ≡ 0) ⊎ (n < h')
      → (Used headed.pages h.num_pages n h' vs) × (insert_sorted n vs ≡ n ∷ vs)
  behind h' [] u l = (u, refl)
  behind h' (y ∷ ys) (at, low, high, own, rest) l =
      let up : n < y = ground arith in
      let before_it : ltb n y ≡ true = ground arith in
      (
        Used-keep f.pages headed.pages f.header.num_pages h.num_pages n h' (y ∷ ys)
            (at, up, high, own, rest) rd.grows λ k a o. headed-others k (λ q. omega arith),
        rw before_it refl,
      )

  headed-Lists : Lists headed (n ∷ us) fs
  unfolding headed
  headed-Lists =
      let (u, _) = behind f.header.first_used_page us v.used less in
      record {
        good = refl;
        extent = rd.extent;
        counted = let i = rd.inside in omega arith;
        small = rd.small;
        used = (
          first,
          rd.positive,
          rd.inside,
          ap (λ (p : Page). page_number p) headed-new ∙ rd.number,
          subst (λ z. Used headed.pages h.num_pages n z us)
              (sym (ap (λ (p : Page). p.header.next_page_number) headed-new ∙ link)) u,
        );
        free =
            Free-keep f.pages headed.pages f.header.num_pages h.num_pages n h.first_free_page fs
              rd.free rd.grows rd.apart λ k a low free. headed-others k a;
        num_free = rd.num_free;
      }

  pub headed-Allocated :
      (g : File) × (store_pages new_page blank_page h f ≡ (ok new_page, g)) × Allocated f g us fs n
  headed-Allocated =
      let (_, front) = behind f.header.first_used_page us v.used less in
      (
        headed,
        store-headed,
        record {
          lists = subst (λ z. Lists headed z fs) (sym front) headed-Lists;
          fresh = rd.fresh;
          own = ap (λ (p : Page). page_number p) headed-new ∙ rd.number;
          same_numbers = λ k ne. ap (λ (p : Page). page_number p) (headed-others k ne);
          same_data = λ k ne. ap (λ (p : Page). p.data_) (headed-others k ne);
        },
      )
