-- ===== src/File/Store.antt =====
-- The writes at the end of `allocatePage` of src/file.cpp.
use cs564_project.Prelude.{◌+◌, ◌<◌, ◌≡◌, refl, true, false, ltb, ◌==◌, arith, if◌then◌else◌}
use cs564_project.Exceptions.{ok}
use cs564_project.Page.State.{Page, initialize, page_number}
use cs564_project.File.State.{FileHeader, File, blank_page, with_page, put_page, write_header}
use cs564_project.File.Alloc.{store_pages}

-- A new page alone.
pub store_pages-one :
    (f : File) (new_page : Page) (h : FileHeader)
    → f.good ≡ true
    → store_pages new_page blank_page h f ≡ (
      ok new_page,
      record {
        filename = f.filename;
        good = true;
        header = h;
        extent = if ltb (page_number new_page) f.extent then f.extent else page_number new_page + 1;
        pages = with_page f.pages (page_number new_page) new_page;
      },
    )
unfolding store_pages blank_page put_page initialize write_header
store_pages-one f new_page h good = rw (store_pages, good) refl

-- A new page, and a page of the file whose link changes.
pub store_pages-two :
    (f : File) (new_page existing : Page) (h : FileHeader)
    → f.good ≡ true
    → 0 < page_number existing
    → page_number existing
      < (if ltb (page_number new_page) f.extent then f.extent else page_number new_page + 1)
    → store_pages new_page existing h f ≡ (
      ok new_page,
      record {
        filename = f.filename;
        good = true;
        header = h;
        extent = if ltb (page_number new_page) f.extent then f.extent else page_number new_page + 1;
        pages =
            with_page
              (with_page f.pages (page_number new_page) new_page)
              (page_number existing)
              existing;
      },
    )
unfolding store_pages put_page write_header
store_pages-two f new_page existing h good some_page high =
    let is : (page_number existing == 0) ≡ false = ground arith in
    let inside : ltb (page_number existing)
          (if ltb (page_number new_page) f.extent then f.extent else page_number new_page + 1)
        ≡ true =
      ground arith in
    rw (store_pages, is, good, inside) refl
