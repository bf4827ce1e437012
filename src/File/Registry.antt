-- ===== src/File/Registry.antt =====
-- The table of open files of src/file.cpp, `open_counts_` and `open_streams_`, and the files that
-- there are. A file is its name.
use cs564_project.Prelude.{
  ℕ, ◌+◌, ◌-◌, ◌%◌, ◌^◌, Bool, true, false, ◌==◌, if◌then◌else◌, not, Option, none, some,
}
use cs564_project.Exceptions.{file_exists, file_not_found, file_open}
use cs564_project.Effects.{M, ◌>>◌, return, throw}

-- A count is an `int`, by its bits.
pub record Registry : Type 0 where
  pub on_disk : ℕ → Bool
  pub open_counts : ℕ → Option ℕ
  pub open_streams : ℕ → Bool

unfoldable pub at_start : (ℕ → Bool) → Registry
at_start on_disk = record { on_disk = on_disk; open_counts = λ _. none; open_streams = λ _. false }

-- `operator[]` of the map: a name without an entry gets the count 0.
unfoldable pub count_of : Registry → ℕ → ℕ
count_of r name = elim (r.open_counts name) [ some c ↦ c | none ↦ 0 ]

abbrev pub put {ℓ} : {A : Type ℓ} → (ℕ → A) → ℕ → A → ℕ → A
put m name v k = if name == k then v else m k

unfoldable pub is_open : Registry → ℕ → Bool
is_open r name =
    if not (r.on_disk name)
    then false
    else (elim (r.open_counts name) [ some _ ↦ true | none ↦ false ])

unfoldable pub remove_file : ℕ → M Registry (Unit {0})
remove_file name r =
    if not (r.on_disk name)
    then throw (file_not_found name) r
    else if is_open r name
    then throw (file_open name) r
    else return tt (record r { on_disk = put r.on_disk name false })

-- `openIfNeeded` for the file with its first `File` object.
unfoldable pub open_stream : ℕ → Bool → M Registry (Unit {0})
open_stream name create_new r =
    let opened : Registry = record {
      on_disk = put r.on_disk name true;
      open_counts = put r.open_counts name (some 1);
      open_streams = put r.open_streams name true;
    } in
    if create_new
    then if r.on_disk name then throw (file_exists name) r else return tt opened
    else if r.on_disk name
    then return tt opened
    else throw (file_not_found name) r

unfoldable pub open_if_needed : ℕ → Bool → M Registry (Unit {0})
open_if_needed name create_new r = elim (r.open_counts name) [
  | some c ↦ return tt (record r { open_counts = put r.open_counts name (some ((c + 1) % 2 ^ 32)) })
  | none ↦ open_stream name create_new r
]

unfoldable pub close_file : ℕ → M Registry (Unit {0})
close_file name r =
    let c = (count_of r name + (2 ^ 32 - 1)) % 2 ^ 32 in
    return tt (
      if c == 0
      then record r {
        open_counts = put r.open_counts name none;
        open_streams = put r.open_streams name false;
      }
      else record r { open_counts = put r.open_counts name (some c) })

-- The copy constructor; the copy shares the stream.
unfoldable pub copy_file : ℕ → M Registry (Unit {0})
copy_file name r =
    return tt
      (record r { open_counts = put r.open_counts name (some ((count_of r name + 1) % 2 ^ 32)) })

-- `operator=`: from the file `name` to the file `other`.
unfoldable pub assign_file : ℕ → ℕ → M Registry (Unit {0})
assign_file name other = do close_file name; open_if_needed other false
