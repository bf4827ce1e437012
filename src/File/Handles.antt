-- ===== src/File/Handles.antt =====
-- The table of open files of src/file.cpp against the `File` objects that there are.
use cs564_project.Prelude.{
  ℕ, ◌+◌, ◌-◌, ◌%◌, ◌^◌, ◌<◌, ◌≡◌, ◌⊎◌, inl, inr, refl, Bool, true, false, ◌&&◌, ◌==◌,
  if◌then◌else◌, not, none, some, arith, ℕ_discrete, Bool-cases, sym, ◌∙◌,
}
use cs564_project.Exceptions.{Exception, ok, err, file_exists, file_not_found, file_open}
use cs564_project.File.Registry.{
  Registry, count_of, put, is_open, remove_file, open_stream, open_if_needed, close_file, copy_file,
  assign_file,
}

-- The counts are those of the objects, a stream is open exactly for a file with an object, and such a
-- file is there; `live` counts the objects of each file.
pub record Counts (r : Registry) (live : ℕ → ℕ) : Type 0 where
  pub count : (f : ℕ) → r.open_counts f ≡ (if live f == 0 then none else some (live f))
  pub stream : (f : ℕ) → r.open_streams f ≡ not (live f == 0)
  pub there : (f : ℕ) → 0 < live f → r.on_disk f ≡ true
  pub small : (f : ℕ) → live f + 1 < 2 ^ 32

abbrev pub more : (ℕ → ℕ) → ℕ → ℕ → ℕ
more live f = put live f (live f + 1)

abbrev pub fewer : (ℕ → ℕ) → ℕ → ℕ → ℕ
fewer live f = put live f (live f - 1)

-- `isOpen` is whether there is an object of the file.
pub is_open-live :
    (r : Registry) (live : ℕ → ℕ) (f : ℕ) → Counts r live → is_open r f ≡ not (live f == 0)
unfolding is_open
is_open-live r live f v = elim (ℕ_discrete (live f) 0) [
  | yes e ↦ ground (arith, v.count f)
  | no ne ↦ ground (arith, v.count f, v.there f)
]

count_of-live : (r : Registry) (live : ℕ → ℕ) (f : ℕ) → Counts r live → count_of r f ≡ live f
unfolding count_of
count_of-live r live f v = ground (arith, v.count f)

pub close-Counts :
    (r : Registry) (live : ℕ → ℕ) (f : ℕ)
    → Counts r live
    → 0 < live f
    → (s : Registry) × (close_file f r ≡ (ok tt, s))
      × Counts s (fewer live f)
      × ((g : ℕ) → s.on_disk g ≡ r.on_disk g)
unfolding close_file
close-Counts r live f v some_object =
    let s = (close_file f r).1 in
    let c = count_of-live r live f v in
    let b = v.small f in
    (
      s,
      refl,
      record {
        count = λ g. ground (arith, v.count g);
        stream = λ g. ground (arith, v.stream g);
        there = λ g h. ground (arith, v.there g);
        small = λ g. ground (arith, v.small g);
      },
      λ g. ground arith,
    )

pub open-Counts :
    (r : Registry) (live : ℕ → ℕ) (f : ℕ) (create_new : Bool)
    → Counts r live
    → live f + 2 < 2 ^ 32
    → ((s : Registry) × (open_if_needed f create_new r ≡ (ok tt, s)) × Counts s (more live f))
      ⊎ ((e : Exception) × (open_if_needed f create_new r ≡ (err e, r))
          × (live f ≡ 0)
          × (create_new ≡ r.on_disk f))
unfolding open_if_needed open_stream
open-Counts r live f create_new v few = elim (ℕ_discrete (live f) 0) [
  | no ne ↦
      let c : r.open_counts f ≡ some (live f) = ground (arith, v.count f) in
      inl (
        record r { open_counts = put r.open_counts f (some ((live f + 1) % 2 ^ 32)) },
        rw (open_if_needed, c) refl,
        record {
          count = λ g. ground (arith, v.count g);
          stream = λ g. ground (arith, v.stream g);
          there = λ g h. ground (arith, v.there g);
          small = λ g. ground (arith, v.small g);
        },
      )
  | yes e ↦
      let c : r.open_counts f ≡ none = ground (arith, v.count f) in
      let opened : Registry = record {
        on_disk = put r.on_disk f true;
        open_counts = put r.open_counts f (some 1);
        open_streams = put r.open_streams f true;
      } in
      let w : Counts opened (more live f) = record {
        count = λ g. ground (arith, v.count g);
        stream = λ g. ground (arith, v.stream g);
        there = λ g h. ground (arith, v.there g);
        small = λ g. ground (arith, v.small g);
      } in
      elim (Bool-cases create_new) [
        | inl new ↦ elim (Bool-cases (r.on_disk f)) [
          | inl d ↦
              inr (file_exists f, rw (open_if_needed, c, open_stream, new, d) refl, e, new ∙ sym d)
          | inr d ↦ inl (opened, rw (open_if_needed, c, open_stream, new, d) refl, w)
        ]
        | inr old ↦ elim (Bool-cases (r.on_disk f)) [
          | inl d ↦ inl (opened, rw (open_if_needed, c, open_stream, old, d) refl, w)
          | inr d ↦
              inr
                (file_not_found f, rw (open_if_needed, c, open_stream, old, d) refl, e, old ∙ sym d)
        ]
      ]
]

pub copy-Counts :
    (r : Registry) (live : ℕ → ℕ) (f : ℕ)
    → Counts r live
    → 0 < live f
    → live f + 2 < 2 ^ 32
    → Counts (copy_file f r).1 (more live f)
unfolding copy_file
copy-Counts r live f v some_object few =
    let c = count_of-live r live f v in
    record {
      count = λ g. ground (arith, v.count g);
      stream = λ g. ground (arith, v.stream g);
      there = λ g h. ground (arith, v.there g);
      small = λ g. ground (arith, v.small g);
    }

-- An assignment from an object of a file returns, also where it is the object itself and the last one
-- of its file: the object counts for the other file.
pub assign_file-Counts :
    (r : Registry) (live : ℕ → ℕ) (f g : ℕ)
    → Counts r live
    → 0 < live f
    → 0 < live g
    → live g + 2 < 2 ^ 32
    → (s : Registry) × (assign_file f g r ≡ (ok tt, s)) × Counts s (more (fewer live f) g)
unfolding assign_file
assign_file-Counts r live f g v some_f some_g few =
    let (m, run, w, disk) = close-Counts r live f v some_f in
    let d : m.on_disk g ≡ true = disk g ∙ v.there g some_g in
    elim (open-Counts m (fewer live f) g false w (ground arith)) [
      | inl (s, run', w') ↦ (s, rw (assign_file, run) run', w')
      | inr (e, _, _, no_file) ↦ absurd (ground arith)
    ]

-- `remove` refuses a file that has an object, takes a file without one off the disk, and refuses one
-- that is not there; the counts stay right.
pub remove_file-live :
    (r : Registry) (live : ℕ → ℕ) (f : ℕ)
    → Counts r live
    → (s : Registry) × (remove_file f r ≡ (
      if live f == 0
          then if r.on_disk f then ok tt else err (file_not_found f)
          else err (file_open f),
      s,
    ))
      × Counts s live
      × ((g : ℕ) → s.on_disk g ≡ (if f == g && live f == 0 then false else r.on_disk g))
unfolding remove_file
remove_file-live r live f v =
    let o = is_open-live r live f v in
    elim (ℕ_discrete (live f) 0) [
      | no ne ↦
          let some_object : (live f == 0) ≡ false = ground arith in
          let d = v.there f (omega (arith, ne)) in
          let open_file : is_open r f ≡ true = ground arith in
          (r, rw (remove_file, d, open_file, some_object) refl, v, λ g. ground arith)
      | yes e ↦
          let no_object : (live f == 0) ≡ true = ground arith in
          let closed : is_open r f ≡ false = ground arith in
          elim (Bool-cases (r.on_disk f)) [
            | inl d ↦ (
              record r { on_disk = put r.on_disk f false },
              rw (remove_file, d, closed, no_object) refl,
              record {
                count = v.count;
                stream = v.stream;
                there = λ g h. ground (arith, v.there g);
                small = v.small;
              },
              λ g. ground arith,
            )
            | inr d ↦ (
              r,
              rw (remove_file, d, no_object) refl,
              v,
              λ g. elim (ℕ_discrete f g) [
                | yes q ↦ rw (sym q) (ground arith)
                | no q ↦ ground arith
              ],
            )
          ]
    ]
