-- ===== src/File/Sharing.antt =====
-- Sequences of uses of the files of src/file.cpp: what objects there are, and the table of open files.
use cs564_project.Prelude.{ℕ, ◌+◌, ◌^◌, ◌<◌, ◌≡◌, inl, inr, refl, Bool, sym, ap, ◌∙◌, arith}
use mathlib.Core.Path.{subst}
use cs564_project.Exceptions.{Exception, Result, ok, err}
use cs564_project.File.Registry.{
  Registry, at_start, open_if_needed, close_file, copy_file, assign_file, remove_file,
}
use cs564_project.File.Handles.{
  Counts, more, fewer, close-Counts, open-Counts, copy-Counts, assign_file-Counts, remove_file-live,
}

-- What becomes of the objects and of the table: a file is created or opened, or that throws; an object
-- is copied, destroyed or assigned from another; a file is removed, or that throws.
pub data Uses : Registry → (ℕ → ℕ) → Registry → (ℕ → ℕ) → Type 0 where
  done : (r : Registry) (live : ℕ → ℕ) → Uses r live r live
  opened :
      (r s t : Registry) (live end : ℕ → ℕ) (f : ℕ) (create_new : Bool)
      → live f + 2 < 2 ^ 32
      → open_if_needed f create_new r ≡ (ok tt, s)
      → Uses s (more live f) t end
      → Uses r live t end
  not_opened :
      (r s t : Registry) (live end : ℕ → ℕ) (f : ℕ) (create_new : Bool) (e : Exception)
      → live f + 2 < 2 ^ 32
      → open_if_needed f create_new r ≡ (err e, s)
      → Uses s live t end
      → Uses r live t end
  copied :
      (r t : Registry) (live end : ℕ → ℕ) (f : ℕ)
      → 0 < live f
      → live f + 2 < 2 ^ 32
      → Uses (copy_file f r).1 (more live f) t end
      → Uses r live t end
  destroyed :
      (r t : Registry) (live end : ℕ → ℕ) (f : ℕ)
      → 0 < live f
      → Uses (close_file f r).1 (fewer live f) t end
      → Uses r live t end
  assigned :
      (r t : Registry) (live end : ℕ → ℕ) (f g : ℕ)
      → 0 < live f
      → 0 < live g
      → live g + 2 < 2 ^ 32
      → Uses (assign_file f g r).1 (more (fewer live f) g) t end
      → Uses r live t end
  removed :
      (r t : Registry) (live end : ℕ → ℕ) (f : ℕ)
      → Uses (remove_file f r).1 live t end
      → Uses r live t end

-- The table that a call leaves is the one that a run of it is known to leave.
leaves :
    (live : ℕ → ℕ) (x : Result (Unit {0}) × Registry) (y : Result (Unit {0})) (s : Registry)
    → x ≡ (y, s)
    → Counts s live
    → Counts x.1 live
leaves live x y s e w = subst (λ z. Counts z live) (ap (λ z. z.1) (sym e)) w

open_if_needed-opened :
    (r s : Registry) (live : ℕ → ℕ) (f : ℕ) (create_new : Bool)
    → Counts r live
    → live f + 2 < 2 ^ 32
    → open_if_needed f create_new r ≡ (ok tt, s)
    → Counts s (more live f)
open_if_needed-opened r s live f new v few e = elim (open-Counts r live f new v few) [
  | inl (s', run, w) ↦ subst (λ z. Counts z (more live f)) (ap (λ z. z.1) (sym run ∙ e)) w
  | inr (x, run, _, _) ↦ absurd (clash x (ap (λ z. z.0) (sym run ∙ e)))
]
  where
    clash : (x : Exception) → ◌≡◌ {A = Result (Unit {0})} (err x) (ok tt) → ⊥
    clash x q = cc

open_if_needed-refused :
    (r s : Registry) (live : ℕ → ℕ) (f : ℕ) (create_new : Bool) (x : Exception)
    → Counts r live
    → live f + 2 < 2 ^ 32
    → open_if_needed f create_new r ≡ (err x, s)
    → Counts s live
open_if_needed-refused r s live f new x v few e = elim (open-Counts r live f new v few) [
  | inl (s', run, w) ↦ absurd (clash (ap (λ z. z.0) (sym run ∙ e)))
  | inr (y, run, _, _) ↦ subst (λ z. Counts z live) (ap (λ z. z.1) (sym run ∙ e)) v
]
  where
    clash : ◌≡◌ {A = Result (Unit {0})} (ok tt) (err x) → ⊥
    clash q = cc

Uses-all : (r t : Registry) (live end : ℕ → ℕ) → Uses r live t end → Counts r live → Counts t end
Uses-all r t live end (done _ _) v = v
Uses-all r t live end (opened _ s _ _ _ f new few e u) v =
    Uses-all s t (more live f) end u (open_if_needed-opened r s live f new v few e)
Uses-all r t live end (not_opened _ s _ _ _ f new x few e u) v =
    Uses-all s t live end u (open_if_needed-refused r s live f new x v few e)
Uses-all r t live end (copied _ _ _ _ f some_object few u) v =
    Uses-all (copy_file f r).1 t (more live f) end u (copy-Counts r live f v some_object few)
Uses-all r t live end (destroyed _ _ _ _ f some_object u) v =
    let (s, run, w, _) = close-Counts r live f v some_object in
    Uses-all (close_file f r).1 t (fewer live f) end u
      (leaves (fewer live f) (close_file f r) (ok tt) s run w)
Uses-all r t live end (assigned _ _ _ _ f g some_f some_g few u) v =
    let (s, run, w) = assign_file-Counts r live f g v some_f some_g few in
    let after = more (fewer live f) g in
    Uses-all (assign_file f g r).1 t after end u (leaves after (assign_file f g r) (ok tt) s run w)
Uses-all r t live end (removed _ _ _ _ f u) v =
    let (s, run, w, _) = remove_file-live r live f v in
    Uses-all (remove_file f r).1 t live end u (leaves live (remove_file f r) _ s run w)

-- From a program's start on, whatever is opened, copied, assigned, destroyed and removed: the counts
-- are those of the objects, a stream is open exactly for a file with an object, and such a file is on
-- disk. Each file is to have fewer than 2 ^ 32 - 2 objects.
pub Uses-Counts :
    (disk : ℕ → Bool) (t : Registry) (end : ℕ → ℕ)
    → Uses (at_start disk) (λ _. 0) t end
    → Counts t end
unfolding at_start
Uses-Counts disk t end u =
    Uses-all (at_start disk) t (λ _. 0) end u
      (record {
        count = λ f. refl;
        stream = λ f. refl;
        there = λ f h. absurd (omega arith);
        small = λ f. omega arith;
      })
