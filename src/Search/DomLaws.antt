-- ===== src/Search/DomLaws.antt =====
-- FindChildElement of docs/search/search.js is a search in document order, which ends.
use cs564_project.Prelude.{
  ℕ, zero, suc, ◌+◌, ◌<◌, ◌≤◌, ◌≡◌, refl, ◌∙◌, List, [], ◌∷◌, Option, none, some, Bool, true, false,
  if◌then◌else◌, arith, ap, sym,
}
use cs564_project.Search.Page.{Children, Row}
use cs564_project.Search.Dom.{
  Tag, children_div, plain_div, no_div, Nodes, nothing, node, climb, next_element, find_loop, size,
  find_child_element, link_nodes, row_end, row_nodes,
}

abbrev or_else : Option Nodes → Option Nodes → Option Nodes
or_else none o = o
or_else (some f) o = some f

-- The first DIV of class SRChildren in document order, looked for inside DIVs only.
abbrev pub first_children : Nodes → Option Nodes
first_children nothing = none
first_children (node children_div k r) = some k
first_children (node plain_div k r) = or_else (first_children k) (first_children r)
first_children (node no_div k r) = first_children r

abbrev in_stack : List Nodes → Option Nodes
in_stack [] = none
in_stack (f ∷ up) = or_else (first_children f) (in_stack up)

abbrev total : List Nodes → ℕ
total [] = 0
total (f ∷ up) = size f + total up

or_else_assoc : (a b c : Option Nodes) → or_else (or_else a b) c ≡ or_else a (or_else b c)
or_else_assoc none b c = refl
or_else_assoc (some f) b c = refl

-- Where the walk goes on: at an element, with the same first finding and no more to visit.
abbrev Resumes : Option Nodes → ℕ → Option (Nodes × List Nodes) → Type 0
Resumes found left none = found ≡ none
Resumes found left (some (nothing, up)) = ⊥
Resumes found left (some (node t k r, up)) =
    (found ≡ or_else (first_children (node t k r)) (in_stack up))
    × (size (node t k r) + total up ≤ left)

Resumes-weaken :
    (found : Option Nodes) (a b : ℕ) (o : Option (Nodes × List Nodes))
    → a ≤ b
    → Resumes found a o
    → Resumes found b o
Resumes-weaken found a b none h e = e
Resumes-weaken found a b (some (nothing, up)) h e = e
Resumes-weaken found a b (some (node t k r, up)) h (e, l) = (e, omega arith)

climb-Resumes : (up : List Nodes) → Resumes (in_stack up) (total up) (climb up)
unfolding climb
climb-Resumes [] = refl
climb-Resumes (nothing ∷ up) =
    Resumes-weaken (in_stack up) (total up) (0 + total up) (climb up) (omega arith)
      (climb-Resumes up)
climb-Resumes (node t k r ∷ up) = (refl, omega arith)

next_element-Resumes :
    (d : Bool) (k r : Nodes) (up : List Nodes)
    → Resumes
        (or_else (if d then first_children k else none) (or_else (first_children r) (in_stack up)))
        (size k + size r + total up)
        (next_element d k r up)
unfolding next_element
next_element-Resumes true (node t a b) r up = (refl, omega arith)
next_element-Resumes true nothing (node t a b) up = (refl, omega arith)
next_element-Resumes true nothing nothing up =
    Resumes-weaken (in_stack up) (total up) (0 + 0 + total up) (climb up) (omega arith)
      (climb-Resumes up)
next_element-Resumes false k (node t a b) up = (refl, omega arith)
next_element-Resumes false k nothing up =
    Resumes-weaken (in_stack up) (total up) (size k + 0 + total up) (climb up) (omega arith)
      (climb-Resumes up)

abbrev Finds : ℕ → Type 0
Finds fuel =
    (t : Tag) (k r : Nodes) (up : List Nodes)
    → size (node t k r) + total up < fuel
    → find_loop fuel (node t k r) up ≡ some (or_else (first_children (node t k r)) (in_stack up))

resume-Finds :
    (fuel left : ℕ) (found : Option Nodes) (o : Option (Nodes × List Nodes))
    → Finds fuel
    → Resumes found left o
    → left < fuel
    → elim o [ none ↦ some none | some (element, up) ↦ find_loop fuel element up ] ≡ some found
resume-Finds fuel left found none finds e h = ap some (sym e)
resume-Finds fuel left found (some (nothing, up)) finds e h = absurd e
resume-Finds fuel left found (some (node t k r, up)) finds (e, l) h =
    finds t k r up (omega arith) ∙ ap some (sym e)

find_loop-Finds : (fuel : ℕ) → Finds fuel
unfolding find_loop
find_loop-Finds zero t k r up h = absurd (omega arith)
find_loop-Finds (suc fuel) children_div k r up h = refl
find_loop-Finds (suc fuel) plain_div k r up h =
    resume-Finds fuel (size k + size r + total up) _ (next_element true k r up)
      (find_loop-Finds fuel) (next_element-Resumes true k r up) (omega arith)
    ∙ ap some (sym (or_else_assoc (first_children k) (first_children r) (in_stack up)))
find_loop-Finds (suc fuel) no_div k r up h =
    resume-Finds fuel (size k + size r + total up) _ (next_element false k r up)
      (find_loop-Finds fuel) (next_element-Resumes false k r up) (omega arith)

or_else-none : (o : Option Nodes) → or_else o none ≡ o
or_else-none none = refl
or_else-none (some f) = refl

-- The walk of FindChildElement ends, and finds the first DIV of class SRChildren in document order
-- among the descendants whose ancestors are all DIVs, if there is one.
pub find_child_element_first :
    (contents : Nodes) → find_child_element contents ≡ some (first_children contents)
unfolding find_child_element find_loop
find_child_element_first nothing = refl
find_child_element_first (node t k r) =
    find_loop-Finds (size (node t k r) + 1) t k r [] (omega arith)
    ∙ ap some (or_else-none (first_children (node t k r)))

row_first :
    (o : Option Children)
    → first_children (node plain_div (node no_div nothing (row_end o)) nothing)
      ≡ elim o [ none ↦ none | some c ↦ some (link_nodes c.links) ]
row_first none = refl
row_first (some c) = refl

-- In a row that `createResults` builds, the walk finds the list of children of the row, and nothing
-- where the row has none.
pub find_child_element-row_nodes :
    (r : Row)
    → find_child_element (row_nodes r)
      ≡ some (elim r.children [ none ↦ none | some c ↦ some (link_nodes c.links) ])
find_child_element-row_nodes r =
    find_child_element_first (row_nodes r) ∙ ap some (row_first r.children)
