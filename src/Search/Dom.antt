-- ===== src/Search/Dom.antt =====
-- docs/search/search.js: FindChildElement, the walk that finds the list of children of a row.
use cs564_project.Search.Page.{Link, Children, Row}
use cs564_project.Prelude.{
  ℕ, zero, suc, ◌+◌, List, [], ◌∷◌, Option, none, some, Bool, true, false, if◌then◌else◌,
}

-- What the walk asks of a node: whether it is a DIV of class SRChildren, another DIV, or no DIV.
pub data Tag : Type 0 where
  children_div plain_div no_div : Tag

-- An element and the siblings behind it, by `firstChild` and `nextSibling`; `nothing` is null.
pub data Nodes : Type 0 where
  nothing : Nodes
  node : Tag → (first_child next_sibling : Nodes) → Nodes

abbrev pub is_children : Tag → Bool
is_children children_div = true
is_children _ = false

abbrev pub is_div : Tag → Bool
is_div no_div = false
is_div _ = true

-- The inner loop: the next sibling of the nearest ancestor that has one. The list holds the siblings
-- behind each ancestor, up to the element where the walk began.
unfoldable pub climb : List Nodes → Option (Nodes × List Nodes)
climb [] = none
climb (nothing ∷ up) = climb up
climb (node t k r ∷ up) = some (node t k r, up)

-- The three branches at an element that is not looked for.
unfoldable pub next_element : Bool → Nodes → Nodes → List Nodes → Option (Nodes × List Nodes)
next_element true (node t k r) rest up = some (node t k r, rest ∷ up)
next_element _ _ (node t k r) up = some (node t k r, up)
next_element _ _ nothing up = climb up

-- The outer loop, on fuel; the outer `none` means that the fuel ran out. The element that is found is
-- given by its contents.
unfoldable pub find_loop : ℕ → Nodes → List Nodes → Option (Option Nodes)
find_loop zero element up = none
find_loop (suc fuel) nothing up = some none
find_loop (suc fuel) (node t k r) up =
    if is_children t then some (some k) else elim (next_element (is_div t) k r up) [
      | none ↦ some none
      | some (element, up') ↦ find_loop fuel element up'
    ]

abbrev pub size : Nodes → ℕ
size nothing = 0
size (node t k r) = 1 + size k + size r

-- FindChildElement, on the contents of the parent element.
unfoldable pub find_child_element : Nodes → Option (Option Nodes)
find_child_element first_child = find_loop (size first_child + 1) first_child []

-- The elements that `createResults` appends to the list of children of a row, one A each.
abbrev pub link_nodes : List Link → Nodes
link_nodes [] = nothing
link_nodes (l ∷ ls) = node no_div nothing (link_nodes ls)

-- What stands in a row behind its link: the SPAN of the scope, or the list of children.
abbrev pub row_end : Option Children → Nodes
row_end none = node no_div nothing nothing
row_end (some c) = node children_div (link_nodes c.links) nothing

-- The contents of the DIV of a row; those of an A or a SPAN, which the walk never visits, are left
-- out.
abbrev pub row_nodes : Row → Nodes
row_nodes r = node plain_div (node no_div nothing (row_end r.children)) nothing
