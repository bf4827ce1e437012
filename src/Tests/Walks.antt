-- ===== src/Tests/Walks.antt =====
-- Runs of the walk of FindChildElement and of the query in docs/search/search.js.
use cs564_project.Prelude.{◌≡◌, refl, [], ◌∷◌, none, some, true, false}
use cs564_project.Search.Text.{codes}
use cs564_project.Search.Page.{Row, Link, unset, item, child, address, toggles}
use cs564_project.Search.Dom.{
  Nodes, nothing, node, children_div, plain_div, no_div, find_child_element, find_loop, climb,
  next_element,
}
use cs564_project.Search.DomLaws.{first_children, find_child_element_first}

-- The list stands behind a DIV that holds another.
abbrev deep : Nodes
deep = node no_div nothing (
    node plain_div (node plain_div (node no_div nothing nothing) nothing)
      (node children_div (node no_div nothing nothing) nothing))

find_run : find_child_element deep ≡ some (some (node no_div nothing nothing))
unfolding find_child_element find_loop climb next_element
find_run = refl

find_child_element_first_example : find_child_element deep ≡ some (first_children deep)
find_child_element_first_example = find_child_element_first deep

abbrev link : Link
link = record {
  id = child 0 0;
  href = address (codes "f.html");
  in_parent = true;
  text = codes "a";
}

abbrev row : Row
row = record {
  id = codes "SR_bufs";
  display = unset;
  link = record {
    id = item 0;
    href = toggles (codes "SR_bufs");
    in_parent = false;
    text = codes "bufs";
  };
  scope = none;
  children = some (record { display = unset; links = link ∷ link ∷ [] });
}
