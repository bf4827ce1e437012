-- ===== src/Search/Address.antt =====
-- docs/search/search.js: the query of an address, which the panel writes and SearchResults.Search
-- reads where it is called without a text. The address has no '#'.
use cs564_project.Prelude.{[], ◌∷◌, ◌==◌, if◌then◌else◌}
use cs564_project.Search.Text.{Text}
use cs564_project.Search.Page.{Results, search}
use cs564_project.Search.Query.{unescape}
use cs564_project.Search.Box.{is_empty}

-- `window.location.search`: the address from its first '?' on.
unfoldable pub location_search : Text → Text
location_search [] = []
location_search (c ∷ s) = if c == b'?' then c ∷ s else location_search s

-- `substring(1)`.
abbrev pub behind_first : Text → Text
behind_first [] = []
behind_first (c ∷ s) = s

unfoldable pub address_query : Text → Text
address_query location = unescape (behind_first (location_search location))

-- SearchResults.Search with its argument, on a page with an address.
unfoldable pub search_with : (text location : Text) → Results → Results
search_with text location page =
    search (if is_empty text then address_query location else text) page
