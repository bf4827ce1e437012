-- ===== src/Search.antt =====
-- docs/search/search.js: the search panel of the documentation, and its pages of results.
pub mod Text
pub mod Ids
pub mod Page
pub mod Nav
pub mod Dom
pub mod DomLaws
pub mod Query
pub mod Index
pub mod Escape
pub mod Box
pub mod Panel
pub mod Address
pub mod Arrival
pub mod Field
pub mod BoxLaws
pub mod FieldLaws
pub mod FilterLaws
pub mod PageLaws
pub mod NavLaws
pub mod KeyLaws
