-- ===== src/EsiTag.antt =====
-- The package esitag.
pub mod Finder
pub mod DataTags
pub mod Page
pub mod Breaker
pub mod Query
pub mod Replacer
pub mod Args
pub mod Arrivals
pub mod Fanout
pub mod Parse
pub mod Registry
pub mod Attributes
pub mod OnError
pub mod Entity
pub mod Tests
