-- ===== src/EsiTag/Tests.antt =====
-- Runs of the model of esitag on concrete inputs, and the theorems applied to them.
mod Pages
mod Streams
mod Breakers
mod Replacers
pub mod Ascii
mod Attributes
mod Connections
mod Entities
pub mod Sorting
mod Fanouts
