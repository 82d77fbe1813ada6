-- ===== src/Examples.antt =====
-- Concrete runs of the modelled code, and the theorems at concrete inputs.
pub mod Sets
pub mod Terms
mod Grammar
mod Rules
pub mod SortedKeys
pub mod Relations
pub mod Logs
mod Txns
mod Facts
pub mod Sorts
pub mod Strings
mod Searches
mod Caches
