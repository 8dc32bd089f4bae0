-- ===== src/RefScan.antt =====
-- src/companion/refscan.py: literal references in the configuration, found and rewritten. The word
-- characters of `re` are a function from code points.
pub mod Token
pub mod Tree
pub mod Walk
pub mod Includes
pub mod Load
pub mod Entities
pub mod Scan
pub mod Replace
pub mod Ends
pub mod Route
mod Tests
