-- ===== src/Surgical.antt =====
-- src/companion/surgical.py: writes that change only the bytes of one entry, or of some scalars.
-- Span: the text arithmetic. Splice: one entry. Verify: the re-parse.
-- Leaves: scalars. Save: the guarded write.
pub mod Span
pub mod Splice
pub mod Verify
pub mod Leaves
pub mod Save
mod Tests
