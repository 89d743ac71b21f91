-- ===== src/Command/Refine.antt =====
-- Each command on a partition makes one step of the layout, or none, and leaves the rest of the
-- scheme as it is.
pub mod Edits
pub mod Sound
pub mod Alter
