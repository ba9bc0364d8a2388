-- ===== src/Uploads/Effects.antt =====
-- Which methods of the upload store keep a statement on a table.
pub mod Assets
pub mod Writes
pub mod Sessions
