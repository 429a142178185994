-- ===== src/Model.antt =====
-- The tables of src/podarium/models.py as records, a field for each column.
pub mod Enums
pub mod Episode
pub mod Feed
pub mod Job
pub mod User
