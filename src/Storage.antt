-- ===== src/Storage.antt =====
-- src/static_routes/storage.rs: the storage policy of one static site root, its persistent record,
-- and the admission of publications under it.
pub mod Errors
pub mod Record
pub mod Accounting
pub mod Inventory
pub mod Publication
pub mod Opening
