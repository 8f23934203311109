-- ===== src/Storage.antt =====
-- The storage layer: minisql/src/storage and minisql/src/include/storage.
pub mod Disk
pub mod FreeSpaceMap
pub mod TableHeap
