-- ===== src/Index.antt =====
-- index/: the keys of the B+ tree.
pub mod GenericKey
