-- ===== src/Page.antt =====
-- The page layouts: minisql/src/page and minisql/src/include/page.
pub mod Bitmap
pub mod TreePage
pub mod Pairs
pub mod Leaf
pub mod Internal
pub mod IndexRoots
pub mod TablePage
pub mod FreeSpaceMapPage
