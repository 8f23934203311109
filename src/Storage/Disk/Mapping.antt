-- ===== src/Storage/Disk/Mapping.antt =====
-- Where logical pages lie in the file.
use dis_minisql.Prelude.{ℕ, ◌≡◌, ◌≢◌, arith}
use dis_minisql.Storage.Disk.{map_page_id, bitmap_page_id}

-- Two logical pages never share a physical page.
pub map_page_id-injective : (p q : ℕ) → map_page_id p ≡ map_page_id q → p ≡ q
unfolding map_page_id
map_page_id-injective p q e = omega arith

-- No logical page lies on the bitmap of an extent.
pub map_page_id-ne-bitmap : (p i : ℕ) → map_page_id p ≢ bitmap_page_id i
unfolding map_page_id bitmap_page_id
map_page_id-ne-bitmap p i = omega arith
