-- ===== src/Storage/TableHeap/Update.antt =====
-- storage/table_heap.cpp: what the answer of `UpdateTuple` says of the page.
use dis_minisql.Prelude.{ℕ, Bool, not, some, ◌≡◌}
use dis_minisql.Buffer.Replacer.{Replacer}
use dis_minisql.Buffer.Pool.{Pool, unpin_page}
use dis_minisql.Storage.Disk.{Bytes}
use dis_minisql.Page.TablePage
use dis_minisql.Record.Row.{Row}
use dis_minisql.Buffer.Pool.Access.{bytes_of, with_bytes, id_of}
use dis_minisql.Storage.TableHeap.{TableHeap, record_space, update_page}

-- The answer of UpdateTuple is the opposite of that of the page, and a page that was updated is
-- unpinned as clean.
pub update_page-not :
    (R : Replacer) (fuel : ℕ) (t : TableHeap) (b b2 : Pool R.State) (frame : ℕ)
    (row ori_row old : Row) (updated : Bool) (page : Bytes)
    → TablePage.update_tuple (bytes_of R b frame) row ori_row t.schema ≡ some (updated, (page, old))
    → record_space R fuel t
        (with_bytes R b frame page)
        (id_of R (with_bytes R b frame page) frame)
        frame
      ≡ some b2
    → update_page R fuel t b frame row ori_row
      ≡ some (
        not updated,
        (unpin_page R b2 (TablePage.get_table_page_id (bytes_of R b2 frame)) (not updated)).1,
      )
unfolding update_page
update_page-not R fuel t b b2 frame row ori_row old updated page e f = rw (update_page, e, f)
