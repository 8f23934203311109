-- ===== src/Lib.antt =====
-- MiniSQL, the single-node engine of the repository (minisql/), modelled from its C++ sources.
--
-- The engine is a stack of layers. The disk manager (minisql/src/storage/disk_manager.cpp) keeps a
-- file of pages in extents, each behind a bitmap page (minisql/src/page/bitmap_page.cpp). The
-- buffer pool (minisql/src/buffer/buffer_pool_manager.cpp) keeps some of the pages in memory and
-- chooses what to give up by a replacer (minisql/src/buffer/lru_replacer.cpp). The rows of a table are
-- serialized (minisql/src/record/row.cpp) into slotted pages (minisql/src/page/table_page.cpp); the keys
-- of an index are serialized rows, which the pages of the B+ tree hold in order.
--
-- Which file models which part:
-- - Prelude: numbers, lists, maps as functions, tests; shared by all.
-- - Page/Bitmap: BitmapPage; `set`, `reset`, `get`, `allocate_page`, `de_allocate_page`,
--   `is_page_free`, `is_page_free_low` are its methods. Bits proves what the byte operations do to
--   the bits, Search that the search for the next free page ends, Allocation and Release the two
--   methods, RoundTrip that one undoes the other.
-- - Storage/Disk: DiskManager with DiskFileMetaPage. Layout is the layout of a bitmap in the bytes of
--   a page, Mapping the place of logical pages in the file, Invariant the well-formed disk, Extent
--   and Allocation `AllocatePage`, Release `DeAllocatePage`, Data `ReadPage` and `WritePage`.
-- - Buffer/Lru: LRUReplacer over a heap of nodes. Links has the doubly linked list, Holds and Writes
--   the invariant, Queue the abstract queue of frames, Refinement and Run the refinement.
-- - Buffer/Replacer: the abstract Replacer with its laws, over a list of frames; Buffer/Lru/Instance
--   fills it with LRUReplacer.
-- - Buffer/Pool: BufferPoolManager and Page, over any replacer with the laws and the disk manager.
--   Invariant is the well-formed pool, Frames the choice of a frame, Install the entry of a page into
--   it, Fetch, NewPage and Unpin the methods, Contents what a reader of a page is to see, DirtyVictim
--   and Deletion the two places where the code does not do what its comments say, Initial the
--   constructor and `CheckAllUnpinned`. Access is what is read and written through a `Page *`, Visit a
--   page that is fetched, written and unpinned, Unpinned an unpin of a clean page.
-- - Recovery: LogRec, CheckPoint and RecoveryManager (minisql/src/include/recovery/), over keys with
--   a test for equality. Database is what one record does to the data, Undo `UndoTxn`, Sorted
--   the map of the records by number, TxnChain the records of one transaction, Records the constructor
--   of `LogRec` and `AppendLogRec`, Phases `RedoPhase` at an abort.
-- - Page/TreePage and Page/Leaf: BPlusTreePage and BPlusTreeLeafPage (minisql/src/page/), over the
--   comparison of keys as a parameter with its laws. Page/Pairs has the arrays of pairs; Search is the
--   two binary searches, Insertion and Removal the two updates, Moves the moves between siblings.
-- - Page/Internal: BPlusTreeInternalPage, with the pages of its children in the buffer pool. Search is
--   `Lookup`, Updates the insertion and the removal, Adoption the change of parent of
--   children that move, Moves the split.
-- - Page/IndexRoots: IndexRootsPage, with Insertion on `Insert` and `GetRootId`.
-- - Memory: what the macros of minisql/src/include/common/macros.h write to a buffer and read from it.
--   Reading has what is read back, Framing what a write leaves alone.
-- - Record: the types, fields, columns, schemas and rows (minisql/src/record/). Types, TypeInt,
--   TypeFloat and TypeChar are the classes of types.cpp, Field the fields and their dispatch. The
--   RoundTrip modules are on serialization, Row/Header on the bitmap of nulls, Row/KeyRow on
--   `GetKeyFromRow`, Field/Comparison and Field/Keys on the six comparisons, TypeChar/Order on
--   `CompareStrings`.
-- - Index/GenericKey: KeyManager (minisql/src/include/index/generic_key.h) over serialized rows. Order is
--   the order of keys, Comparison that `CompareKeys` follows it, Nulls how it passes over nulls, and
--   Manager fills the interface of the key manager that the tree pages take as a parameter.
-- - Page/TablePage: TablePage (minisql/src/page/table_page.cpp), on the bytes of a page. Access is on
--   its fields, View what a page holds as a map from slots to tuples and when it is well formed,
--   Placement, Insertion and Rows are on `InsertTuple`, Lookup on `GetTuple`, Marking on `MarkDelete`
--   and `RollbackDelete`, Shifting on the loops over the slots, Deletion on `ApplyDelete`, Update on
--   `UpdateTuple`, Scan on `Init` and the scan.
-- - Page/FreeSpaceMapPage: FreeSpaceMapPage (minisql/src/page/freespace_map_page.cpp); Pairs is on
--   `NewPair` and on the search of one page.
-- - Storage/FreeSpaceMap: FreeSpaceMap (minisql/src/storage/freespace_map.cpp), a list of such pages
--   over the buffer pool. Pair is on `SetNewPair`, Search on `GetBegin` and `GetNext`.
-- - Storage/TableHeap: TableHeap (minisql/src/storage/table_heap.cpp), the rows of a table over the table
--   pages, the pool and the free space map. Update is on `UpdateTuple`.
--
-- Bounds and fuel. Numbers are natural numbers; 32-bit counters wrap where the source computes
-- with them. The loop of BitmapPage::AllocatePage runs on as much fuel as the page has bits, and
-- is proved to end within it. The binary searches run on as much fuel as the page has pairs, which
-- is enough as each turn narrows the range. `UndoTxn` runs on as much fuel as the log has records,
-- which is enough as the numbers of a chain fall. The walks along the pages of a free space map
-- run on fuel, one unit for each page, and so does the loop of `InsertTuple` over the pages of a
-- table; out of fuel they are `none`. The loop over the extents recurs on the extents that are
-- left. An `int` product that overflows is undefined behaviour and is `none`. The length of the
-- list of the replacer and the pins of a page are lowered by a subtraction that stops at 0; on
-- well-formed states they are above 0 there. Record numbers end below 2^31. An `int32_t` and a
-- `float` are their bit patterns below 2^32. A shift of 1 by 32 or more is undefined behaviour and
-- is `none`, so rows have at most 32 fields. A failed assertion is `none`.
--
-- Not modelled: the B+ tree above its pages, the release of a table and its iterator, the catalog,
-- the executors, the clock replacer, the transaction and lock managers, the SQL parser
-- (generated), logging, latches, the failures of the file stream.
mod Prelude
pub mod Buffer
pub mod Page
pub mod Storage
pub mod Recovery
mod Memory
pub mod Record
pub mod Index
