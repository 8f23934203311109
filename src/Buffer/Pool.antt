-- ===== src/Buffer/Pool.antt =====
-- buffer/buffer_pool_manager.cpp and include/page/page.h: the buffer pool over a replacer and the
-- disk manager. A page id is `none` for INVALID_PAGE_ID, and a `Page *` is the number of its frame,
-- `none` for the null pointer. The outer `none` of a result is undefined behaviour or a failed
-- assertion.
pub mod Invariant
pub mod Frames
pub mod Install
pub mod Fetch
pub mod Unpin
pub mod Unpinned
pub mod Access
pub mod Visit
pub mod Contents
pub mod Tests
pub mod NewPage
pub mod Initial
pub mod Deletion
pub mod DirtyVictim
use dis_minisql.Prelude.{
  ℕ, zero, suc, ◌+◌, ◌-◌, Bool, true, false, Option, none, some, List, [], ◌∷◌, ◌==◌, if◌then◌else◌,
  update, not,
}
use dis_minisql.Buffer.Replacer.{Replacer}
use dis_minisql.Storage.Disk
use dis_minisql.Storage.Disk.{DiskManager, Bytes}

pub record Page : Type 0 where
  pub data_bytes : Bytes
  pub page_id : Option ℕ
  pub pin_count : ℕ
  pub is_dirty : Bool

-- The constructor of a page, and `ResetAll`.
pub blank : Page
blank = record { data_bytes = λ _. 0; page_id = none; pin_count = 0; is_dirty = false }

pub record Pool (S : Type 0) : Type 0 where
  pub pool_size : ℕ
  pub pages : ℕ → Page
  pub page_table : Option ℕ → Option ℕ
  pub free_list : List ℕ
  pub replacer : S
  pub disk : DiskManager

abbrev pub same_id : Option ℕ → Option ℕ → Bool
same_id none none = true
same_id none (some q) = false
same_id (some p) none = false
same_id (some p) (some q) = p == q

-- `page_table_[p] = f`, or `erase(p)` where `f` is `none`.
abbrev pub set_entry : (Option ℕ → Option ℕ) → Option ℕ → Option ℕ → Option ℕ → Option ℕ
set_entry table p f q = if same_id p q then f else table q

-- The frames 0 .. n - 1 in order.
pub frames_from : ℕ → ℕ → List ℕ
frames_from i zero = []
frames_from i (suc n) = i ∷ frames_from (i + 1) n

-- The calls of the disk manager, which assert that the id is not negative.
pub write_page : DiskManager → Option ℕ → Bytes → Option DiskManager
write_page d none x = none
write_page d (some p) x = some (Disk.write_page d p x)

pub read_page : DiskManager → Option ℕ → Option Bytes
read_page d none = none
read_page d (some p) = Disk.read_page d p

-- A dirty page is written, at the id that is passed.
pub write_back : DiskManager → Option ℕ → Page → Option DiskManager
write_back d page_id page = if page.is_dirty then write_page d page_id page.data_bytes else some d

module _ (R : Replacer) where
  open R use {State}

  pub init : ℕ → DiskManager → Pool State
  init pool_size d = record {
    pool_size = pool_size;
    pages = λ _. blank;
    page_table = λ _. none;
    free_list = frames_from 0 pool_size;
    replacer = R.init pool_size;
    disk = d;
  }

  -- A frame to use: the first of the free list, or a victim of the replacer. The inner `none` is
  -- a pool with every page pinned.
  pub take_victim : Pool State → Option (Option (ℕ × Pool State))
  take_victim b = if R.size b.replacer == 0 then some none else elim (R.victim b.replacer).0 [
    | none ↦ none
    | some frame_id ↦ some (some (frame_id, record b { replacer = (R.victim b.replacer).1 }))
  ]

  pub take_frame : Pool State → List ℕ → Option (Option (ℕ × Pool State))
  take_frame b [] = take_victim b
  take_frame b (frame_id ∷ rest) = some (some (frame_id, record b { free_list = rest }))

  -- `replacer_->Pin(frame_id)`.
  pub pin_frame : Pool State → ℕ → Option (Option ℕ × Pool State)
  pin_frame b frame_id = elim (R.pin b.replacer frame_id) [
    | none ↦ none
    | some r ↦ some (some frame_id, record b { replacer = r })
  ]

  -- The branch of `FetchPage` for a page in the pool.
  pub fetch_hit : Pool State → ℕ → Option (Option ℕ × Pool State)
  fetch_hit b frame_id =
      let page = b.pages frame_id in
      pin_frame
        (record b {
          pages = update b.pages frame_id (record page { pin_count = page.pin_count + 1 });
        })
        frame_id

  -- The end of `FetchPage`: the page is read into the frame.
  pub fill_frame : Option ℕ → ℕ × Pool State → Option (Option ℕ × Pool State)
  fill_frame page_id (frame_id, b) = elim (write_back b.disk page_id (b.pages frame_id)) [
    | none ↦ none
    | some d ↦ elim (read_page d page_id) [
      | none ↦ none
      | some page_data ↦
          pin_frame
            (record b {
              disk = d;
              page_table =
                  set_entry (set_entry b.page_table (b.pages frame_id).page_id none) page_id
                    (some frame_id);
              pages =
                  update b.pages frame_id
                    (record blank { data_bytes = page_data; page_id = page_id; pin_count = 1 });
            })
            frame_id
    ]
  ]

  pub fetch_page : Pool State → Option ℕ → Option (Option ℕ × Pool State)
  fetch_page b page_id = elim (b.page_table page_id) [
    | some frame_id ↦ fetch_hit b frame_id
    | none ↦ elim (take_frame b b.free_list) [
      | none ↦ none
      | some none ↦ some (none, b)
      | some (some taken) ↦ fill_frame page_id taken
    ]
  ]

  -- The end of `NewPage`: the frame is emptied for the page that the disk gave out.
  pub place_page : ℕ × Pool State → Option ℕ → DiskManager → Option (Option ℕ × Pool State)
  place_page (frame_id, b) page_id d0 = elim (write_back d0 page_id (b.pages frame_id)) [
    | none ↦ none
    | some d ↦
        pin_frame
          (record b {
            disk = d;
            page_table =
                set_entry (set_entry b.page_table (b.pages frame_id).page_id none) page_id
                  (some frame_id);
            pages = update b.pages frame_id (record (b.pages frame_id) {
              data_bytes = λ _. 0;
              page_id = page_id;
              pin_count = (b.pages frame_id).pin_count + 1;
            });
          })
          frame_id
  ]

  -- The page id, the frame, and the pool.
  pub new_page : Pool State → Option (Option ℕ × Option ℕ × Pool State)
  new_page b = elim (take_frame b b.free_list) [
    | none ↦ none
    | some none ↦ some (none, none, b)
    | some (some taken) ↦ elim (Disk.allocate_page b.disk) [
      | none ↦ none
      | some (page_id, d) ↦ elim (place_page taken page_id d) [
        | none ↦ none
        | some (frame, b') ↦ some (page_id, frame, b')
      ]
    ]
  ]

  -- `DeallocatePage`; the disk manager is passed a valid id.
  pub deallocate : Pool State → Option ℕ → Option (Pool State)
  deallocate b none = none
  deallocate b (some p) = elim (Disk.de_allocate_page b.disk p) [
    | none ↦ none
    | some d ↦ some (record b { disk = d })
  ]

  -- The rest of `DeletePage`, where `page_table_[page_id]` has made the entry of a missing page.
  pub delete_missing : Pool State → Option ℕ → Option (Bool × Pool State)
  delete_missing b page_id =
      let frame_id : ℕ = 0 in
      let entered = record b { page_table = set_entry b.page_table page_id (some frame_id) } in
      if not ((b.pages frame_id).pin_count == 0)
      then some (false, entered)
      else elim (deallocate entered page_id) [
        | none ↦ none
        | some b' ↦ some (
          true,
          record b' {
            page_table = set_entry b'.page_table page_id none;
            pages = update b'.pages frame_id blank;
            free_list = frame_id ∷ b'.free_list;
          },
        )
      ]

  pub delete_page : Pool State → Option ℕ → Option (Bool × Pool State)
  delete_page b page_id = elim (b.page_table page_id) [
    | some frame_id ↦ elim (deallocate b page_id) [ none ↦ none | some b' ↦ some (true, b') ]
    | none ↦ delete_missing b page_id
  ]

  -- The rest of `UnpinPage`, for the frame of the page.
  pub unpin_frame : Pool State → ℕ → Bool → Bool × Pool State
  unpin_frame b frame_id dirty =
      let page = b.pages frame_id in
      let lowered : Page = record page {
        is_dirty = if dirty then true else page.is_dirty;
        pin_count = page.pin_count - 1;
      } in
      let b' = record b { pages = update b.pages frame_id lowered } in
      if page.pin_count == 0
      then (true, b)
      else if lowered.pin_count == 0
      then (true, record b' { replacer = R.unpin b.replacer frame_id })
      else (false, b')

  pub unpin_page : Pool State → Option ℕ → Bool → Bool × Pool State
  unpin_page b page_id dirty = elim (b.page_table page_id) [
    | none ↦ (true, b)
    | some frame_id ↦ unpin_frame b frame_id dirty
  ]

  pub flush_page : Pool State → Option ℕ → Option (Bool × Pool State)
  flush_page b page_id = elim (b.page_table page_id) [
    | none ↦ some (true, b)
    | some frame_id ↦ elim (write_page b.disk page_id (b.pages frame_id).data_bytes) [
      | none ↦ none
      | some d ↦ some (
        true,
        record b {
          disk = d;
          pages = update b.pages frame_id (record (b.pages frame_id) { is_dirty = false });
        },
      )
    ]
  ]

  -- The destructor flushes the pages of the table, in the order in which it lists their ids.
  pub destroy : List (Option ℕ) → Pool State → Option (Pool State)
  destroy [] b = some b
  destroy (page_id ∷ rest) b = elim (flush_page b page_id) [
    | none ↦ none
    | some (_, b') ↦ destroy rest b'
  ]

  pub is_page_free : Pool State → ℕ → Option Bool
  is_page_free b p = Disk.is_page_free b.disk p

  -- The loop of `CheckAllUnpinned`, over the frames that are left.
  pub unpinned_from : ℕ → Pool State → ℕ → Bool
  unpinned_from zero b i = true
  unpinned_from (suc left) b i =
      if not ((b.pages i).pin_count == 0) then false else unpinned_from left b (i + 1)

  pub check_all_unpinned : Pool State → Bool
  check_all_unpinned b = unpinned_from b.pool_size b 0
