-- ===== src/Buffer/Pool/Access.antt =====
-- include/page/page.h: what the code reads and writes through the `Page *` of a frame.
use dis_minisql.Prelude.{ℕ, Option, update}
use dis_minisql.Storage.Disk.{Bytes}
use dis_minisql.Buffer.Replacer.{Replacer}
use dis_minisql.Buffer.Pool.{Pool}

module _ (R : Replacer) where
  open R use {State}

  abbrev pub bytes_of : Pool State → ℕ → Bytes
  bytes_of b frame = (b.pages frame).data_bytes

  abbrev pub with_bytes : Pool State → ℕ → Bytes → Pool State
  with_bytes b frame x = record b {
    pages = update b.pages frame (record (b.pages frame) { data_bytes = x });
  }

  abbrev pub id_of : Pool State → ℕ → Option ℕ
  id_of b frame = (b.pages frame).page_id
