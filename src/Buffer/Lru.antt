-- ===== src/Buffer/Lru.antt =====
-- buffer/lru_replacer.cpp: the least-recently-used replacer, a doubly linked list of nodes on an
-- explicit heap. A pointer is the address of a node; address 0 is the null pointer.
pub mod Links
pub mod Queue
pub mod Holds
pub mod Writes
pub mod Refinement
pub mod Run
pub mod Instance
pub mod Tests
use dis_minisql.Prelude.{
  ℕ, ◌+◌, ◌-◌, Bool, true, false, Option, none, some, ltb, ◌==◌, if◌then◌else◌, update,
}

pub record Node : Type 0 where
  pub val : ℕ
  pub prev : ℕ
  pub next : ℕ

pub record LruReplacer : Type 0 where
  pub nodes : ℕ → Node
  pub fresh : ℕ
  pub head : ℕ
  pub tail : ℕ
  pub max_num_pages : ℕ
  pub now_size : ℕ
  pub map : ℕ → Option ℕ
  pub unpinned : ℕ → Bool

-- The nodes that `new node` has not written yet.
abbrev blank : Node
blank = record { val = 0; prev = 0; next = 0 }

-- The constructor: the two sentinels, at the first two addresses.
pub init : ℕ → LruReplacer
init num_pages = record {
  nodes = update (update (λ _. blank) 1 (record blank { next = 2 })) 2 (record blank { prev = 1 });
  fresh = 3;
  head = 1;
  tail = 2;
  max_num_pages = num_pages;
  now_size = 0;
  map = λ _. none;
  unpinned = λ _. false;
}

-- `now->next->prev = now->prev; now->prev->next = now->next;`
pub unlink : (ℕ → Node) → ℕ → ℕ → Node
unlink nodes now =
    let nodes' =
      update nodes (nodes now).next (record (nodes (nodes now).next) { prev = (nodes now).prev }) in
    update nodes' (nodes' now).prev (record (nodes' (nodes' now).prev) { next = (nodes' now).next })

-- The four writes that put a new node behind the head.
pub link_front : (ℕ → Node) → ℕ → ℕ → ℕ → ℕ → Node
link_front nodes head now val =
    let n1 = update nodes now (record { val = val; prev = head; next = (nodes head).next }) in
    let n2 = update n1 (n1 head).next (record (n1 (n1 head).next) { prev = now }) in
    update n2 head (record (n2 head) { next = now })

-- The frame that is given out, if there is one, and the replacer after the call.
pub victim : LruReplacer → Option ℕ × LruReplacer
victim r =
    let now = (r.nodes r.tail).prev in
    let frame_id = (r.nodes now).val in
    if r.now_size == 0 then (none, r) else (
      some frame_id,
      record r {
        nodes = unlink r.nodes now;
        map = update r.map frame_id none;
        unpinned = update r.unpinned frame_id false;
        now_size = r.now_size - 1;
      },
    )

-- `none` is the null pointer that `map[frame_id]` makes for a frame that the map does not know.
pub release : LruReplacer → ℕ → Option ℕ → Option LruReplacer
release r frame_id none = none
release r frame_id (some now) = some (record r {
  unpinned = update r.unpinned frame_id false;
  nodes = unlink r.nodes now;
  map = update r.map frame_id none;
  now_size = r.now_size - 1;
})

pub pin : LruReplacer → ℕ → Option LruReplacer
pin r frame_id =
    if ltb r.max_num_pages frame_id
    then some r
    else if r.unpinned frame_id
    then release r frame_id (r.map frame_id)
    else some r

pub unpin : LruReplacer → ℕ → LruReplacer
unpin r frame_id =
    if ltb r.max_num_pages frame_id then r else if r.unpinned frame_id then r else record r {
      unpinned = update r.unpinned frame_id true;
      now_size = r.now_size + 1;
      nodes = link_front r.nodes r.head r.fresh frame_id;
      fresh = r.fresh + 1;
      map = update r.map frame_id (some r.fresh);
    }

pub size : LruReplacer → ℕ
size r = r.now_size
