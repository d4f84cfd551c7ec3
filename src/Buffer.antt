-- ===== src/Buffer.antt =====
-- The page buffer of driver/mmap_generational_fifo_buffer.c: the clean queues, one for each residue
-- of the page index, and the dirty queues, one for each evictor thread. A function runs as one step:
-- the queue locks that it takes serialise it against the others on the same queue.
pub mod Placed
pub mod Steps
pub mod Moves
pub mod Etlb
pub mod Written
use fast_map.Common.{
  ℕ, ◌+◌, ◌/◌, ◌%◌, ◌^◌, Bool, true, false, ◌==◌, ◌||◌, if◌then◌else◌, Option, none, some,
}
use fast_map.TaggedPage.{
  TaggedPage, bi_clean, bi_dirty, clear_tagged_page_dirty, is_tagged_page_in_a_buffer,
}
use fast_map.Fifo.{Fifo, Pages, update}
use fast_map.Fifo.Lp
use fast_map.Fifo.D

abbrev pub num_queues : ℕ
num_queues = 32

abbrev pub evictor_threads : ℕ
evictor_threads = 8

-- `fifo_buffer_t`, with the memory of the tagged pages.
pub record Buffer : Type 0 where
  -- `primary_fifo_data[NUM_QUEUES]` and `dirty_queue[EVICTOR_THREADS]`
  pub clean : ℕ → Fifo
  pub dirty : ℕ → Fifo
  pub pages : Pages

abbrev pub set_queue : (ℕ → Fifo) → ℕ → Fifo → ℕ → Fifo
set_queue qs i f = λ j. if j == i then f else qs j

-- `page->index % NUM_QUEUES`
abbrev pub clean_id : TaggedPage → ℕ
clean_id t = t.index % num_queues

-- `(page->index >> 9) % EVICTOR_THREADS`
abbrev pub dirty_id : TaggedPage → ℕ
dirty_id t = t.index / 2 ^ 9 % evictor_threads

-- `atomic_set(&p->is_dirty, 0); ClearTaggedPageDirty(p)`
abbrev clean_page : Pages → ℕ → Pages
clean_page m p = update m p (clear_tagged_page_dirty (record (m p) { is_dirty = 0 }))

-- The queues that `init_params_fifo_buffer_t` makes; `num_online_cpus()` is the kernel's.
unfoldable pub init_params : ℕ → ℕ → Buffer → Buffer
unfolding Lp.init D.init
init_params num_online_cpus mmap_buf_size b = record b {
  clean = λ q. Lp.init (mmap_buf_size + num_online_cpus);
  dirty = λ q. D.init (mmap_buf_size + num_online_cpus);
}

unfoldable pub insert_page : Buffer → ℕ → Bool → Buffer
unfolding Lp.enqueue clear_tagged_page_dirty
insert_page b p clear =
    let id = clean_id (b.pages p) in
    let (ret, f, m) = Lp.enqueue (b.clean id) b.pages p in
    record b { clean = set_queue b.clean id f; pages = if clear then clean_page m p else m }

unfoldable pub move_page_c2d : Buffer → ℕ → Buffer
unfolding Lp.remove D.enqueue
move_page_c2d b p =
    let id = dirty_id (b.pages p) in
    let cid = clean_id (b.pages p) in
    let (cf, m) = Lp.remove (b.clean cid) b.pages p in
    let (ret, df, m') = D.enqueue (b.dirty id) m p in
    record b { clean = set_queue b.clean cid cf; dirty = set_queue b.dirty id df; pages = m' }

unfoldable pub move_page_d2c : Buffer → ℕ → Buffer
unfolding D.remove Lp.enqueue clear_tagged_page_dirty
move_page_d2c b p =
    let id = dirty_id (b.pages p) in
    let cid = clean_id (b.pages p) in
    let (df, m) = D.remove (b.dirty id) b.pages p in
    let (ret, cf, m') = Lp.enqueue (b.clean cid) m p in
    record b {
      clean = set_queue b.clean cid cf;
      dirty = set_queue b.dirty id df;
      pages = clean_page m' p;
    }

unfoldable pub hit_page : Buffer → ℕ → Buffer
unfolding Lp.remove Lp.enqueue
hit_page b p =
    let id = clean_id (b.pages p) in
    let (f, m) = Lp.remove (b.clean id) b.pages p in
    let (ret, f', m') = Lp.enqueue f m p in record b { clean = set_queue b.clean id f'; pages = m' }

-- `for(i = 0; i < NUM_QUEUES; ++i)`: every clean queue is emptied.
unfoldable pub reset_state : Buffer → Buffer
unfolding Lp.reset
reset_state b = record b { clean = λ q. Lp.reset (b.clean q) }

unfoldable pub page_in_buffer : Buffer → ℕ → Bool
unfolding is_tagged_page_in_a_buffer
page_in_buffer b p =
    is_tagged_page_in_a_buffer (b.pages p) bi_clean
    || is_tagged_page_in_a_buffer (b.pages p) bi_dirty
