-- ===== src/Buffer/Steps.antt =====
-- The buffer under the calls of the fault handler, each made where its caller makes it: a page enters
-- when it is in no queue, a clean page is hit or becomes dirty, a dirty page becomes clean.
use fast_map.Common.{ℕ, zero, suc, ltb, ◌+◌, ◌<◌, ◌^◌, ◌≡◌, Bool, ◌==◌, if◌then◌else◌, count, arith}
use fast_map.TaggedPage.{bi_none, bi_clean, bi_dirty}
use fast_map.Fifo.{Fifo}
use fast_map.Buffer.{
  Buffer, clean_id, dirty_id, insert_page, move_page_c2d, init_params, move_page_d2c, hit_page,
  page_in_buffer, num_queues, evictor_threads,
}
use fast_map.Buffer.Placed.{
  IsPlaced, init_params-IsPlaced, insert_page-IsPlaced, move_page_c2d-IsPlaced,
  move_page_d2c-IsPlaced, hit_page-IsPlaced,
}

pub data Step (b : Buffer) : Buffer → Type 0 where
  fault : (p : ℕ) (clear : Bool) → (b.pages p).buffer_id ≡ bi_none → Step b (insert_page b p clear)
  hit : (p : ℕ) → (b.pages p).buffer_id ≡ bi_clean → Step b (hit_page b p)
  mkwrite : (p : ℕ) → (b.pages p).buffer_id ≡ bi_clean → Step b (move_page_c2d b p)
  written : (p : ℕ) → (b.pages p).buffer_id ≡ bi_dirty → Step b (move_page_d2c b p)

pub data Reach (b : Buffer) : Buffer → Type 0 where
  start : Reach b b
  next : {b' b'' : Buffer} → Reach b b' → Step b' b'' → Reach b b''

-- Each step, an insertion of a page with buffer id BI_NONE with or without clearing its dirty
-- state, a hit on or a move to the dirty queue of a page with buffer id BI_CLEAN, and a move to the
-- clean queue of a page with buffer id BI_DIRTY, keeps every queue valid and every page once in the
-- queue that its buffer id and index name, and in no other.
pub Step-IsPlaced : {b b' : Buffer} → Step b b' → IsPlaced b → IsPlaced b'
Step-IsPlaced {b} (fault p clear h) v = insert_page-IsPlaced b p clear v h
Step-IsPlaced {b} (hit p h) v = hit_page-IsPlaced b p v h
Step-IsPlaced {b} (mkwrite p h) v = move_page_c2d-IsPlaced b p v h
Step-IsPlaced {b} (written p h) v = move_page_d2c-IsPlaced b p v h

pub Reach-IsPlaced : {b b' : Buffer} → Reach b b' → IsPlaced b → IsPlaced b'
Reach-IsPlaced start v = v
Reach-IsPlaced (next r s) v = Step-IsPlaced s (Reach-IsPlaced r v)

-- How often a page stands in the queues: in the clean ones and in the dirty ones.
abbrev pub held_in : (ℕ → Fifo) → ℕ → ℕ → ℕ
held_in qs zero p = 0
held_in qs (suc n) p = held_in qs n p + count p (qs n).buffer

clean_held :
    (b : Buffer) (p n : ℕ)
    → IsPlaced b
    → held_in b.clean n p ≡ (
        if (b.pages p).buffer_id == bi_clean
        then (if ltb (clean_id (b.pages p)) n then 1 else 0)
        else 0)
clean_held b p zero v = ground arith
clean_held b p (suc n) v = ground (arith, clean_held b p n v, v.in_clean n p)

dirty_held :
    (b : Buffer) (p n : ℕ)
    → IsPlaced b
    → held_in b.dirty n p ≡ (
        if (b.pages p).buffer_id == bi_dirty
        then (if ltb (dirty_id (b.pages p)) n then 1 else 0)
        else 0)
dirty_held b p zero v = ground arith
dirty_held b p (suc n) v = ground (arith, dirty_held b p n v, v.in_dirty n p)

abbrev pub holdings : Buffer → ℕ → ℕ
holdings b p = held_in b.clean num_queues p + held_in b.dirty evictor_threads p

-- From the queues that init_params makes over pages with buffer id BI_NONE, where the sizes fit in
-- 64 bits, after any sequence of insertions of pages outside the queues, hits and moves of clean
-- pages, and moves of dirty pages, every page stands exactly once in the 32 clean and 8 dirty
-- queues together if page_in_buffer says that it is in the buffer, and nowhere if not.
pub held_once :
    (num_online_cpus mmap_buf_size : ℕ) (b b' : Buffer) (p : ℕ)
    → mmap_buf_size + num_online_cpus + 1 < 2 ^ 64
    → ((q : ℕ) → (b.pages q).buffer_id ≡ bi_none)
    → Reach (init_params num_online_cpus mmap_buf_size b) b'
    → holdings b' p ≡ (if page_in_buffer b' p then 1 else 0)
unfolding page_in_buffer
held_once cpus size b b' p h none r =
    let v = Reach-IsPlaced r (init_params-IsPlaced cpus size b h none) in
    ground (arith, clean_held b' p num_queues v, dirty_held b' p evictor_threads v)
