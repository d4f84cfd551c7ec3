-- ===== src/Buffer/Placed.antt =====
-- Every page is in exactly the queue that its buffer id and index name, once, or in none.
use fast_map.Common.{
  ℕ, ◌+◌, ◌^◌, ◌<◌, ◌≡◌, Bool, ◌==◌, if◌then◌else◌, [], ◌∷◌, erase, count, arith, count-append,
  count-erase_self, count-erase_ne, length-append, length-erase, count-le-length,
}
use fast_map.TaggedPage.{TaggedPage, bi_none, bi_clean, bi_dirty}
use fast_map.Fifo.{Pages}
use fast_map.Fifo.Valid.{IsValid}
use fast_map.Buffer.{
  Buffer, clean_id, dirty_id, insert_page, move_page_c2d, move_page_d2c, hit_page, init_params,
}

abbrev pub clean_count : TaggedPage → ℕ → ℕ
clean_count t q = if t.buffer_id == bi_clean then (if q == clean_id t then 1 else 0) else 0

abbrev pub dirty_count : TaggedPage → ℕ → ℕ
dirty_count t q = if t.buffer_id == bi_dirty then (if q == dirty_id t then 1 else 0) else 0

pub record IsPlaced (b : Buffer) : Type 0 where
  pub clean_valid : (q : ℕ) → IsValid (b.clean q)
  pub dirty_valid : (q : ℕ) → IsValid (b.dirty q)
  pub in_clean : (q p : ℕ) → count p (b.clean q).buffer ≡ clean_count (b.pages p) q
  pub in_dirty : (q p : ℕ) → count p (b.dirty q).buffer ≡ dirty_count (b.pages p) q

-- Nothing else of the pages matters to the queues.
pub IsPlaced-pages :
    (b : Buffer) (m : Pages)
    → IsPlaced b
    → ((q : ℕ) → (m q).index ≡ (b.pages q).index)
    → ((q : ℕ) → (m q).buffer_id ≡ (b.pages q).buffer_id)
    → IsPlaced (record b { pages = m })
IsPlaced-pages b m v hi hb = record {
  clean_valid = v.clean_valid;
  dirty_valid = v.dirty_valid;
  in_clean = λ q p. ground (arith, v.in_clean q p, hi p, hb p);
  in_dirty = λ q p. ground (arith, v.in_dirty q p, hi p, hb p);
}

-- Over pages that all have buffer id BI_NONE, and where the sizes fit in 64 bits, the queues that
-- init_params makes are valid and hold no page.
pub init_params-IsPlaced :
    (num_online_cpus mmap_buf_size : ℕ) (b : Buffer)
    → mmap_buf_size + num_online_cpus + 1 < 2 ^ 64
    → ((p : ℕ) → (b.pages p).buffer_id ≡ bi_none)
    → IsPlaced (init_params num_online_cpus mmap_buf_size b)
unfolding init_params
init_params-IsPlaced cpus size b h none = record {
  clean_valid = λ q. omega arith;
  dirty_valid = λ q. omega arith;
  in_clean = λ q p. ground (arith, none p);
  in_dirty = λ q p. ground (arith, none p);
}

-- Inserting a page with buffer id BI_NONE, with or without clearing its dirty state, keeps every
-- queue valid and every page once in the queue that its buffer id and index name, and in no other.
pub insert_page-IsPlaced :
    (b : Buffer) (p : ℕ) (clear : Bool)
    → IsPlaced b
    → (b.pages p).buffer_id ≡ bi_none
    → IsPlaced (insert_page b p clear)
unfolding insert_page
insert_page-IsPlaced b p clear v h = record {
  clean_valid = λ q. ground (
    arith,
    v.clean_valid q,
    v.clean_valid (clean_id (b.pages p)),
    length-append (b.clean (clean_id (b.pages p))).buffer (p ∷ []),
  );
  dirty_valid = λ q. v.dirty_valid q;
  in_clean = λ q r. ground (
    arith,
    v.in_clean q r,
    v.in_clean (clean_id (b.pages p)) r,
    count-append r (b.clean (clean_id (b.pages p))).buffer (p ∷ []),
  );
  in_dirty = λ q r. ground (arith, v.in_dirty q r);
}

-- Moving a page with buffer id BI_CLEAN to the dirty queue keeps every queue valid and every page
-- once in the queue that its buffer id and index name, and in no other.
pub move_page_c2d-IsPlaced :
    (b : Buffer) (p : ℕ)
    → IsPlaced b
    → (b.pages p).buffer_id ≡ bi_clean
    → IsPlaced (move_page_c2d b p)
unfolding move_page_c2d
move_page_c2d-IsPlaced b p v h =
    let cid = clean_id (b.pages p) in
    let id = dirty_id (b.pages p) in
    let cq = (b.clean cid).buffer in
    let dq = (b.dirty id).buffer in
    record {
      clean_valid = λ q. ground (
        arith,
        v.clean_valid q,
        v.clean_valid cid,
        v.in_clean cid p,
        length-erase p cq,
        count-le-length p cq,
      );
      dirty_valid =
          λ q. ground (arith, v.dirty_valid q, v.dirty_valid id, length-append dq (p ∷ []));
      in_clean = λ q r. ground (
        arith,
        v.in_clean q r,
        v.in_clean cid r,
        v.in_clean cid p,
        count-erase_self p cq,
        count-erase_ne r p cq,
      );
      in_dirty = λ q r.
          ground
            (arith, v.in_dirty q r, v.in_dirty id r, v.in_dirty id p, count-append r dq (p ∷ []));
    }

-- Moving a page with buffer id BI_DIRTY to the clean queue keeps every queue valid and every page
-- once in the queue that its buffer id and index name, and in no other.
pub move_page_d2c-IsPlaced :
    (b : Buffer) (p : ℕ)
    → IsPlaced b
    → (b.pages p).buffer_id ≡ bi_dirty
    → IsPlaced (move_page_d2c b p)
unfolding move_page_d2c
move_page_d2c-IsPlaced b p v h =
    let cid = clean_id (b.pages p) in
    let id = dirty_id (b.pages p) in
    let cq = (b.clean cid).buffer in
    let dq = (b.dirty id).buffer in
    record {
      clean_valid =
          λ q. ground (arith, v.clean_valid q, v.clean_valid cid, length-append cq (p ∷ []));
      dirty_valid = λ q. ground (
        arith,
        v.dirty_valid q,
        v.dirty_valid id,
        v.in_dirty id p,
        length-erase p dq,
        count-le-length p dq,
      );
      in_clean = λ q r.
          ground
            (arith, v.in_clean q r, v.in_clean cid r, v.in_clean cid p, count-append r cq (p ∷ []));
      in_dirty = λ q r. ground (
        arith,
        v.in_dirty q r,
        v.in_dirty id r,
        v.in_dirty id p,
        count-erase_self p dq,
        count-erase_ne r p dq,
      );
    }

-- A hit on a page with buffer id BI_CLEAN keeps every queue valid and every page once in the queue
-- that its buffer id and index name, and in no other.
pub hit_page-IsPlaced :
    (b : Buffer) (p : ℕ) → IsPlaced b → (b.pages p).buffer_id ≡ bi_clean → IsPlaced (hit_page b p)
unfolding hit_page
hit_page-IsPlaced b p v h =
    let cid = clean_id (b.pages p) in
    let cq = (b.clean cid).buffer in
    record {
      clean_valid = λ q. ground (
        arith,
        v.clean_valid q,
        v.clean_valid cid,
        v.in_clean cid p,
        length-erase p cq,
        count-le-length p cq,
        length-append (erase p cq) (p ∷ []),
      );
      dirty_valid = λ q. v.dirty_valid q;
      in_clean = λ q r. ground (
        arith,
        v.in_clean q r,
        v.in_clean cid r,
        v.in_clean cid p,
        count-erase_self p cq,
        count-erase_ne r p cq,
        count-append r (erase p cq) (p ∷ []),
      );
      in_dirty = λ q r. ground (arith, v.in_dirty q r);
    }
