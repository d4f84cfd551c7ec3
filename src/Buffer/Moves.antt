-- ===== src/Buffer/Moves.antt =====
-- What the moves between the queues do with the page.
use fast_map.Common.{
  ℕ, ◌≤◌, ◌≡◌, List, [], ◌∷◌, ◌++◌, erase, count, arith, length-erase, count-le-length,
}
use fast_map.TaggedPage.{bi_clean}
use fast_map.Buffer.{Buffer, clean_id, dirty_id, move_page_c2d, move_page_d2c, hit_page}
use fast_map.Buffer.Placed.{IsPlaced}

erase-append_last : (p : ℕ) (xs : List ℕ) → count p xs ≡ 0 → erase p (xs ++ p ∷ []) ≡ xs
erase-append_last p [] h = ground arith
erase-append_last p (x ∷ xs) h = ground (arith, erase-append_last p xs)

-- The queues of two buffers list the same pages in the same order.
pub record SameQueues (b c : Buffer) : Type 0 where
  pub clean : (q : ℕ) → (b.clean q).buffer ≡ (c.clean q).buffer
  pub dirty : (q : ℕ) → (b.dirty q).buffer ≡ (c.dirty q).buffer
  pub clean_size : (q : ℕ) → (b.clean q).size ≡ (c.clean q).size
  pub dirty_size : (q : ℕ) → (b.dirty q).size ≡ (c.dirty q).size

-- Where the queues are placed, a page with buffer id BI_CLEAN that is moved to a dirty queue with
-- room for it and back leaves all queues, with their sizes, as a hit on the page leaves them.
pub move_page_d2c-move_page_c2d :
    (b : Buffer) (p : ℕ)
    → IsPlaced b
    → (b.pages p).buffer_id ≡ bi_clean
    → (b.dirty (dirty_id (b.pages p))).size ≤ (b.dirty (dirty_id (b.pages p))).max_size
    → SameQueues (move_page_d2c (move_page_c2d b p) p) (hit_page b p)
unfolding move_page_c2d move_page_d2c hit_page
move_page_d2c-move_page_c2d b p v h room =
    let cid = clean_id (b.pages p) in
    let id = dirty_id (b.pages p) in
    let cq = (b.clean cid).buffer in
    let dq = (b.dirty id).buffer in
    record {
      clean = λ q. ground (
        arith,
        room,
        v.clean_valid cid,
        v.in_clean cid p,
        length-erase p cq,
        count-le-length p cq,
      );
      dirty = λ q. ground (arith, room, v.in_dirty id p, erase-append_last p dq);
      clean_size = λ q. ground (
        arith,
        room,
        v.clean_valid cid,
        v.in_clean cid p,
        length-erase p cq,
        count-le-length p cq,
      );
      dirty_size = λ q. ground (arith, room, v.dirty_valid id, v.in_dirty id p);
    }
