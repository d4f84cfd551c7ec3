-- ===== src/Cache/Clear/Removed.antt =====
-- One round of the loops: a page leaves its tree and its queue and is freed.
use fast_map.Common.{ℕ, ◌≡◌, arith, count-erase_self, count-erase_ne, length-erase, count-le-length}
use fast_map.TaggedPage.{bi_clean, bi_dirty}
use fast_map.Fifo.Lp
use fast_map.Fifo.D
use fast_map.Buffer.{clean_id, dirty_id}
use fast_map.Cache.{Cache, Kernel, pages_of, fmap_radix_lookup}
use fast_map.Cache.Cached.{IsCached}
use fast_map.Cache.Clear.{remove_clean, remove_dirty}

module _ {R : Type 0} (kernel : Kernel R) (ncpus percpu : ℕ) where
  pub remove_clean-IsCached :
      (c : Cache R) (p : ℕ)
      → IsCached kernel ncpus percpu c
      → (pages_of c p).buffer_id ≡ bi_clean
      → IsCached kernel ncpus percpu (remove_clean p c)
  unfolding remove_clean Lp.remove fmap_radix_lookup
  remove_clean-IsCached c p v b =
      let id = clean_id (pages_of c p) in
      let xs = (c.clean id).buffer in
      record {
        homed = record {
          listed = λ d q. ground (arith, v.homed.listed d q);
          home = λ d q. ground (arith, v.homed.home d q);
        };
        owned = λ q. ground (arith, v.owned q);
        unlocked = λ q. ground (arith, v.unlocked q);
        placed = record {
          clean_valid = λ q. ground (
            arith,
            v.placed.clean_valid q,
            v.placed.clean_valid id,
            v.placed.in_clean id p,
            b,
            length-erase p xs,
            count-le-length p xs,
          );
          dirty_valid = v.placed.dirty_valid;
          in_clean = λ q r. ground (
            arith,
            v.placed.in_clean q r,
            v.placed.in_clean id r,
            v.placed.in_clean id p,
            b,
            count-erase_self p xs,
            count-erase_ne r p xs,
          );
          in_dirty = λ q r. ground (arith, v.placed.in_dirty q r, b);
        };
        in_tree = λ d k i q f.
            let t = v.in_tree d k i q f in
            record {
              same_pvd = ground (arith, t.same_pvd);
              same_index = ground (arith, t.same_index);
              used = ground (arith, t.used);
              own_tree = t.own_tree;
              readable = ground (arith, t.readable);
            };
        queued = λ q. ground (arith, v.queued q);
      }

  pub remove_dirty-IsCached :
      (c : Cache R) (p : ℕ)
      → IsCached kernel ncpus percpu c
      → (pages_of c p).buffer_id ≡ bi_dirty
      → IsCached kernel ncpus percpu (remove_dirty p c)
  unfolding remove_dirty D.remove fmap_radix_lookup
  remove_dirty-IsCached c p v b =
      let id = dirty_id (pages_of c p) in
      let xs = (c.dirty id).buffer in
      record {
        homed = record {
          listed = λ d q. ground (arith, v.homed.listed d q);
          home = λ d q. ground (arith, v.homed.home d q);
        };
        owned = λ q. ground (arith, v.owned q);
        unlocked = λ q. ground (arith, v.unlocked q);
        placed = record {
          clean_valid = v.placed.clean_valid;
          dirty_valid = λ q. ground (
            arith,
            v.placed.dirty_valid q,
            v.placed.dirty_valid id,
            v.placed.in_dirty id p,
            b,
            length-erase p xs,
            count-le-length p xs,
          );
          in_clean = λ q r. ground (arith, v.placed.in_clean q r, b);
          in_dirty = λ q r. ground (
            arith,
            v.placed.in_dirty q r,
            v.placed.in_dirty id r,
            v.placed.in_dirty id p,
            b,
            count-erase_self p xs,
            count-erase_ne r p xs,
          );
        };
        in_tree = λ d k i q f.
            let t = v.in_tree d k i q f in
            record {
              same_pvd = ground (arith, t.same_pvd);
              same_index = ground (arith, t.same_index);
              used = ground (arith, t.used);
              own_tree = t.own_tree;
              readable = ground (arith, t.readable);
            };
        queued = λ q. ground (arith, v.queued q);
      }
