-- ===== src/Cache/Purge/Rounds.antt =====
-- One round of `try_purge_pages_fast`: the page at the head of the queue leaves it, locked, or goes to
-- the tail.
use mathlib.Core.Path.{fun_ext}
use fast_map.Common.{
  ℕ, ◌≡◌, refl, sym, subst, Bool, true, false, ◌==◌, ◌&&◌, not, List, [], ◌∷◌, ◌++◌, none, some,
  arith, count, count-append, length-append, Bool-cases, inl, inr,
}
use fast_map.TaggedPage.{TaggedPage, bi_none, bi_clean}
use fast_map.TaggedPage.Mapping.{Rmap}
use fast_map.Fifo.{Fifo, Pages, Taken, update, set_buffer_id, decrement}
use fast_map.Fifo.Lp
use fast_map.Fifo.Valid.{IsValid}
use fast_map.Buffer.{set_queue, clean_id}
use fast_map.Cache.{
  Backing, Cache, Kernel, pages_of, with_pages, fmap_radix_lookup, radix_delete_page,
}
use fast_map.Cache.Cached.{IsCached, IsHeld, with_pages-IsCached, radix_delete_page-IsCached}
use fast_map.Cache.Purge.{deq}

-- The page can be locked and its device is not being removed.
abbrev pub accepts : (ℕ → Backing) → TaggedPage → Bool
accepts backing t = not ((backing t.pvd).during_unlink == 1) && ((t.in_use == 1) && not t.locked)

-- The memory after the page was locked and taken off its queue.
abbrev pub locked_out : Pages → ℕ → Pages
locked_out m p = set_buffer_id (update m p (record (m p) { locked = true })) p bi_none

pub data Dequeued (backing : ℕ → Backing) (f : Fifo) (m : Pages) : Taken → Type 0 where
  empty : f.buffer ≡ [] → Dequeued backing f m (none, f, m)
  refused :
      (p : ℕ) (rest : List ℕ)
      → f.buffer ≡ p ∷ rest
      → accepts backing (m p) ≡ false
      → Dequeued backing f m (none, record f { buffer = rest ++ p ∷ [] }, m)
  took :
      (p : ℕ) (rest : List ℕ)
      → f.buffer ≡ p ∷ rest
      → accepts backing (m p) ≡ true
      → Dequeued backing f m
          (some p, record f { buffer = rest; size = decrement f.size }, locked_out m p)

update_same : (m : Pages) (p : ℕ) → update m p (m p) ≡ m
update_same m p = fun_ext (λ q. ground arith)

deq-accepted :
    (backing : ℕ → Backing) (m : Pages) (p : ℕ)
    → accepts backing (m p) ≡ true
    → deq backing m p ≡ (true, update m p (record (m p) { locked = true }))
unfolding deq
deq-accepted backing m p a = ground (arith, a)

deq-refused :
    (backing : ℕ → Backing) (m : Pages) (p : ℕ)
    → accepts backing (m p) ≡ false
    → deq backing m p ≡ (false, m)
unfolding deq
deq-refused backing m p a = ground (arith, a, update_same m p)

pub dequeue_if-Dequeued :
    (backing : ℕ → Backing) (f : Fifo) (m : Pages)
    → IsValid f
    → Dequeued backing f m (Lp.dequeue_if (deq backing) f m)
unfolding Lp.dequeue_if
dequeue_if-Dequeued backing f m v = split f.buffer refl
  where
    split : (q : List ℕ) → f.buffer ≡ q → Dequeued backing f m (Lp.dequeue_if (deq backing) f m)
    split [] e = subst (Dequeued backing f m) (sym (ground (arith, e, v.counted))) (empty e)
    split (p ∷ rest) e = elim (Bool-cases (accepts backing (m p))) [
      | inl a ↦
          subst (Dequeued backing f m)
            (sym (ground (arith, e, v.counted, deq-accepted backing m p a))) (took p rest e a)
      | inr a ↦
          subst (Dequeued backing f m)
            (sym (ground (arith, e, v.counted, deq-refused backing m p a))) (refused p rest e a)
    ]

module _ {R : Type 0} (kernel : Kernel R) (ncpus percpu : ℕ) where
  abbrev pub rotated : Cache R → ℕ → ℕ → List ℕ → Cache R
  rotated c qid p rest = record c {
    clean = set_queue c.clean qid (record (c.clean qid) { buffer = rest ++ p ∷ [] });
  }

  pub rotated-IsCached :
      (c : Cache R) (qid p : ℕ) (rest : List ℕ)
      → IsCached kernel ncpus percpu c
      → (c.clean qid).buffer ≡ p ∷ rest
      → IsCached kernel ncpus percpu (rotated c qid p rest)
  unfolding fmap_radix_lookup
  rotated-IsCached c qid p rest v e = record {
    homed = v.homed;
    owned = v.owned;
    unlocked = v.unlocked;
    placed = record {
      clean_valid = λ q.
          ground (
            arith,
            v.placed.clean_valid q,
            v.placed.clean_valid qid,
            e,
            length-append rest (p ∷ []),
          );
      dirty_valid = v.placed.dirty_valid;
      in_clean = λ q r.
          ground (
            arith,
            v.placed.in_clean q r,
            v.placed.in_clean qid r,
            e,
            count-append r rest (p ∷ []),
          );
      in_dirty = v.placed.in_dirty;
    };
    in_tree = v.in_tree;
    queued = v.queued;
  }

  abbrev pub taken_out : Cache R → ℕ → ℕ → List ℕ → Cache R
  taken_out c qid p rest = record (with_pages c (locked_out (pages_of c) p)) {
    clean =
        set_queue c.clean qid
          (record (c.clean qid) { buffer = rest; size = decrement (c.clean qid).size });
  }

  -- The head of a clean queue is in that queue only.
  pub head-placed :
      (c : Cache R) (qid p : ℕ) (rest : List ℕ)
      → IsCached kernel ncpus percpu c
      → (c.clean qid).buffer ≡ p ∷ rest
      → ((pages_of c p).buffer_id ≡ bi_clean) × (clean_id (pages_of c p) ≡ qid) × (count p rest ≡ 0)
  head-placed c qid p rest v e = ground (arith, v.placed.in_clean qid p, e)

  taken_out-IsCached :
      (c : Cache R) (qid p : ℕ) (rest : List ℕ)
      → IsCached kernel ncpus percpu c
      → (c.clean qid).buffer ≡ p ∷ rest
      → (pages_of c p).in_use ≡ 1
      → IsCached kernel ncpus percpu (taken_out c qid p rest)
  unfolding fmap_radix_lookup
  taken_out-IsCached c qid p rest v e u =
      let head = head-placed c qid p rest v e in
      record {
        homed = record {
          listed = λ d q. ground (arith, v.homed.listed d q);
          home = λ d q. ground (arith, v.homed.home d q);
        };
        owned = λ q. ground (arith, v.owned q);
        unlocked = λ q. ground (arith, v.unlocked q, u);
        placed = record {
          clean_valid = λ q. ground (arith, v.placed.clean_valid q, v.placed.clean_valid qid, e);
          dirty_valid = v.placed.dirty_valid;
          in_clean = λ q r. ground (arith, v.placed.in_clean q r, v.placed.in_clean qid r, e, head);
          in_dirty = λ q r. ground (arith, v.placed.in_dirty q r, head);
        };
        in_tree = λ d k i q f.
            let t = v.in_tree d k i q f in
            record {
              same_pvd = ground (arith, t.same_pvd);
              same_index = ground (arith, t.same_index);
              used = ground (arith, t.used);
              own_tree = t.own_tree;
              readable = ground (arith, t.readable);
            };
        queued = λ q. ground (arith, v.queued q);
      }

  abbrev pub detached : Cache R → ℕ → List Rmap → Cache R
  detached c p rmap =
      let c' = radix_delete_page kernel c p in
      with_pages c' (update (pages_of c') p (record (pages_of c' p) { rmap = rmap }))

  -- The page that was taken out of its queue leaves its tree and is held then.
  pub detached-IsHeld :
      (c : Cache R) (qid p : ℕ) (rest : List ℕ) (rmap : List Rmap)
      → IsCached kernel ncpus percpu c
      → (c.clean qid).buffer ≡ p ∷ rest
      → (pages_of c p).in_use ≡ 1
      → IsCached kernel ncpus percpu (detached (taken_out c qid p rest) p rmap)
        × IsHeld kernel ncpus percpu (detached (taken_out c qid p rest) p rmap) p
  unfolding radix_delete_page fmap_radix_lookup
  detached-IsHeld c qid p rest rmap v e u =
      let head = head-placed c qid p rest v e in
      let c1 = taken_out c qid p rest in
      let in_tree = v.queued p (ground (arith, head)) in
      let (v1, gone) =
        radix_delete_page-IsCached kernel ncpus percpu c1 p (taken_out-IsCached c qid p rest v e u)
          (ground arith) (ground (arith, in_tree)) in
      (
        with_pages-IsCached kernel ncpus percpu (radix_delete_page kernel c1 p)
            (update (pages_of c1) p (record (pages_of c1 p) { rmap = rmap })) v1 (λ q. ground arith)
            (λ q. ground arith) (λ q. ground arith) (λ q. ground arith) (λ q. ground arith)
            (λ q. ground (arith, v1.unlocked q)) (λ q h. ground (arith, h)),
        record {
          taken = ground (arith, u);
          locked = ground arith;
          unqueued = ground arith;
          out_of_trees = gone;
        },
      )
