-- ===== src/Fault/Mkwrite/Answered.antt =====
-- The answers of `perma_page_mkwrite`.
use mathlib.Core.Path.{fun_ext}
use fast_map.Common.{
  ℕ, ◌≡◌, ◌≢◌, refl, sym, ap, subst, Bool, true, false, ◌==◌, ◌&&◌, ◌||◌, Option, none, some, arith,
  Bool-cases, inl, inr,
}
use fast_map.TaggedPage.{TaggedPage, TryLock, taken, trylock_tp, bi_clean, ulong_max}
use fast_map.Fifo.{update}
use fast_map.Buffer.{Buffer}
use fast_map.Buffer.Placed.{IsPlaced, IsPlaced-pages}
use fast_map.Rbtree.{RbLib, inorder}
use fast_map.Rbtree.Search.{Increasing}
use fast_map.Fault.Writable.{PrVmaData, index_of, IsTracked, dmap_do_tagged_page_writable}
use fast_map.Fault.Writable.Tracked.{
  Written, already, written, dmap_do_tagged_page_writable-Written,
}
use fast_map.Fault.Mkwrite.{
  Mkwrite, nopage, locked, waits, writable_now, answer, perma_page_mkwrite,
}

module _ (lib : RbLib) (num_online_cpus : ℕ) (b : Buffer) (pvd : PrVmaData) (p : ℕ) where
  -- The page with its lock held, and the device no longer read-only.
  abbrev pub held : Buffer
  held = record b { pages = update b.pages p (record (b.pages p) { locked = true }) }

  abbrev pub writable : PrVmaData
  writable = record pvd { is_readonly = false }

  abbrev pub fits : ℕ → Bool
  fits page_offset = (page_offset == ulong_max) || ((b.pages p).index == page_offset)

  -- The three kinds of answer: a page that is free or has another index is left alone, a locked one is
  -- waited for, and else the page is locked and was made dirty.
  pub data Answered (page_offset : ℕ) : Mkwrite → Type 0 where
    left_alone :
        (b' : Buffer)
        → ((b.pages p).in_use == 1) && fits page_offset ≡ false
        → b'.pages ≡ b.pages
        → b'.clean ≡ b.clean
        → b'.dirty ≡ b.dirty
        → Answered page_offset (nopage b' writable)
    waited_for : (b.pages p).locked ≡ true → Answered page_offset waits
    made_writable :
        (b' : Buffer) (pvd' : PrVmaData)
        → (b.pages p).in_use ≡ 1
        → (b.pages p).locked ≡ false
        → fits page_offset ≡ true
        → Written lib num_online_cpus held writable p (some (b', pvd'))
        → Answered page_offset (locked b' pvd')

  held-IsPlaced : IsPlaced b → IsPlaced held
  held-IsPlaced v = IsPlaced-pages b held.pages v (λ q. ground arith) (λ q. ground arith)

  held-index_of : index_of held.pages ≡ index_of b.pages
  held-index_of = fun_ext (λ q. ground arith)

  held-IsTracked : IsTracked lib num_online_cpus b pvd → IsTracked lib num_online_cpus held writable
  held-IsTracked v = record {
    ordered = λ c.
        subst (λ (ix : ℕ → ℕ). Increasing ix (inorder (pvd.dirty_tree c))) (sym held-index_of)
          (v.ordered c);
    tracked = λ c q. ground (arith, v.tracked c q);
  }

  same_pages : update b.pages p (b.pages p) ≡ b.pages
  same_pages = fun_ext (λ q. ground arith)

  Written-some :
      (o : Option (Buffer × PrVmaData)) → Written lib num_online_cpus held writable p o → o ≢ none
  Written-some o (already h) = λ e. ground (arith, e)
  Written-some o (written b' pvd' h1 h2 h3 h4 h5 h6 h7) = λ e. ground (arith, e)

  -- Made writable, the call is never BUG().
  made-Answered :
      (page_offset : ℕ) (o : Option (Buffer × PrVmaData))
      → (b.pages p).in_use ≡ 1
      → (b.pages p).locked ≡ false
      → fits page_offset ≡ true
      → Written lib num_online_cpus held writable p o
      → Answered page_offset (writable_now o)
  made-Answered page_offset none u l f w = absurd (Written-some none w refl)
  made-Answered page_offset (some (b', pvd')) u l f w = made_writable b' pvd' u l f w

  trylock_tp-taken :
      (page_offset : ℕ)
      → (((b.pages p).in_use == 1) && fits page_offset) ≡ true
      → (b.pages p).locked ≡ false
      → trylock_tp (b.pages p) page_offset ≡ (taken, record (b.pages p) { locked = true })
  unfolding trylock_tp
  trylock_tp-taken page_offset ok l = ground (arith, ok, l)

  perma_page_mkwrite-taken :
      (page_offset : ℕ)
      → (((b.pages p).in_use == 1) && fits page_offset) ≡ true
      → (b.pages p).locked ≡ false
      → perma_page_mkwrite lib num_online_cpus b pvd p page_offset
        ≡ writable_now (dmap_do_tagged_page_writable lib num_online_cpus held writable p)
  unfolding perma_page_mkwrite answer
  perma_page_mkwrite-taken page_offset ok l =
      ap
        (λ (r : TryLock × TaggedPage).
          answer lib num_online_cpus r.0 (record b { pages = update b.pages p r.1 }) writable p)
        (trylock_tp-taken page_offset ok l)

  -- Where the queues are placed, the dirty trees hold the device's dirty pages, the page belongs to
  -- the device, no other page of the device has its index, and a page that is not dirty is in a
  -- clean queue: a write fault on a page that is not in use or has another index than the one asked
  -- for leaves pages and queues as they are and marks the device as not read-only; on one that is
  -- locked it waits; else it locks the page and leaves it dirty and found in its dirty tree, with
  -- queues and trees in order and no other page changed, or as it was where it was dirty already;
  -- it never runs into BUG().
  pub perma_page_mkwrite-Answered :
      (page_offset : ℕ)
      → IsPlaced b
      → IsTracked lib num_online_cpus b pvd
      → (b.pages p).pvd ≡ pvd.id
      → ((q : ℕ) → (b.pages q).pvd ≡ pvd.id → (b.pages q).index ≡ (b.pages p).index → q ≡ p)
      → ((b.pages p).is_dirty ≡ 0 → (b.pages p).buffer_id ≡ bi_clean)
      → Answered page_offset (perma_page_mkwrite lib num_online_cpus b pvd p page_offset)
  unfolding perma_page_mkwrite answer trylock_tp
  perma_page_mkwrite-Answered page_offset v t mine unique queued =
      let same : Buffer = record b { pages = update b.pages p (b.pages p) } in
      elim (Bool-cases (((b.pages p).in_use == 1) && fits page_offset)) [
        | inr bad ↦
            subst (λ r. Answered page_offset r) {x = nopage same writable} (ground (arith, bad))
              (left_alone same bad same_pages refl refl)
        | inl ok ↦ elim (Bool-cases (b.pages p).locked) [
          | inl l ↦
              subst (λ r. Answered page_offset r) {x = waits} (ground (arith, ok, l)) (waited_for l)
          | inr l ↦
              let in_use_now : (b.pages p).in_use ≡ 1 = ground (arith, ok) in
              let fit : fits page_offset ≡ true = ground (arith, ok) in
              subst (λ r. Answered page_offset r) (sym (perma_page_mkwrite-taken page_offset ok l))
                (made-Answered page_offset
                  (dmap_do_tagged_page_writable lib num_online_cpus held writable p) in_use_now l
                  fit
                  (dmap_do_tagged_page_writable-Written lib num_online_cpus held writable p
                    (held-IsPlaced v) (held-IsTracked t) (ground (arith, mine))
                    (λ q o i. unique q (ground (arith, o)) (ground (arith, i)))
                    (λ c. ground (arith, queued, c))))
        ]
      ]
