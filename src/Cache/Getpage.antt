-- ===== src/Cache/Getpage.antt =====
-- `perma_getpage` of driver/mmap_fault_handler.c: a page fault. The other CPUs run between its steps:
-- `others` is what they make of the cache at a moment of a round. PAGES_PER_PGFAULT is 1, as in
-- driver/shared_defines.h, and DMAP_BGON is compiled out.
pub mod Filled
pub mod Found
pub mod Rounds
pub mod Answered
pub mod Completes
pub mod Progress
pub mod Stale
use fast_map.Common.{
  ℕ, zero, suc, ◌+◌, ◌-◌, ◌/◌, ◌%◌, ◌^◌, false, ltb, leb, ◌==◌, ◌||◌, if◌then◌else◌, Option, none,
  some,
}
use fast_map.TaggedPage.{TaggedPage, trylock_tp, ulong_max}
use fast_map.Fifo.{update}
use fast_map.Buffer.{num_queues, insert_page}
use fast_map.PageMap.{alloc_page_lock, free_page_lock}
use fast_map.Write.Flush.{is_taken}
use fast_map.RawDevice.Bitmap.{Bits}
use fast_map.Fault.Rmaps.{dmap_add_or_update_rmap}
use fast_map.Cache.{
  done, exists, no_memory, Backing, Cache, Kernel, pages_of, with_pages, buffer_of, with_buffer,
  fmap_radix_lookup, fmap_radix_insert,
}
use fast_map.Cache.Purge.{try_purge_pages_fast}

-- `struct vm_fault` and its vma, with `vma->vm_private_data->pvd` and `smp_processor_id()`.
pub record VmFault : Type 0 where
  pub address : ℕ
  pub pgoff : ℕ
  pub vm_start : ℕ
  pub vm_end : ℕ
  pub vma : ℕ
  pub pvd : ℕ
  pub cpu : ℕ

-- The moments at which other CPUs run: after the lookup found a page, after a page was allocated,
-- after a purge, and while the fault waits.
pub data Moment : Type 0 where
  looked_up allocated purged waiting : Moment

abbrev pub Others : Type 0 → Type 0
Others R = Moment → ℕ → Cache R → Cache R

-- How a round ends: the code goes back to `retry_find_page`, it goes on with a page that it put into
-- the tree or that it found there, or the purge of a queue of this cache writes outside of its etlb.
pub data Round (R : Type 0) : Type 0 where
  again : Cache R → Round R
  missed : ℕ → Cache R → Round R
  hit : ℕ → Cache R → Round R
  overrun : ℕ → Cache R → Round R

-- How a fault ends. The code writes to a NULL page where there are no pages to fault in, after its
-- arrays where there are too many, before the reverse mappings of a page where these are full, and
-- before the etlb of a purge where this is full.
pub data Answer (R : Type 0) : Type 0 where
  efault : Answer R
  null_page : Answer R
  too_many_pages : Answer R
  rmaps_full : ℕ → Answer R
  etlb_full : ℕ → Cache R → Answer R
  retrying : Cache R → Answer R
  vm_fault_locked : ℕ → Cache R → Answer R

-- `dev_pgs`, an int, as the unsigned long that it is compared as.
unfoldable pub dev_pgs : Backing → ℕ
dev_pgs b =
    let n = (if b.is_block then b.size / 2 ^ 3 else b.size / 2 ^ 12) % 2 ^ 32 in
    if ltb n (2 ^ 31) then n else n + 2 ^ 64 - 2 ^ 32

-- `num_pages`, the word of an int.
unfoldable pub num_pages : ℕ → ℕ → ℕ
num_pages dev pgoff =
    let n = if leb ((pgoff + 1) % 2 ^ 64) dev then 1 else (dev + 2 ^ 64 - pgoff) % 2 ^ 32 in
    if n == 0 then 1 else n

-- The part for block devices of `read_or_fake_page_bio`: a page that has its bit is read, for another
-- the bit is set. `read_pages_bio` of the page is the block layer's, 0 or 1.
unfoldable pub read_or_fake_page_bio : (ℕ → Bits → Bits) → (ℕ → ℕ) → ℕ → Bits → ℕ × Bits
read_or_fake_page_bio set_bit read_pages_bio page_offset bits =
    if bits page_offset
    then (if read_pages_bio page_offset == 0 then 0 else 1, bits)
    else (0, set_bit page_offset bits)

-- `if(pvd->type == D_BLKD)`: the priority of a page of a file is not set.
unfoldable pub dmap_set_page_priority : Backing → ℕ → TaggedPage → TaggedPage
dmap_set_page_priority b page_offset t =
    if b.is_block then record t { priority = b.priority page_offset } else t

module _ {R : Type 0} (kernel : Kernel R) where
  -- `read_pages_file` is the file system's, so a file leaves the cache as it is. The number of pages
  -- read is not looked at.
  unfoldable pub dmap_do_page_io : (ℕ → ℕ) → VmFault → ℕ → Cache R → Cache R
  unfolding read_or_fake_page_bio
  dmap_do_page_io read_pages_bio vmf p c =
      let t = pages_of c p in
      let b = c.backing vmf.pvd in
      let (npages, bits) = read_or_fake_page_bio kernel.set_bit read_pages_bio vmf.pgoff b.bits in
      let backing : ℕ → Backing =
        λ d. if d == vmf.pvd then record b { bits = bits } else c.backing d in
      let c' = if b.is_block then record c { backing = backing } else c in
      if t.page_valid == 0
      then with_pages c' (update (pages_of c) p (record t { page_valid = 1 }))
      else c

  -- The page that was found is locked, if it can be; the wait for `page_valid` ends when it is set or
  -- at a signal.
  unfoldable pub find_hit : Others R → ℕ → ℕ → Cache R → Round R
  unfolding trylock_tp
  find_hit others n p c =
      let (r, t) = trylock_tp (pages_of c p) ulong_max in
      let c' = with_pages c (update (pages_of c) p t) in
      if is_taken r
      then hit p (if t.page_valid == 1 then c' else others waiting n c')
      else again (others waiting n c)

  -- The page that was allocated is locked and put into the tree. Another answer than 0 and -EEXIST is
  -- passed over.
  unfoldable pub find_insert : VmFault → ℕ → Cache R → Round R
  unfolding trylock_tp fmap_radix_insert free_page_lock
  find_insert vmf p c =
      let (r, t) = trylock_tp (pages_of c p) ulong_max in
      let (ret, c') =
        fmap_radix_insert kernel (with_pages c (update (pages_of c) p t)) vmf.pvd vmf.pgoff p in
      elim ret [
        | done ↦ missed p c'
        | exists ↦ again (record c' { page_map = free_page_lock c'.page_map p })
        | no_memory ↦ missed p c'
      ]

  -- After the purge of the queue `qid` of the cache `c`.
  abbrev pub after_purge : Others R → ℕ → ℕ → Cache R → Option (ℕ × Cache R) → Round R
  after_purge others n qid c none = overrun qid c
  after_purge others n qid c (some (num_pgs, c')) = again (others purged n c')

  -- A page is allocated; if there is none, a queue is purged.
  unfoldable pub find_miss : Others R → VmFault → ℕ → ℕ → Cache R → Round R
  unfolding alloc_page_lock find_insert try_purge_pages_fast
  find_miss others vmf random n c =
      let (found, pm) =
        alloc_page_lock kernel.cpumask_of_node kernel.nodes c.page_map vmf.pgoff vmf.pvd in
      let c' = record c { page_map = pm } in
      elim found [
        | none ↦
            let qid = random % num_queues in
            after_purge others n qid c' (try_purge_pages_fast kernel qid c')
        | some p ↦ find_insert vmf p (others allocated n c')
      ]

  -- From `retry_find_page` on.
  unfoldable pub find_round : Others R → VmFault → ℕ → ℕ → Cache R → Round R
  unfolding fmap_radix_lookup find_hit find_miss
  find_round others vmf random n c = elim (fmap_radix_lookup kernel c vmf.pvd vmf.pgoff) [
    | none ↦ find_miss others vmf random n c
    | some p ↦ find_hit others n p (others looked_up n c)
  ]

  -- At most `n` rounds; `random` gives the `get_random_int()` of each.
  unfoldable pub find_page : Others R → VmFault → (ℕ → ℕ) → ℕ → Cache R → Round R
  unfolding find_round
  find_page others vmf random zero c = again c
  find_page others vmf random (suc n) c = elim (find_round others vmf (random n) n c) [
    | again c' ↦ find_page others vmf random n c'
    | missed p c' ↦ missed p c'
    | hit p c' ↦ hit p c'
    | overrun qid c' ↦ overrun qid c'
  ]

  -- From the end of the loop to `pgfault_done`: the page is new.
  unfoldable pub fill_page : (ℕ → ℕ) → VmFault → ℕ → Cache R → Cache R
  unfolding dmap_set_page_priority insert_page dmap_do_page_io
  fill_page read_pages_bio vmf p c =
      let t = dmap_set_page_priority (c.backing vmf.pvd) vmf.pgoff (pages_of c p) in
      let c' = with_pages c (update (pages_of c) p t) in
      dmap_do_page_io read_pages_bio vmf p (with_buffer c' (insert_page (buffer_of c') p false))

  -- From `pgfault_done` on.
  unfoldable pub map_page : VmFault → ℕ → Cache R → Answer R
  unfolding dmap_add_or_update_rmap
  map_page vmf p c =
      elim (dmap_add_or_update_rmap vmf.vma vmf.address vmf.cpu (pages_of c p).rmap) [
        | none ↦ rmaps_full p
        | some rmap ↦
            vm_fault_locked p
              (with_pages c (update (pages_of c) p (record (pages_of c p) { rmap = rmap })))
      ]

  unfoldable pub finish : (ℕ → ℕ) → VmFault → Round R → Answer R
  unfolding fill_page map_page
  finish read_pages_bio vmf (again c) = retrying c
  finish read_pages_bio vmf (missed p c) = map_page vmf p (fill_page read_pages_bio vmf p c)
  finish read_pages_bio vmf (hit p c) = map_page vmf p c
  finish read_pages_bio vmf (overrun qid c) = etlb_full qid c

  -- `fuel` bounds the rounds.
  unfoldable pub perma_getpage : Others R → (ℕ → ℕ) → VmFault → (ℕ → ℕ) → ℕ → Cache R → Answer R
  unfolding dev_pgs num_pages find_page finish
  perma_getpage others read_pages_bio vmf random fuel c =
      let num = num_pages (dev_pgs (c.backing vmf.pvd)) vmf.pgoff in
      let answer = finish read_pages_bio vmf (find_page others vmf random fuel c) in
      if ltb vmf.address vmf.vm_start || leb vmf.vm_end vmf.address
      then efault
      else (if leb (2 ^ 31) num then null_page else (if num == 1 then answer else too_many_pages))
