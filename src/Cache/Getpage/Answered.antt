-- ===== src/Cache/Getpage/Answered.antt =====
-- What a page fault answers.
use fast_map.Common.{
  ℕ, ◌+◌, ◌-◌, ◌%◌, ◌^◌, ◌≤◌, ◌<◌, ◌≡◌, refl, sym, ap, ◌∙◌, subst, Bool, true, false, ltb, leb,
  ◌||◌, Option, none, some, arith, length, Bool-cases, Option-cases, inl, inr,
}
use fast_map.Fifo.{update}
use fast_map.Fifo.Lp
use fast_map.Buffer.{insert_page}
use fast_map.Fault.Rmaps.{
  is_mapped, valid_count, dmap_add_or_update_rmap, dmap_add_or_update_rmap-none,
}
use fast_map.Cache.{Cache, Kernel, pages_of, with_pages, fmap_radix_lookup}
use fast_map.Cache.Cached.{IsCached, with_pages-IsCached}
use fast_map.Cache.Purge.Spaces.{Overran}
use fast_map.Cache.Getpage.{
  VmFault, Others, Round, again, missed, hit, overrun, Answer, efault, null_page, rmaps_full,
  etlb_full, retrying, vm_fault_locked, dev_pgs, num_pages, dmap_set_page_priority, dmap_do_page_io,
  read_or_fake_page_bio, find_page, fill_page, map_page, finish, perma_getpage,
}
use fast_map.Cache.Getpage.Filled.{IsFound, fill_page-IsFilled}
use fast_map.Cache.Getpage.Found.{AreFair, Ended, tries, new, old, overruns}
use fast_map.Cache.Getpage.Rounds.{IsServed, find_page-Ended}

abbrev pub is_outside : VmFault → Bool
is_outside vmf = ltb vmf.address vmf.vm_start || leb vmf.vm_end vmf.address

pub one_page : (dev pgoff : ℕ) → dev < 2 ^ 31 → pgoff ≤ dev → num_pages dev pgoff ≡ 1
unfolding num_pages
one_page dev pgoff h g = ground arith

no_page :
    (dev pgoff : ℕ)
    → dev < pgoff
    → pgoff - dev ≤ 2 ^ 31
    → pgoff + 1 < 2 ^ 64
    → leb (2 ^ 31) (num_pages dev pgoff) ≡ true
unfolding num_pages
no_page dev pgoff h g w = ground arith

-- The page that the rounds found, with the cache at that moment.
abbrev pub page_found : {R : Type 0} → Round R → Option (ℕ × Cache R)
page_found (again c) = none
page_found (missed p c) = some (p, c)
page_found (hit p c) = some (p, c)
page_found (overrun qid c) = none

module _ {R : Type 0} (kernel : Kernel R) (ncpus percpu : ℕ) where
  -- The answers to a fault within the file or device whose rounds end as `r`.
  pub data Answered (vmf : VmFault) (r : Round R) : Answer R → Type 0 where
    outside : is_outside vmf ≡ true → Answered vmf r efault
    -- The rounds were not enough.
    unfinished :
        (c : Cache R)
        → is_outside vmf ≡ false
        → r ≡ again c
        → IsCached kernel ncpus percpu c
        → Answered vmf r (retrying c)
    -- A purge met more address spaces than its etlb has entries.
    overflows_etlb :
        (qid : ℕ) (c : Cache R)
        → is_outside vmf ≡ false
        → r ≡ overrun qid c
        → IsCached kernel ncpus percpu c
        → Overran kernel ncpus percpu qid c
        → Answered vmf r (etlb_full qid c)
    -- The reverse mappings of the page that the rounds found belong to other vmas, all of them.
    overflows :
        (p : ℕ) (found : Cache R)
        → is_outside vmf ≡ false
        → page_found r ≡ some (p, found)
        → IsFound kernel ncpus percpu vmf found p
        → is_mapped vmf.vma (pages_of found p).rmap ≡ false
        → valid_count (pages_of found p).rmap ≡ length (pages_of found p).rmap
        → Answered vmf r (rmaps_full p)
    -- The page that the rounds found is locked, holds the offset and its data, and is mapped.
    locked :
        (p : ℕ) (found c : Cache R)
        → is_outside vmf ≡ false
        → page_found r ≡ some (p, found)
        → IsCached kernel ncpus percpu c
        → IsFound kernel ncpus percpu vmf c p
        → (pages_of c p).pvd ≡ vmf.pvd
        → (pages_of c p).index ≡ vmf.pgoff
        → (pages_of c p).in_use ≡ 1
        → (pages_of c p).page_valid ≡ 1
        → dmap_add_or_update_rmap vmf.vma vmf.address vmf.cpu (pages_of found p).rmap
          ≡ some (pages_of c p).rmap
        → Answered vmf r (vm_fault_locked p c)

  map_page-Answered :
      (vmf : VmFault) (r : Round R) (p : ℕ) (found c : Cache R)
      → is_outside vmf ≡ false
      → page_found r ≡ some (p, found)
      → IsFound kernel ncpus percpu vmf found p
      → (pages_of c p).rmap ≡ (pages_of found p).rmap
      → IsCached kernel ncpus percpu c
      → IsFound kernel ncpus percpu vmf c p
      → (pages_of c p).page_valid ≡ 1
      → Answered vmf r (map_page kernel vmf p c)
  unfolding map_page fmap_radix_lookup
  map_page-Answered vmf r p found c o ended e0 same_rmap v f z =
      let old = (pages_of c p).rmap in
      let made = dmap_add_or_update_rmap vmf.vma vmf.address vmf.cpu old in
      let t = v.in_tree vmf.pvd (vmf.pgoff % kernel.num_online_cpus) vmf.pgoff p f.in_tree in
      elim (Option-cases made) [
        | inl e ↦
            let (m, n) =
              dmap_add_or_update_rmap-none vmf.vma vmf.address vmf.cpu (pages_of found p).rmap (
                ap (λ l. dmap_add_or_update_rmap vmf.vma vmf.address vmf.cpu l) (sym same_rmap)
                ∙ e) in
            subst (Answered vmf r) (sym (ground (arith, e))) (overflows p found o ended e0 m n)
        | inr (rmap, e) ↦
            let m = update (pages_of c) p (record (pages_of c p) { rmap = rmap }) in
            let same : map_page kernel vmf p c ≡ vm_fault_locked p (with_pages c m) =
              ground (arith, e) in
            subst (Answered vmf r) (sym same) (
              locked p found (with_pages c m) o ended
                (with_pages-IsCached kernel ncpus percpu c m v (λ q. ground arith)
                  (λ q. ground arith) (λ q. ground arith) (λ q. ground arith) (λ q. ground arith)
                  (λ q. ground (arith, v.unlocked q)) (λ q h. ground (arith, h)))
                (record { locked = ground (arith, f.locked); in_tree = f.in_tree })
                (ground (arith, t.same_pvd)) (ground (arith, t.same_index)) (ground (arith, t.used))
                (ground (arith, z))
                (ap (λ l. dmap_add_or_update_rmap vmf.vma vmf.address vmf.cpu l) (sym same_rmap)
                  ∙ e
                  ∙ ground arith))
      ]

  -- A new page keeps its reverse mappings until it is mapped.
  fill_page-rmap :
      (read_pages_bio : ℕ → ℕ) (vmf : VmFault) (p : ℕ) (c : Cache R)
      → (pages_of (fill_page kernel read_pages_bio vmf p c) p).rmap ≡ (pages_of c p).rmap
  unfolding fill_page dmap_set_page_priority insert_page Lp.enqueue dmap_do_page_io
      read_or_fake_page_bio
  fill_page-rmap read_pages_bio vmf p c = ground arith

  finish-Answered :
      (read_pages_bio : ℕ → ℕ) (vmf : VmFault) (r : Round R)
      → is_outside vmf ≡ false
      → Ended kernel ncpus percpu vmf r
      → Answered vmf r (finish kernel read_pages_bio vmf r)
  unfolding finish
  finish-Answered read_pages_bio vmf r o (tries c v) = unfinished c o refl v
  finish-Answered read_pages_bio vmf r o (new p c v f b z) =
      let filled = fill_page-IsFilled kernel ncpus percpu read_pages_bio vmf c p v f b z in
      map_page-Answered vmf (missed p c) p c (fill_page kernel read_pages_bio vmf p c) o refl f
        (fill_page-rmap read_pages_bio vmf p c) filled.cached filled.found filled.valid
  finish-Answered read_pages_bio vmf r o (old p c v f z) =
      map_page-Answered vmf (hit p c) p c c o refl f refl v f z
  finish-Answered read_pages_bio vmf r o (overruns qid c v h) = overflows_etlb qid c o refl v h

  -- A fault for one page.
  pub perma_getpage-one :
      (others : Others R) (read_pages_bio : ℕ → ℕ) (vmf : VmFault) (random : ℕ → ℕ) (fuel : ℕ)
      (c : Cache R)
      → is_outside vmf ≡ false
      → num_pages (dev_pgs (c.backing vmf.pvd)) vmf.pgoff ≡ 1
      → perma_getpage kernel others read_pages_bio vmf random fuel c
        ≡ finish kernel read_pages_bio vmf (find_page kernel others vmf random fuel c)
  unfolding perma_getpage
  perma_getpage-one others read_pages_bio vmf random fuel c o one = ground (arith, o, one)

  -- On a machine of one NUMA node with memory for the radix trees, for a cache whose trees, queues
  -- and free lists agree and other CPUs that keep this, that leave a page alone that this fault has
  -- just allocated, and that leave the tree's entry of the faulting page as it is between its
  -- lookup and its lock, a fault at an offset within a device of less than 2^31 pages gives -EFAULT
  -- where the address is outside of the vma; else it has not finished within its rounds, or a purge
  -- wrote outside of its etlb, on a queue whose unlocked pages have valid mappings of more than 16
  -- address spaces, or all reverse mappings of the page that its rounds found are valid and of other
  -- vmas, or it returns the page found, which the tree has for the offset, locked, in use, valid and
  -- of this device and offset, with the reverse mappings that dmap_add_or_update_rmap makes of those
  -- that the page had when it was found, and trees, queues and free lists agree again.
  pub perma_getpage-Answered :
      (others : Others R) (read_pages_bio : ℕ → ℕ) (vmf : VmFault) (random : ℕ → ℕ) (fuel : ℕ)
      (c : Cache R)
      → AreFair kernel ncpus percpu vmf others
      → IsServed kernel ncpus percpu
      → IsCached kernel ncpus percpu c
      → dev_pgs (c.backing vmf.pvd) < 2 ^ 31
      → vmf.pgoff ≤ dev_pgs (c.backing vmf.pvd)
      → Answered vmf
          (find_page kernel others vmf random fuel c)
          (perma_getpage kernel others read_pages_bio vmf random fuel c)
  unfolding perma_getpage
  perma_getpage-Answered others read_pages_bio vmf random fuel c fair served v h g =
      let found = find_page kernel others vmf random fuel c in
      let one = one_page (dev_pgs (c.backing vmf.pvd)) vmf.pgoff h g in
      elim (Bool-cases (is_outside vmf)) [
        | inl o ↦ subst (Answered vmf found) (sym (ground (arith, o))) (outside o)
        | inr o ↦
            let ended =
              find_page-Ended kernel ncpus percpu others vmf random fuel c fair served v in
            let same = perma_getpage-one others read_pages_bio vmf random fuel c o one in
            subst (Answered vmf found) (sym same) (finish-Answered read_pages_bio vmf found o ended)
      ]

  -- A fault at an address of its vma but past the end of the device, by at most 2^31 pages, goes on
  -- with a NULL page, whatever the cache and the other CPUs.
  pub perma_getpage-null :
      (others : Others R) (read_pages_bio : ℕ → ℕ) (vmf : VmFault) (random : ℕ → ℕ) (fuel : ℕ)
      (c : Cache R)
      → is_outside vmf ≡ false
      → dev_pgs (c.backing vmf.pvd) < vmf.pgoff
      → vmf.pgoff - dev_pgs (c.backing vmf.pvd) ≤ 2 ^ 31
      → vmf.pgoff + 1 < 2 ^ 64
      → perma_getpage kernel others read_pages_bio vmf random fuel c ≡ null_page
  unfolding perma_getpage
  perma_getpage-null others read_pages_bio vmf random fuel c o h g w =
      ground (arith, o, no_page (dev_pgs (c.backing vmf.pvd)) vmf.pgoff h g w)
