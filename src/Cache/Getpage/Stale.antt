-- ===== src/Cache/Getpage/Stale.antt =====
-- A page that changes hands between a fault's lookup and its lock.
use fast_map.Common.{ℕ, suc, ◌^◌, ◌≤◌, ◌<◌, ◌≡◌, ◌∙◌, ap, true, false, List, some, arith}
use fast_map.TaggedPage.{trylock_tp}
use fast_map.TaggedPage.Mapping.{Rmap}
use fast_map.Fifo.{update}
use fast_map.Fault.Rmaps.{dmap_add_or_update_rmap}
use fast_map.Cache.{Cache, Kernel, pages_of, with_pages, fmap_radix_lookup}
use fast_map.Cache.Getpage.{
  VmFault, looked_up, Others, Round, again, missed, hit, overrun, vm_fault_locked, dev_pgs,
  find_hit, find_round, find_page, map_page, finish, perma_getpage,
}
use fast_map.Cache.Getpage.Answered.{is_outside, one_page, perma_getpage-one}
use fast_map.Cache.Getpage.Rounds.{round_after}

module _ {R : Type 0} (kernel : Kernel R) where
  -- The page locked, and with new reverse mappings.
  abbrev pub with_lock : Cache R → ℕ → Cache R
  with_lock c p = with_pages c (update (pages_of c) p (record (pages_of c p) { locked = true }))

  abbrev pub with_rmap : Cache R → ℕ → List Rmap → Cache R
  with_rmap c p rmap = with_pages c (update (pages_of c) p (record (pages_of c p) { rmap = rmap }))

  find_hit-hit :
      (others : Others R) (n : ℕ) (c : Cache R) (p : ℕ)
      → (pages_of c p).in_use ≡ 1
      → (pages_of c p).locked ≡ false
      → (pages_of c p).page_valid ≡ 1
      → find_hit kernel others n p c ≡ hit p (with_lock c p)
  unfolding find_hit trylock_tp
  find_hit-hit others n c p u l z = ground (arith, u, l, z)

  find_page-hit :
      (others : Others R) (vmf : VmFault) (random : ℕ → ℕ) (n : ℕ) (c : Cache R) (p : ℕ)
      (found : Cache R)
      → fmap_radix_lookup kernel c vmf.pvd vmf.pgoff ≡ some p
      → find_hit kernel others n p (others looked_up n c) ≡ hit p found
      → find_page kernel others vmf random (suc n) c ≡ hit p found
  unfolding find_page find_round
  find_page-hit others vmf random n c p found e h =
      ap
        (λ (r : Round R). elim r as (λ _. Round R) [
          | again c' ↦ find_page kernel others vmf random n c'
          | missed q c' ↦ missed q c'
          | hit q c' ↦ hit q c'
          | overrun qid c' ↦ overrun qid c'
        ])
        (ap (λ x. round_after kernel 0 0 others vmf (random n) n c x) e ∙ h)

  map_page-some :
      (vmf : VmFault) (p : ℕ) (c : Cache R) (rmap : List Rmap)
      → dmap_add_or_update_rmap vmf.vma vmf.address vmf.cpu (pages_of c p).rmap ≡ some rmap
      → map_page kernel vmf p c ≡ vm_fault_locked p (with_rmap c p rmap)
  unfolding map_page
  map_page-some vmf p c rmap e = ground (arith, e)

  -- For a fault within its vma and within a device of less than 2^31 pages, whose page the tree
  -- has: if the other CPUs run between the lookup and the lock and afterwards the page found is in
  -- use, unlocked, valid and has room for the mapping, the fault locks, maps and returns it,
  -- whatever device and offset it then has.
  pub perma_getpage-stale :
      (others : Others R) (read_pages_bio : ℕ → ℕ) (vmf : VmFault) (random : ℕ → ℕ) (n : ℕ)
      (c c' : Cache R) (p : ℕ) (rmap : List Rmap)
      → is_outside vmf ≡ false
      → dev_pgs (c.backing vmf.pvd) < 2 ^ 31
      → vmf.pgoff ≤ dev_pgs (c.backing vmf.pvd)
      → fmap_radix_lookup kernel c vmf.pvd vmf.pgoff ≡ some p
      → others looked_up n c ≡ c'
      → (pages_of c' p).in_use ≡ 1
      → (pages_of c' p).locked ≡ false
      → (pages_of c' p).page_valid ≡ 1
      → dmap_add_or_update_rmap vmf.vma vmf.address vmf.cpu (pages_of c' p).rmap ≡ some rmap
      → perma_getpage kernel others read_pages_bio vmf random (suc n) c
        ≡ vm_fault_locked p (with_rmap (with_lock c' p) p rmap)
  unfolding perma_getpage finish
  perma_getpage-stale others read_pages_bio vmf random n c c' p rmap o h g e w u l z d =
      let one = one_page (dev_pgs (c.backing vmf.pvd)) vmf.pgoff h g in
      let found : find_page kernel others vmf random (suc n) c ≡ hit p (with_lock c' p) =
        find_page-hit others vmf random n c p (with_lock c' p) e
          (ap (find_hit kernel others n p) w ∙ find_hit-hit others n c' p u l z) in
      let finished : finish kernel read_pages_bio vmf (find_page kernel others vmf random (suc n) c)
          ≡ vm_fault_locked p (with_rmap (with_lock c' p) p rmap) =
        ap (finish kernel read_pages_bio vmf) found
        ∙ map_page-some vmf p (with_lock c' p) rmap (ground (arith, d)) in
      perma_getpage-one kernel 0 0 others read_pages_bio vmf random (suc n) c o one ∙ finished
