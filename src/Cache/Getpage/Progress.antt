-- ===== src/Cache/Getpage/Progress.antt =====
-- Two rounds are enough for a fault.
use fast_map.Common.{
  ℕ, suc, ◌%◌, ◌^◌, ◌≤◌, ◌<◌, ◌≡◌, ◌≢◌, refl, sym, subst, ap, Bool, true, false, ltb, leb, ◌==◌,
  ◌||◌, ◌∙◌, if◌then◌else◌, List, ◌∷◌, ◌++◌, none, arith, count, length, Option-cases, inl, inr,
}
use fast_map.Buffer.{num_queues}
use fast_map.Fault.Rmaps.{dmap_add_or_update_rmap}
use fast_map.Cache.{Cache, Kernel, pages_of, fmap_radix_lookup}
use fast_map.Cache.Cached.{IsCached}
use fast_map.Cache.Purge.{etlb_entries}
use fast_map.Cache.Purge.Rounds.{accepts}
use fast_map.Cache.Purge.Spaces.{AreSpaces}
use fast_map.Cache.Getpage.{
  VmFault, Round, again, missed, hit, overrun, Answer, etlb_full, efault, null_page, too_many_pages,
  retrying, dev_pgs, num_pages, find_miss, find_page, fill_page, map_page, finish, perma_getpage,
}
use fast_map.Cache.Getpage.Rounds.{IsServed}
use fast_map.Cache.Getpage.Completes.{
  quiet, is_missed, later, find_miss-missed, find_page-later, later-missed, purged-missed,
}

-- The fault has no page yet: its rounds are used up, or a purge wrote outside of its etlb.
abbrev pub is_stuck : {R : Type 0} → Answer R → Bool
is_stuck (retrying c) = true
is_stuck (etlb_full qid c) = true
is_stuck _ = false

guarded-returns :
    {R : Type 0} (outside null one : Bool) (x : Answer R)
    → is_stuck x ≡ false
    → is_stuck (
        if outside
        then efault
        else (if null then null_page else (if one then x else too_many_pages)))
      ≡ false
guarded-returns true null one x h = refl
guarded-returns false true one x h = refl
guarded-returns false false true x h = h
guarded-returns false false false x h = refl

module _ {R : Type 0} (kernel : Kernel R) (ncpus percpu : ℕ) where
  find_page-missed :
      (vmf : VmFault) (random : ℕ → ℕ) (n : ℕ) (c : Cache R) (mms front : List ℕ) (p : ℕ)
      (back : List ℕ) (served : IsServed kernel ncpus percpu)
      → IsCached kernel ncpus percpu c
      → fmap_radix_lookup kernel c vmf.pvd vmf.pgoff ≡ none
      → (c.clean (random (suc n) % num_queues)).buffer ≡ front ++ p ∷ back
      → length front < 192
      → accepts c.backing (pages_of c p) ≡ true
      → count (pages_of c p).cpuid (kernel.cpumask_of_node served.node) ≢ 0
      → AreSpaces kernel ncpus percpu (random (suc n) % num_queues) mms c
      → length mms ≤ etlb_entries
      → is_missed (find_page kernel quiet vmf random (suc (suc n)) c) ≡ true
  find_page-missed vmf random n c mms front p back served v e q r a m spaces few =
      let miss = find_miss kernel quiet vmf (random (suc n)) (suc n) c in
      let step = find_page-later kernel ncpus percpu vmf random (suc n) c e in
      elim (find_miss-missed kernel ncpus percpu vmf (random (suc n)) (suc n) c served v e) [
        | inl z ↦
            subst (λ (x : Round R). is_missed x ≡ true) (sym step)
              (later-missed kernel ncpus percpu vmf random (suc n) miss z)
        | inr (empty, z) ↦
            subst (λ (x : Round R). is_missed x ≡ true)
              (sym (step ∙ ap (later kernel ncpus percpu vmf random (suc n)) z))
              (purged-missed kernel ncpus percpu vmf random n c mms front p back served v e q r a m
                spaces few)
      ]

  map_page-returns :
      (vmf : VmFault) (p : ℕ) (c : Cache R) → is_stuck (map_page kernel vmf p c) ≡ false
  unfolding map_page
  map_page-returns vmf p c =
      elim (Option-cases
        (dmap_add_or_update_rmap vmf.vma vmf.address vmf.cpu (pages_of c p).rmap)) [
          | inl e ↦ ground (arith, e)
          | inr (rmap, e) ↦ ground (arith, e)
        ]

  finish-returns :
      (read_pages_bio : ℕ → ℕ) (vmf : VmFault) (r : Round R)
      → is_missed r ≡ true
      → is_stuck (finish kernel read_pages_bio vmf r) ≡ false
  unfolding finish
  finish-returns read_pages_bio vmf (again c) h = absurd (ground (arith, h))
  finish-returns read_pages_bio vmf (missed p c) h =
      map_page-returns vmf p (fill_page kernel read_pages_bio vmf p c)
  finish-returns read_pages_bio vmf (hit p c) h = map_page-returns vmf p c
  finish-returns read_pages_bio vmf (overrun qid c) h = absurd (ground (arith, h))

  -- On a machine of one NUMA node with memory for the radix trees and with no other CPU running,
  -- for a cache whose trees, queues and free lists agree and that does not have the faulting page,
  -- a fault does not need more than two rounds and its purge stays within its etlb, even if no page
  -- is free, if the clean queue that its first random number picks has, among its first 192 pages,
  -- one that is unlocked, of a device that is not being removed and of a CPU of the node, and the
  -- valid mappings of the unlocked pages of this queue whose devices are not being removed are of at
  -- most 16 address spaces.
  pub perma_getpage-returns :
      (read_pages_bio : ℕ → ℕ) (vmf : VmFault) (random : ℕ → ℕ) (n : ℕ) (c : Cache R)
      (mms front : List ℕ) (p : ℕ) (back : List ℕ) (served : IsServed kernel ncpus percpu)
      → IsCached kernel ncpus percpu c
      → fmap_radix_lookup kernel c vmf.pvd vmf.pgoff ≡ none
      → (c.clean (random (suc n) % num_queues)).buffer ≡ front ++ p ∷ back
      → length front < 192
      → accepts c.backing (pages_of c p) ≡ true
      → count (pages_of c p).cpuid (kernel.cpumask_of_node served.node) ≢ 0
      → AreSpaces kernel ncpus percpu (random (suc n) % num_queues) mms c
      → length mms ≤ etlb_entries
      → is_stuck (perma_getpage kernel quiet read_pages_bio vmf random (suc (suc n)) c) ≡ false
  unfolding perma_getpage
  perma_getpage-returns read_pages_bio vmf random n c mms front p back served v e q r a m spaces
        few =
      let found = find_page kernel quiet vmf random (suc (suc n)) c in
      let missed = find_page-missed vmf random n c mms front p back served v e q r a m spaces few in
      let returns : is_stuck (finish kernel read_pages_bio vmf found) ≡ false =
        finish-returns read_pages_bio vmf found missed in
      let num = num_pages (dev_pgs (c.backing vmf.pvd)) vmf.pgoff in
      guarded-returns (ltb vmf.address vmf.vm_start || leb vmf.vm_end vmf.address)
        (leb (2 ^ 31) num) (num == 1) (finish kernel read_pages_bio vmf found) returns
