-- ===== src/PageMap/Init.antt =====
-- The free lists that `init_hash_table_free_pages` fills.
use fast_map.Common.{
  ℕ, zero, suc, ◌+◌, ◌*◌, ◌/◌, ◌⊎◌, ◌≡◌, Bool, true, ltb, leb, ◌&&◌, ◌==◌, if◌then◌else◌, [], ◌∷◌,
  ◌++◌, count, count-append, arith,
}
use fast_map.TaggedPage.{
  init_tagged_page_meta_data, alloc_tagged_page_data, clear_tagged_page_meta_data,
}
use fast_map.Fifo.{Pages, update}
use fast_map.PageMap.{PageMap, set_list, fill_cpu, fill_cpus, init_hash_table_free_pages}
use fast_map.PageMap.Homed.{IsHomed}

-- `i ≤ p < i + n`
abbrev within : ℕ → ℕ → ℕ → Bool
within i n p = leb i p && ltb p (i + n)

fill_cpu-count :
    (fresh : ℕ → ℕ) (cpu i n : ℕ) (pm : PageMap) (c p : ℕ)
    → count p ((fill_cpu fresh cpu i n pm).fl c)
      ≡ count p (pm.fl c) + (if c == cpu then (if within i n p then 1 else 0) else 0)
unfolding fill_cpu
fill_cpu-count fresh cpu i zero pm c p = ground arith
fill_cpu-count fresh cpu i (suc n) pm c p = ground (
  arith,
  fill_cpu-count fresh cpu (suc i) n
      (record pm {
        fl = set_list pm.fl cpu (pm.fl cpu ++ i ∷ []);
        pages =
            update pm.pages i
              (alloc_tagged_page_data (fresh i) (init_tagged_page_meta_data (pm.pages i)));
      })
      c p,
  count-append p (pm.fl cpu) (i ∷ []),
)

fill_cpu-in_use :
    (fresh : ℕ → ℕ) (cpu i n : ℕ) (pm : PageMap) (p : ℕ)
    → ((fill_cpu fresh cpu i n pm).pages p).in_use
      ≡ (if within i n p then 0 else (pm.pages p).in_use)
unfolding fill_cpu init_tagged_page_meta_data alloc_tagged_page_data clear_tagged_page_meta_data
fill_cpu-in_use fresh cpu i zero pm p = ground arith
fill_cpu-in_use fresh cpu i (suc n) pm p = ground (
  arith,
  fill_cpu-in_use fresh cpu (suc i) n
      (record pm {
        fl = set_list pm.fl cpu (pm.fl cpu ++ i ∷ []);
        pages =
            update pm.pages i
              (alloc_tagged_page_data (fresh i) (init_tagged_page_meta_data (pm.pages i)));
      })
      p,
)

-- `c` is one of the `n` CPUs from `cpu` on, and `p` lies in its part.
abbrev part : ℕ → ℕ → ℕ → ℕ → ℕ → Bool
part k cpu n c p = within cpu n c && within (c * k) k p

fill_cpus-count :
    (fresh : ℕ → ℕ) (k cpu n : ℕ) (pm : PageMap) (c p : ℕ)
    → count p ((fill_cpus fresh k cpu n pm).fl c)
      ≡ count p (pm.fl c) + (if part k cpu n c p then 1 else 0)
unfolding fill_cpus
fill_cpus-count fresh k cpu zero pm c p = ground arith
fill_cpus-count fresh k cpu (suc n) pm c p = ground (
  arith,
  fill_cpus-count fresh k (suc cpu) n (fill_cpu fresh cpu (cpu * k) k pm) c p,
  fill_cpu-count fresh cpu (cpu * k) k pm c p,
)

fill_cpus-in_use :
    (fresh : ℕ → ℕ) (k cpu n : ℕ) (pm : PageMap) (c p : ℕ)
    → ((pm.pages p).in_use ≡ 0) ⊎ (part k cpu n c p ≡ true)
    → ((fill_cpus fresh k cpu n pm).pages p).in_use ≡ 0
unfolding fill_cpus
fill_cpus-in_use fresh k cpu zero pm c p h = ground (arith, h)
fill_cpus-in_use fresh k cpu (suc n) pm c p h = ground (
  arith,
  h,
  fill_cpus-in_use fresh k (suc cpu) n (fill_cpu fresh cpu (cpu * k) k pm) c p,
  fill_cpu-in_use fresh cpu (cpu * k) k pm p,
)

-- For any number of CPUs and pages, initialisation puts each page of the parts of num_free_pages /
-- ncpus pages once in the free list of the CPU that owns the part, and no page in any other list.
pub init_hash_table_free_pages-IsHomed :
    (fresh : ℕ → ℕ) (ncpus num_free_pages : ℕ) (memory : Pages)
    → IsHomed ncpus
        (num_free_pages / ncpus)
        (init_hash_table_free_pages fresh ncpus memory num_free_pages)
unfolding init_hash_table_free_pages
init_hash_table_free_pages-IsHomed fresh ncpus total memory =
    let k = total / ncpus in
    let pm : PageMap = record { fl = λ cpu. []; pages = memory; total_num_pages = total } in
    record {
      listed = λ c p.
          ground (
            arith,
            fill_cpus-count fresh k 0 ncpus pm c p,
            fill_cpus-in_use fresh k 0 ncpus pm c p,
          );
      home = λ c p o u. absurd (ground (arith, o, u, fill_cpus-in_use fresh k 0 ncpus pm c p));
    }
