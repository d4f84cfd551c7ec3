-- ===== src/PageMap.antt =====
-- `buffer_map_t` of driver/mmap_buffer_hash_table.h and .c: the array of tagged pages and one free
-- list for each CPU. The address of a tagged page is its place in the array `pages`. The kernel's
-- `cpumask_of_node` and the pages of `alloc_pages_node` are arguments. NUM_FREELISTS is more than 1,
-- as in driver/shared_defines.h.
pub mod Homed
pub mod Alloc
pub mod Init
pub mod Leak
pub mod Distance
use fast_map.Common.{
  ℕ, zero, suc, ◌+◌, ◌*◌, ◌/◌, Bool, true, false, ◌==◌, if◌then◌else◌, List, [], ◌∷◌, ◌++◌, Option,
  none, some,
}
use fast_map.TaggedPage.{
  TaggedPage, bi_none, each_rmap, reset_rmap, init_tagged_page_meta_data, alloc_tagged_page_data,
  unlock_tp,
}
use fast_map.Fifo.{Pages, update}

pub record PageMap : Type 0 where
  -- `fl[cpu]`, from the head on
  pub fl : ℕ → List ℕ
  pub pages : Pages
  pub total_num_pages : ℕ

abbrev pub set_list : (ℕ → List ℕ) → ℕ → List ℕ → ℕ → List ℕ
set_list fl cpu l = λ c. if c == cpu then l else fl c

-- `for(i = cpu * n; i < (cpu + 1) * n; i++)`, with `count` rounds left.
unfoldable pub fill_cpu : (ℕ → ℕ) → ℕ → ℕ → ℕ → PageMap → PageMap
unfolding init_tagged_page_meta_data alloc_tagged_page_data
fill_cpu fresh cpu i zero pm = pm
fill_cpu fresh cpu i (suc count) pm =
    let tmp = alloc_tagged_page_data (fresh i) (init_tagged_page_meta_data (pm.pages i)) in
    fill_cpu fresh cpu (suc i) count
      (record pm { fl = set_list pm.fl cpu (pm.fl cpu ++ i ∷ []); pages = update pm.pages i tmp })

-- `for(cpu = 0; cpu < ncpus; ++cpu)`, with `count` rounds left.
unfoldable pub fill_cpus : (ℕ → ℕ) → ℕ → ℕ → ℕ → PageMap → PageMap
unfolding fill_cpu
fill_cpus fresh num_pages_percpu cpu zero pm = pm
fill_cpus fresh num_pages_percpu cpu (suc count) pm =
    fill_cpus fresh num_pages_percpu (suc cpu) count
      (fill_cpu fresh cpu (cpu * num_pages_percpu) num_pages_percpu pm)

-- `memory` is the array as `vmalloc` returns it.
unfoldable pub init_hash_table_free_pages : (ℕ → ℕ) → ℕ → Pages → ℕ → PageMap
unfolding fill_cpus
init_hash_table_free_pages fresh ncpus memory num_free_pages =
    let num_pages_percpu = num_free_pages / ncpus in
    fill_cpus fresh num_pages_percpu 0 ncpus
      (record { fl = λ cpu. []; pages = memory; total_num_pages = num_free_pages })

-- `for_each_cpu(cpu, cpumask_of_node(node))`: `found` is the C variable `tagged_page`.
unfoldable pub take_cpu : List ℕ → Option ℕ → PageMap → Option ℕ × PageMap
take_cpu [] found pm = (found, pm)
take_cpu (cpu ∷ cpus) found pm =
    let rest = take_cpu cpus none pm in
    elim (pm.fl cpu) [
      | [] ↦ rest
      | p ∷ l ↦ (
        some p,
        record pm {
          fl = set_list pm.fl cpu l;
          pages = update pm.pages p (record (pm.pages p) { cpuid = cpu });
        },
      )
    ]

-- `for(i = 0; i < nodes; i++)`, over the nodes of the row of the distance vector. The `break` leaves
-- only the loop over the CPUs of one node.
unfoldable pub take_node : (ℕ → List ℕ) → List ℕ → Option ℕ → PageMap → Option ℕ × PageMap
unfolding take_cpu
take_node cpumask_of_node [] found pm = (found, pm)
take_node cpumask_of_node (node ∷ nodes) found pm =
    let (found', pm') = take_cpu (cpumask_of_node node) found pm in
    take_node cpumask_of_node nodes found' pm'

unfoldable pub prepare : ℕ → ℕ → TaggedPage → TaggedPage
prepare page_offset pvd t = record t {
  page_valid = 0;
  buffer_id = bi_none;
  index = page_offset;
  pvd = pvd;
  is_dirty = 0;
  priority = 0;
  rmap = each_rmap reset_rmap 0 t.rmap;
  in_use = 1;
}

unfoldable pub alloc_page_lock : (ℕ → List ℕ) → List ℕ → PageMap → ℕ → ℕ → Option ℕ × PageMap
unfolding take_node prepare
alloc_page_lock cpumask_of_node nodes pm page_offset pvd =
    let (found, pm') = take_node cpumask_of_node nodes none pm in
    elim found [
      | none ↦ (none, pm')
      | some p ↦ (
        some p,
        record pm' { pages = update pm'.pages p (prepare page_offset pvd (pm'.pages p)) },
      )
    ]

unfoldable pub free_page_lock : PageMap → ℕ → PageMap
unfolding unlock_tp
free_page_lock pm p =
    let t = pm.pages p in
    let cpu = t.cpuid in
    let t = record t {
      in_use = 0;
      index = 0;
      pvd = 0;
      page_valid = 0;
      buffer_id = bi_none;
      is_dirty = 0;
      priority = 0;
      cpuid = 0;
      rmap = each_rmap reset_rmap 0 t.rmap;
    } in
    record pm {
      fl = set_list pm.fl cpu (pm.fl cpu ++ p ∷ []);
      pages = update pm.pages p (unlock_tp t);
    }
