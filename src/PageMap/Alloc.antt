-- ===== src/PageMap/Alloc.antt =====
-- Allocation from the CPUs of one NUMA node.
use fast_map.Common.{
  ℕ, ◌≡◌, ◌≢◌, refl, sym, subst, true, List, [], ◌∷◌, arith, Option, none, some, All,
}
use fast_map.TaggedPage.{bi_none, each_rmap, reset_rmap}
use fast_map.Fifo.{update}
use fast_map.PageMap.{PageMap, set_list, take_cpu, take_node, prepare, alloc_page_lock}
use fast_map.PageMap.Homed.{IsHomed, owns, one_owner}

-- The CPU `c` of the list is the first with a free page, and `p` is the first of its pages.
pub data First (fl : ℕ → List ℕ) (p c : ℕ) (l : List ℕ) : List ℕ → Type 0 where
  here : (cs : List ℕ) → fl c ≡ p ∷ l → First fl p c l (c ∷ cs)
  there : (d : ℕ) (cs : List ℕ) → fl d ≡ [] → First fl p c l cs → First fl p c l (d ∷ cs)

pub data TakenCpu (cpus : List ℕ) (pm : PageMap) : Option ℕ → PageMap → Type 0 where
  nothing : All (λ c. pm.fl c ≡ []) cpus → TakenCpu cpus pm none pm
  page :
      (p c : ℕ) (l : List ℕ)
      → First pm.fl p c l cpus
      → TakenCpu cpus pm (some p) (record pm {
        fl = set_list pm.fl c l;
        pages = update pm.pages p (record (pm.pages p) { cpuid = c });
      })

take_cpu-TakenCpu :
    (cpus : List ℕ) (pm : PageMap)
    → TakenCpu cpus pm (take_cpu cpus none pm).0 (take_cpu cpus none pm).1
unfolding take_cpu
take_cpu-TakenCpu [] pm = nothing tt
take_cpu-TakenCpu (c ∷ cpus) pm = split (take_cpu-TakenCpu cpus pm) (pm.fl c) refl
  where
    more :
        (found : Option ℕ) (pm' : PageMap)
        → pm.fl c ≡ []
        → TakenCpu cpus pm found pm'
        → TakenCpu (c ∷ cpus) pm found pm'
    more found pm' e (nothing a) = nothing (e, a)
    more found pm' e (page p d l f) = page p d l (there c cpus e f)

    split :
        TakenCpu cpus pm (take_cpu cpus none pm).0 (take_cpu cpus none pm).1
        → (l : List ℕ) → pm.fl c ≡ l
        → TakenCpu (c ∷ cpus) pm (take_cpu (c ∷ cpus) none pm).0 (take_cpu (c ∷ cpus) none pm).1
    split rest [] e =
        subst (λ (x : Option ℕ × PageMap). TakenCpu (c ∷ cpus) pm x.0 x.1) (sym (ground (arith, e)))
          (more (take_cpu cpus none pm).0 (take_cpu cpus none pm).1 e rest)
    split rest (p ∷ l) e =
        subst (λ (x : Option ℕ × PageMap). TakenCpu (c ∷ cpus) pm x.0 x.1) (sym (ground (arith, e)))
          (page p c l (here cpus e))

-- What an allocation for the page `page_offset` of `pvd` leaves.
pub data Allocated (ncpus percpu page_offset pvd : ℕ) (cpus : List ℕ) (pm : PageMap)
    : Option ℕ → PageMap → Type 0 where
  failed : All (λ c. pm.fl c ≡ []) cpus → Allocated ncpus percpu page_offset pvd cpus pm none pm
  allocated :
      (p c : ℕ) (l : List ℕ) (pm' : PageMap)
      → First pm.fl p c l cpus
      → (pm.pages p).in_use ≡ 0
      → pm'.pages p ≡ record (pm.pages p) {
        page_valid = 0;
        buffer_id = bi_none;
        index = page_offset;
        pvd = pvd;
        is_dirty = 0;
        priority = 0;
        rmap = each_rmap reset_rmap 0 (pm.pages p).rmap;
        in_use = 1;
        cpuid = c;
      }
      → ((q : ℕ) → q ≢ p → pm'.pages q ≡ pm.pages q)
      → IsHomed ncpus percpu pm'
      → Allocated ncpus percpu page_offset pvd cpus pm (some p) pm'

pub First-head : (fl : ℕ → List ℕ) (p c : ℕ) (l cpus : List ℕ) → First fl p c l cpus → fl c ≡ p ∷ l
First-head fl p c l cpus (here cs e) = e
First-head fl p c l cpus (there d cs e f) = First-head fl p c l cs f

taken-Allocated :
    (ncpus percpu page_offset pvd p c : ℕ) (l cpus : List ℕ) (pm : PageMap)
    → IsHomed ncpus percpu pm
    → First pm.fl p c l cpus
    → Allocated ncpus percpu page_offset pvd cpus pm (some p) (record pm {
      fl = set_list pm.fl c l;
      pages =
          update
            (update pm.pages p (record (pm.pages p) { cpuid = c }))
            p
            (prepare page_offset pvd (record (pm.pages p) { cpuid = c }));
    })
unfolding prepare
taken-Allocated ncpus percpu page_offset pvd p c l cpus pm v f =
    let e = First-head pm.fl p c l cpus f in
    let unused : (pm.pages p).in_use ≡ 0 = ground (arith, e, v.listed c p) in
    let own : owns ncpus percpu c p ≡ true = ground (arith, e, v.listed c p) in
    allocated p c l
      (record pm {
        fl = set_list pm.fl c l;
        pages =
            update (update pm.pages p (record (pm.pages p) { cpuid = c })) p
              (prepare page_offset pvd (record (pm.pages p) { cpuid = c }));
      })
      f unused (ground arith) (λ q n. ground (arith, n))
      (record {
        listed = λ d q. ground (
          arith,
          e,
          own,
          unused,
          v.listed d q,
          v.listed c p,
          v.listed c q,
          one_owner ncpus percpu c d p own,
        );
        home = λ d q. ground (arith, e, own, v.home d q, one_owner ncpus percpu c d p own);
      })

-- With the CPUs of one node and a map whose pages are each free at home or in use, alloc_page_lock
-- takes the first free page of the first CPU with one, which was not in use, sets its offset,
-- device and CPU, marks it as in use, clean, not valid and in no queue and resets its reverse
-- mappings, changes no other page and keeps the map so; it fails, with the map unchanged, only if
-- no CPU of the node has a free page.
pub alloc_page_lock-Allocated :
    (ncpus percpu page_offset pvd node : ℕ) (cpumask_of_node : ℕ → List ℕ) (pm : PageMap)
    → IsHomed ncpus percpu pm
    → let (found, pm') = alloc_page_lock cpumask_of_node (node ∷ []) pm page_offset pvd in
      Allocated ncpus percpu page_offset pvd (cpumask_of_node node) pm found pm'
unfolding alloc_page_lock take_node
alloc_page_lock-Allocated ncpus percpu page_offset pvd node mask pm v =
    from (take_cpu (mask node) none pm).0 (take_cpu (mask node) none pm).1
      (take_cpu-TakenCpu (mask node) pm) refl refl
  where
    from :
        (found : Option ℕ) (pm' : PageMap)
        → TakenCpu (mask node) pm found pm'
        → (take_cpu (mask node) none pm).0 ≡ found
        → (take_cpu (mask node) none pm).1 ≡ pm'
        → let (found, pm') = alloc_page_lock mask (node ∷ []) pm page_offset pvd in
          Allocated ncpus percpu page_offset pvd (mask node) pm found pm'
    from found pm' (nothing a) e e' =
        subst
          (λ (x : Option ℕ × PageMap).
            Allocated ncpus percpu page_offset pvd (mask node) pm x.0 x.1)
          (sym (ground (arith, e, e'))) (failed a)
    from found pm' (page p c l f) e e' =
        subst
          (λ (x : Option ℕ × PageMap).
            Allocated ncpus percpu page_offset pvd (mask node) pm x.0 x.1)
          (sym (ground (arith, e, e')))
          (taken-Allocated ncpus percpu page_offset pvd p c l (mask node) pm v f)
