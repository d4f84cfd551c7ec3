-- ===== src/PageMap/Leak.antt =====
-- What `alloc_page_lock` does on a machine of two NUMA nodes.
use fast_map.Common.{ℕ, ◌≡◌, ◌≢◌, refl, sym, subst, List, [], ◌∷◌, arith, Option, none, some, All}
use fast_map.Fifo.{update}
use fast_map.PageMap.{PageMap, set_list, take_cpu, take_node, alloc_page_lock}

take_cpu-none :
    (cpus : List ℕ) (pm : PageMap)
    → All (λ c. pm.fl c ≡ []) cpus
    → take_cpu cpus none pm ≡ (none, pm)
unfolding take_cpu
take_cpu-none [] pm a = refl
take_cpu-none (c ∷ cpus) pm a = ground (arith, a.0, take_cpu-none cpus pm a.1)

take_cpu-fails :
    (found : Option ℕ) (d : ℕ) (ds : List ℕ) (pm : PageMap)
    → All (λ c. pm.fl c ≡ []) (d ∷ ds)
    → take_cpu (d ∷ ds) found pm ≡ (none, pm)
unfolding take_cpu
take_cpu-fails found d ds pm a = ground (arith, a.0, take_cpu-none ds pm a.1)

take_cpu-head :
    (cpus : List ℕ) (pm : PageMap) (c : ℕ) (cs : List ℕ) (p : ℕ) (l : List ℕ)
    → pm.fl c ≡ p ∷ l
    → cpus ≡ c ∷ cs
    → take_cpu cpus none pm ≡ (
      some p,
      record pm {
        fl = set_list pm.fl c l;
        pages = update pm.pages p (record (pm.pages p) { cpuid = c });
      },
    )
unfolding take_cpu
take_cpu-head cpus pm c cs p l e h = ground (arith, e, h)

All-set_list :
    (fl : ℕ → List ℕ) (c : ℕ) (l ds : List ℕ)
    → All (λ e. (e ≢ c) × (fl e ≡ [])) ds
    → All (λ e. set_list fl c l e ≡ []) ds
All-set_list fl c l [] a = tt
All-set_list fl c l (d ∷ ds) a = (ground (arith, a.0), All-set_list fl c l ds a.1)

-- On two nodes, where the first CPU of the near node has a free page and no CPU of the other node,
-- which has at least one and does not have that CPU, has any: alloc_page_lock fails, and yet the
-- free page has left its free list and is as little in use as before.
pub alloc_page_lock-loses :
    (cpumask_of_node : ℕ → List ℕ) (near far c d p : ℕ) (cs ds l : List ℕ) (pm : PageMap)
    (page_offset pvd : ℕ)
    → cpumask_of_node near ≡ c ∷ cs
    → cpumask_of_node far ≡ d ∷ ds
    → pm.fl c ≡ p ∷ l
    → All (λ e. (e ≢ c) × (pm.fl e ≡ [])) (d ∷ ds)
    → let (found, pm') = alloc_page_lock cpumask_of_node (near ∷ far ∷ []) pm page_offset pvd in
      (found ≡ none) × (pm'.fl c ≡ l) × ((pm'.pages p).in_use ≡ (pm.pages p).in_use)
unfolding alloc_page_lock take_node
alloc_page_lock-loses mask near far c d p cs ds l pm page_offset pvd hn hf e a =
    let pm1 : PageMap = record pm {
      fl = set_list pm.fl c l;
      pages = update pm.pages p (record (pm.pages p) { cpuid = c });
    } in
    let first : take_cpu (mask near) none pm ≡ (some p, pm1) =
      take_cpu-head (mask near) pm c cs p l e hn in
    let second : take_cpu (mask far) (some p) pm1 ≡ (none, pm1) =
      subst (λ (cpus : List ℕ). take_cpu cpus (some p) pm1 ≡ (none, pm1)) (sym hf)
        (take_cpu-fails (some p) d ds pm1 (All-set_list pm.fl c l (d ∷ ds) a)) in
    let both : alloc_page_lock mask (near ∷ far ∷ []) pm page_offset pvd ≡ (none, pm1) =
      ground (arith, first, second) in
    subst
      (λ (x : Option ℕ × PageMap).
        (x.0 ≡ none) × (x.1.fl c ≡ l) × ((x.1.pages p).in_use ≡ (pm.pages p).in_use))
      (sym both) (refl, ground arith, ground arith)
