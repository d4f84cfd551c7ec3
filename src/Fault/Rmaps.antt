-- ===== src/Fault/Rmaps.antt =====
-- `dmap_add_or_update_rmap`: a page is entered in the reverse mappings of a vma.
use fast_map.Common.{
  Bool-cases, inl, inr, sym, subst, ap, ℕ, zero, suc, ◌+◌, ◌%◌, ◌^◌, ◌≤◌, ◌<◌, ◌≡◌, refl, Bool,
  true, false, ◌&&◌, ◌==◌, if◌then◌else◌, ◌||◌, List, [], ◌∷◌, Option, none, some, arith, All,
  length, set, get_or,
}
use fast_map.TaggedPage.Mapping.{
  Rmap, pvr_is_valid, pvr_mk_valid, pvr_get_vma, pvr_set_idx, pvr_set_vaddr, pvr_set_vma,
  pvr_set_cpu,
}
use fast_map.TaggedPage.Mapping.Fields.{View, view, IsWord}
use fast_map.TaggedPage.Mapping.Sequences.{map-view}

abbrev pub empty_rmap : Rmap
empty_rmap = record { vma = 0; vaddr = 0 }

-- What the loop over the rmaps found: an rmap of the vma, or the last entry that is not valid, as the
-- C variables `found` and `free_entry`.
pub data Slot : Type 0 where
  found : Slot
  free : ℕ → Slot
  none_free : Slot

-- The loop from entry `i` on.
unfoldable pub find_slot : ℕ → ℕ → Slot → List Rmap → Slot
find_slot vma i slot [] = slot
find_slot vma i slot (p ∷ ps) =
    let next = find_slot vma (suc i) slot ps in
    let next_free = find_slot vma (suc i) (free i) ps in
    if pvr_is_valid p then (if pvr_get_vma p == vma then found else next) else next_free

-- The new contents of the free entry.
unfoldable pub map_entry : ℕ → ℕ → ℕ → ℕ → Rmap → Rmap
map_entry vma vaddr i cpu p =
    let p = pvr_set_idx p i in
    let p = pvr_set_vaddr p vaddr in
    let p = pvr_set_vma p vma in
    let p = pvr_set_cpu p 0 in let p = pvr_mk_valid p in pvr_set_cpu p cpu

-- The rmaps after the call; `none` where the code writes to entry -1, since DMAP_BGON is compiled
-- out. `vaddr` is `vmf->address + off * PAGE_SIZE` and `cpu` is `smp_processor_id()`.
unfoldable pub dmap_add_or_update_rmap : ℕ → ℕ → ℕ → List Rmap → Option (List Rmap)
unfolding find_slot map_entry
dmap_add_or_update_rmap vma vaddr cpu rmap = elim (find_slot vma 0 none_free rmap) [
  | found ↦ some rmap
  | free i ↦ some (set rmap i (map_entry vma vaddr i cpu (get_or rmap i (empty_rmap))))
  | none_free ↦ none
]

-- An rmap of the vma is valid.
abbrev pub is_mapped : ℕ → List Rmap → Bool
is_mapped vma [] = false
is_mapped vma (p ∷ ps) = (pvr_is_valid p && (pvr_get_vma p == vma)) || is_mapped vma ps

abbrev pub valid_count : List Rmap → ℕ
valid_count [] = 0
valid_count (p ∷ ps) = (if pvr_is_valid p then 1 else 0) + valid_count ps

-- What the loop finds.
data Sought (vma i : ℕ) (slot : Slot) (ps : List Rmap) : Slot → Type 0 where
  mapped : is_mapped vma ps ≡ true → Sought vma i slot ps found
  hole :
      (j k : ℕ)
      → k ≡ i + j
      → is_mapped vma ps ≡ false
      → j < length ps
      → pvr_is_valid (get_or ps j empty_rmap) ≡ false
      → Sought vma i slot ps (free k)
  full : is_mapped vma ps ≡ false → valid_count ps ≡ length ps → Sought vma i slot ps slot

skip-valid :
    (vma i : ℕ) (slot s : Slot) (p : Rmap) (ps : List Rmap)
    → pvr_is_valid p ≡ true
    → (pvr_get_vma p == vma) ≡ false
    → Sought vma (suc i) slot ps s
    → Sought vma i slot (p ∷ ps) s
skip-valid vma i slot s p ps v e (mapped m) = mapped (ground (arith, v, e, m))
skip-valid vma i slot s p ps v e (hole j k q m r h) =
    hole (suc j) k (omega arith) (ground (arith, v, e, m)) (omega arith) h
skip-valid vma i slot s p ps v e (full m c) = full (ground (arith, v, e, m)) (ground (arith, v, c))

skip-free :
    (vma i : ℕ) (slot s : Slot) (p : Rmap) (ps : List Rmap)
    → pvr_is_valid p ≡ false
    → Sought vma (suc i) (free i) ps s
    → Sought vma i slot (p ∷ ps) s
skip-free vma i slot s p ps v (mapped m) = mapped (ground (arith, v, m))
skip-free vma i slot s p ps v (hole j k q m r h) =
    hole (suc j) k (omega arith) (ground (arith, v, m)) (omega arith) h
skip-free vma i slot s p ps v (full m c) =
    hole 0 i (omega arith) (ground (arith, v, m)) (omega arith) v

find_slot-Sought :
    (vma i : ℕ) (slot : Slot) (ps : List Rmap) → Sought vma i slot ps (find_slot vma i slot ps)
unfolding find_slot
find_slot-Sought vma i slot [] = full refl refl
find_slot-Sought vma i slot (p ∷ ps) = elim (Bool-cases (pvr_is_valid p)) [
  | inl v ↦ elim (Bool-cases (pvr_get_vma p == vma)) [
    | inl e ↦
        subst (Sought vma i slot (p ∷ ps)) (sym (ground (arith, v, e)))
          (mapped (ground (arith, v, e)))
    | inr e ↦ subst (Sought vma i slot (p ∷ ps)) (sym (ground (arith, v, e))) (
        skip-valid vma i slot (find_slot vma (suc i) slot ps) p ps v e
          (find_slot-Sought vma (suc i) slot ps))
  ]
  | inr v ↦ subst (Sought vma i slot (p ∷ ps)) (sym (ground (arith, v))) (
      skip-free vma i slot (find_slot vma (suc i) (free i) ps) p ps v
        (find_slot-Sought vma (suc i) (free i) ps))
]

is_mapped-set :
    (vma j : ℕ) (e : Rmap) (ps : List Rmap)
    → j < length ps
    → pvr_is_valid e ≡ true
    → pvr_get_vma e ≡ vma
    → is_mapped vma (set ps j e) ≡ true
is_mapped-set vma j e [] r v g = absurd (omega arith)
is_mapped-set vma zero e (p ∷ ps) r v g = ground (arith, v, g)
is_mapped-set vma (suc j) e (p ∷ ps) r v g =
    ground (arith, is_mapped-set vma j e ps (omega arith) v g)

All-get_or :
    (ps : List Rmap) (j : ℕ) → j < length ps → All IsWord ps → IsWord (get_or ps j empty_rmap)
All-get_or [] j r a = absurd (omega arith)
All-get_or (p ∷ ps) zero r a = a.0
All-get_or (p ∷ ps) (suc j) r a = All-get_or ps j (omega arith) a.1

-- The code writes outside the array only where all entries are valid and of other vmas.
pub dmap_add_or_update_rmap-none :
    (vma vaddr cpu : ℕ) (rmap : List Rmap)
    → dmap_add_or_update_rmap vma vaddr cpu rmap ≡ none
    → (is_mapped vma rmap ≡ false) × (valid_count rmap ≡ length rmap)
unfolding dmap_add_or_update_rmap
dmap_add_or_update_rmap-none vma vaddr cpu rmap h =
    from (find_slot vma 0 none_free rmap) (find_slot-Sought vma 0 none_free rmap) refl
  where
    from :
        (s : Slot)
        → Sought vma 0 none_free rmap s
        → find_slot vma 0 none_free rmap ≡ s
        → (is_mapped vma rmap ≡ false) × (valid_count rmap ≡ length rmap)
    from s (mapped m) e = absurd (ground (arith, e, h))
    from s (hole j k q m r z) e = absurd (ground (arith, e, h))
    from s (full m c) e = (m, c)

-- What the call makes of the rmaps.
pub data Updated (vma vaddr cpu : ℕ) (rmap : List Rmap) : Option (List Rmap) → Type 0 where
  -- The vma has the page already: nothing changes.
  kept : is_mapped vma rmap ≡ true → Updated vma vaddr cpu rmap (some rmap)
  -- It gets one entry that was free.
  added :
      (i : ℕ) (e : Rmap)
      → is_mapped vma rmap ≡ false
      → i < length rmap
      → pvr_is_valid (get_or rmap i empty_rmap) ≡ false
      → view e ≡ record { vma = vma; valid = true; vaddr = vaddr; idx = i; cpu = cpu }
      → is_mapped vma (set rmap i e) ≡ true
      → Updated vma vaddr cpu rmap (some (set rmap i e))
  -- All entries belong to other vmas, and the code writes before the array.
  outside :
      is_mapped vma rmap ≡ false → valid_count rmap ≡ length rmap → Updated vma vaddr cpu rmap none

-- For at most 32 reverse mappings that are machine words, an even vma address, a page-aligned
-- address and a CPU below 128: if a valid entry has the vma nothing changes; else an entry that was
-- not valid becomes valid with exactly this vma, address, index and CPU, the others staying as they
-- are; and if there is no such entry the code writes outside the array.
pub dmap_add_or_update_rmap-Updated :
    (vma vaddr cpu : ℕ) (rmap : List Rmap)
    → All IsWord rmap
    → length rmap ≤ 32
    → vma < 2 ^ 64
    → vma % 2 ≡ 0
    → vaddr < 2 ^ 64
    → vaddr % 4096 ≡ 0
    → cpu < 128
    → Updated vma vaddr cpu rmap (dmap_add_or_update_rmap vma vaddr cpu rmap)
unfolding dmap_add_or_update_rmap map_entry view
dmap_add_or_update_rmap-Updated vma vaddr cpu rmap w short bv ev ba ea hc =
    from (find_slot vma 0 none_free rmap) (find_slot-Sought vma 0 none_free rmap) refl
  where
    from :
        (s : Slot)
        → Sought vma 0 none_free rmap s
        → find_slot vma 0 none_free rmap ≡ s
        → Updated vma vaddr cpu rmap (dmap_add_or_update_rmap vma vaddr cpu rmap)
    from s (mapped m) e = subst (Updated vma vaddr cpu rmap) (sym (ground (arith, e))) (kept m)
    from s (hole j k q m r h) e =
        let at : k ≡ j = omega arith in
        let old = get_or rmap j empty_rmap in
        let seen =
          map-view old vma vaddr j cpu (All-get_or rmap j r w) bv ev ba ea (omega arith) hc in
        subst (Updated vma vaddr cpu rmap) (sym (ground (arith, e, at))) (
          added j (map_entry vma vaddr j cpu old) m r h seen (
            is_mapped-set vma j (map_entry vma vaddr j cpu old) rmap r
              (ap (λ (v : View). v.valid) seen) (ap (λ (v : View). v.vma) seen)))
    from s (full m c) e = subst (Updated vma vaddr cpu rmap) (sym (ground (arith, e))) (outside m c)
