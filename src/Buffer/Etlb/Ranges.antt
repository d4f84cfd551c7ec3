-- ===== src/Buffer/Etlb/Ranges.antt =====
-- What is gathered for each vma.
use fast_map.Common.{
  ℕ, zero, suc, ◌+◌, ◌≤◌, ◌<◌, ◌≡◌, ◌≢◌, refl, ap, ◌∙◌, ◌==◌, if◌then◌else◌, List, [], ◌∷◌, none,
  some, arith, Bool-cases, inl, inr, ◌⊎◌, length, replicate,
}
use fast_map.Buffer.Etlb.{
  EtlbEntry, no_entry, widen, widen_vma, take_entry, etlb_record, etlb_record_all, range,
  free_entries, extend, extremes,
}

-- What one update does, seen through `range`.
record Recorded (vma vaddr : ℕ) (etlb etlb' : List EtlbEntry) : Type 0 where
  ranges :
      (v : ℕ)
      → v ≢ 0
      → range v etlb' ≡ (if vma == v then extend vaddr (range v etlb) else range v etlb)
  frees : free_entries etlb ≤ free_entries etlb' + 1

widen_vma-Recorded :
    (vma vaddr : ℕ) (etlb : List EtlbEntry)
    → ((widen_vma vma vaddr etlb ≡ none) × (range vma etlb ≡ none))
      ⊎ ((etlb' : List EtlbEntry) × (widen_vma vma vaddr etlb ≡ some etlb')
          × Recorded vma vaddr etlb etlb')
unfolding widen_vma
widen_vma-Recorded vma vaddr [] = inl (refl, refl)
widen_vma-Recorded vma vaddr (e ∷ es) = elim (Bool-cases (e.vma == vma)) [
  | inl h ↦ inr (
    widen vaddr e ∷ es,
    ground (arith, h),
    record { ranges = λ v n. ground (arith, h, n); frees = ground arith },
  )
  | inr h ↦ elim (widen_vma-Recorded vma vaddr es) [
    | inl (n, r) ↦ inl (ground (arith, h, n), ground (arith, h, r))
    | inr (es', s, r) ↦ inr (
      e ∷ es',
      ground (arith, h, s),
      record {
        ranges = λ v n. ground (arith, h, n, r.ranges v n);
        frees = ground (arith, r.frees);
      },
    )
  ]
]

take_entry-Recorded :
    (vma vaddr : ℕ) (etlb : List EtlbEntry)
    → range vma etlb ≡ none
    → 0 < free_entries etlb
    → (etlb' : List EtlbEntry) × (take_entry vma vaddr etlb ≡ some etlb')
      × Recorded vma vaddr etlb etlb'
unfolding take_entry
take_entry-Recorded vma vaddr [] r f = absurd (omega arith)
take_entry-Recorded vma vaddr (e ∷ es) r f = elim (Bool-cases (e.vma == 0)) [
  | inl h ↦ (
    record { vma = vma; start = vaddr; end = vaddr } ∷ es,
    ground (arith, h),
    record { ranges = λ v n. ground (arith, h, n, r); frees = ground (arith, h) },
  )
  | inr h ↦
      let (es', s, q) = take_entry-Recorded vma vaddr es (ground (arith, r)) (ground (arith, h)) in
      (
        e ∷ es',
        ground (arith, h, s),
        record {
          ranges = λ v n. ground (arith, h, n, r, q.ranges v n);
          frees = ground (arith, q.frees);
        },
      )
]

etlb_record-Recorded :
    (vma vaddr : ℕ) (etlb : List EtlbEntry)
    → 0 < free_entries etlb
    → (etlb' : List EtlbEntry) × (etlb_record vma vaddr etlb ≡ some etlb')
      × Recorded vma vaddr etlb etlb'
unfolding etlb_record
etlb_record-Recorded vma vaddr etlb f = elim (widen_vma-Recorded vma vaddr etlb) [
  | inl (n, r) ↦
      let (etlb', s, q) = take_entry-Recorded vma vaddr etlb r f in (etlb', ground (arith, n, s), q)
  | inr (etlb', s, q) ↦ (etlb', ground (arith, s), q)
]

record_all-extremes :
    (rs : List (ℕ × ℕ)) (etlb : List EtlbEntry)
    → length rs ≤ free_entries etlb
    → (etlb' : List EtlbEntry) × (etlb_record_all rs etlb ≡ some etlb')
      × ((v : ℕ) → v ≢ 0 → range v etlb' ≡ extremes v rs (range v etlb))
unfolding etlb_record_all
record_all-extremes [] etlb f = (etlb, refl, λ v n. refl)
record_all-extremes ((vma, vaddr) ∷ rs) etlb f =
    let (one, s, q) = etlb_record-Recorded vma vaddr etlb (omega arith) in
    let (all, t, r) = record_all-extremes rs one (omega (arith, q.frees)) in
    (all, ground (arith, s, t), λ v n. r v n ∙ ap (extremes v rs) (q.ranges v n))

free_entries-replicate : (n : ℕ) → free_entries (replicate n no_entry) ≡ n
free_entries-replicate zero = refl
free_entries-replicate (suc n) = ground (arith, free_entries-replicate n)

range-replicate : (v n : ℕ) → v ≢ 0 → range v (replicate n no_entry) ≡ none
range-replicate v zero h = refl
range-replicate v (suc n) h = ground (arith, h, range-replicate v n h)

-- With at least as many entries as reverse mappings, the updates all find an entry, and afterwards
-- the entry of a vma has as its start the largest and as its end the least of the addresses
-- recorded for the vma; a vma with no address has no entry.
pub etlb_record_all-extremes :
    (n : ℕ) (rs : List (ℕ × ℕ))
    → length rs ≤ n
    → (etlb : List EtlbEntry) × (etlb_record_all rs (replicate n no_entry) ≡ some etlb)
      × ((v : ℕ) → v ≢ 0 → range v etlb ≡ extremes v rs none)
etlb_record_all-extremes n rs h =
    let (etlb, s, r) =
      record_all-extremes rs (replicate n no_entry) (omega (arith, free_entries-replicate n)) in
    (etlb, s, λ v m. r v m ∙ ap (extremes v rs) (range-replicate v n m))
