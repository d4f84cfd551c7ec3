-- ===== src/Cache/Purge/Room.antt =====
-- The etlb of a purge has room: its 16 entries are enough for the mappings of 16 address spaces.
use fast_map.Common.{
  ℕ, ◌+◌, ◌≤◌, ◌<◌, ◌≡◌, ◌≢◌, refl, Bool, true, false, not, ◌==◌, ◌||◌, if◌then◌else◌, List, [],
  ◌∷◌, Option, none, some, arith, count, Bool-cases, inl, inr, ◌⊎◌,
}
use fast_map.TaggedPage.Mapping.{Rmap, pvr_is_valid, pvr_get_vma, pvr_get_vaddr}
use fast_map.Buffer.Etlb.{EtlbEntry, widen, widen_vma, take_entry, etlb_record, free_entries}
use fast_map.Cache.Purge.{record_mapping, remove_mappings}

-- An entry is of the address space.
abbrev pub has_entry : ℕ → List EtlbEntry → Bool
has_entry mm [] = false
has_entry mm (e ∷ es) = (e.vma == mm) || has_entry mm es

-- How many of the address spaces may still need an entry. One at address 0 always counts.
abbrev pub unmet : List ℕ → List EtlbEntry → ℕ
unmet [] es = 0
unmet (mm ∷ mms) es = (if (mm == 0) || not (has_entry mm es) then 1 else 0) + unmet mms es

widen_vma-cases :
    (mm vaddr : ℕ) (es : List EtlbEntry)
    → ((widen_vma mm vaddr es ≡ none) × (has_entry mm es ≡ false))
      ⊎ ((es' : List EtlbEntry) × (widen_vma mm vaddr es ≡ some es')
          × ((v : ℕ) → has_entry v es' ≡ has_entry v es)
          × (free_entries es' ≡ free_entries es))
unfolding widen_vma
widen_vma-cases mm vaddr [] = inl (refl, refl)
widen_vma-cases mm vaddr (e ∷ es) = elim (Bool-cases (e.vma == mm)) [
  | inl h ↦ inr (widen vaddr e ∷ es, ground (arith, h), λ v. refl, refl)
  | inr h ↦ elim (widen_vma-cases mm vaddr es) [
    | inl (n, r) ↦ inl (ground (arith, h, n), ground (arith, h, r))
    | inr (es', s, same, frees) ↦
        inr (e ∷ es', ground (arith, h, s), λ v. ground (arith, same v), ground (arith, frees))
  ]
]

take_entry-some :
    (mm vaddr : ℕ) (es : List EtlbEntry)
    → 0 < free_entries es
    → (es' : List EtlbEntry) × (take_entry mm vaddr es ≡ some es')
      × ((v : ℕ) → v ≢ 0 → has_entry v es' ≡ ((mm == v) || has_entry v es))
      × (free_entries es ≤ free_entries es' + 1)
unfolding take_entry
take_entry-some mm vaddr [] f = absurd (omega arith)
take_entry-some mm vaddr (e ∷ es) f = elim (Bool-cases (e.vma == 0)) [
  | inl h ↦ (
    record { vma = mm; start = vaddr; end = vaddr } ∷ es,
    ground (arith, h),
    λ v n. ground (arith, h, n),
    ground (arith, h),
  )
  | inr h ↦
      let (es', s, met, frees) = take_entry-some mm vaddr es (ground (arith, h)) in
      (e ∷ es', ground (arith, h, s), λ v n. ground (arith, met v n), ground (arith, frees))
]

no_free : (es : List EtlbEntry) → has_entry 0 es ≡ false → free_entries es ≡ 0
no_free [] h = refl
no_free (e ∷ es) h = ground (arith, h, no_free es)

unmet-same :
    (mms : List ℕ) (es es' : List EtlbEntry)
    → ((v : ℕ) → has_entry v es' ≡ has_entry v es)
    → unmet mms es' ≡ unmet mms es
unmet-same [] es es' h = refl
unmet-same (mm ∷ mms) es es' h = ground (arith, h mm, unmet-same mms es es' h)

unmet-pos :
    (mms : List ℕ) (mm : ℕ) (es : List EtlbEntry)
    → has_entry mm es ≡ false
    → count mm mms ≢ 0
    → 0 < unmet mms es
unmet-pos [] mm es h m = absurd (m refl)
unmet-pos (n ∷ mms) mm es h m = ground (arith, h, m, unmet-pos mms mm es h)

unmet-le :
    (mms : List ℕ) (mm : ℕ) (es es' : List EtlbEntry)
    → ((v : ℕ) → v ≢ 0 → has_entry v es' ≡ ((mm == v) || has_entry v es))
    → unmet mms es' ≤ unmet mms es
unmet-le [] mm es es' met = omega arith
unmet-le (n ∷ mms) mm es es' met = elim (Bool-cases (n == 0)) [
  | inl z ↦ ground (arith, z, unmet-le mms mm es es' met)
  | inr z ↦ ground (arith, z, met n (λ e. ground (arith, e, z)), unmet-le mms mm es es' met)
]

-- An entry for an address space that had none leaves one less without.
unmet-less :
    (mms : List ℕ) (mm : ℕ) (es es' : List EtlbEntry)
    → mm ≢ 0
    → has_entry mm es ≡ false
    → count mm mms ≢ 0
    → ((v : ℕ) → v ≢ 0 → has_entry v es' ≡ ((mm == v) || has_entry v es))
    → unmet mms es' + 1 ≤ unmet mms es
unmet-less [] mm es es' z h m met = absurd (m refl)
unmet-less (n ∷ mms) mm es es' z h m met = elim (Bool-cases (n == mm)) [
  | inl e ↦
      ground (arith, e, z, h, met n (λ y. ground (arith, e, y, z)), unmet-le mms mm es es' met)
  | inr e ↦
      let rest = unmet-less mms mm es es' z h (ground (arith, m, e)) met in
      elim (Bool-cases (n == 0)) [
        | inl y ↦ ground (arith, y, rest)
        | inr y ↦ ground (arith, y, met n (λ x. ground (arith, x, y)), rest)
      ]
]

-- The code has not written outside of the etlb, and has a free entry for each space without one.
abbrev pub HasRoom : List ℕ → Option (List EtlbEntry) → Type 0
HasRoom mms etlb = (es : List EtlbEntry) × (etlb ≡ some es) × (unmet mms es ≤ free_entries es)

etlb_record-HasRoom :
    (mms : List ℕ) (mm vaddr : ℕ) (es : List EtlbEntry)
    → count mm mms ≢ 0
    → unmet mms es ≤ free_entries es
    → HasRoom mms (etlb_record mm vaddr es)
unfolding etlb_record
etlb_record-HasRoom mms mm vaddr es m r = elim (widen_vma-cases mm vaddr es) [
  | inr (es', s, same, frees) ↦
      (es', ground (arith, s), omega (arith, r, frees, unmet-same mms es es' same))
  | inl (n, h) ↦
      let pos = unmet-pos mms mm es h m in
      let (es', s, met, frees) = take_entry-some mm vaddr es (omega (arith, pos, r)) in
      let z : mm ≢ 0 = λ e. ground (arith, e, h, no_free es, pos, r) in
      (es', ground (arith, n, s), omega (arith, r, frees, unmet-less mms mm es es' z h m met))
]

record_mapping-HasRoom :
    (mms : List ℕ) (mm vaddr : ℕ) (etlb : Option (List EtlbEntry))
    → count mm mms ≢ 0
    → HasRoom mms etlb
    → HasRoom mms (record_mapping mm vaddr etlb)
record_mapping-HasRoom mms mm vaddr none m (es, e, r) = absurd (ground (arith, e))
record_mapping-HasRoom mms mm vaddr (some etlb) m (es, e, r) =
    let same : etlb ≡ es = ground (arith, e) in etlb_record-HasRoom mms mm vaddr etlb m (rw same r)

-- The address spaces of the valid mappings are among `mms`.
abbrev pub AreAmong : (ℕ → ℕ) → List ℕ → List Rmap → Type 0
AreAmong vm_mm mms [] = Unit
AreAmong vm_mm mms (pvr ∷ rest) =
    (pvr_is_valid pvr ≡ true → count (vm_mm (pvr_get_vma pvr)) mms ≢ 0) × AreAmong vm_mm mms rest

pub remove_mappings-HasRoom :
    (vm_mm : ℕ → ℕ) (mms : List ℕ) (rmap : List Rmap) (etlb : Option (List EtlbEntry))
    → AreAmong vm_mm mms rmap
    → HasRoom mms etlb
    → HasRoom mms (remove_mappings vm_mm rmap etlb).1
unfolding remove_mappings
remove_mappings-HasRoom vm_mm mms [] etlb a r = r
remove_mappings-HasRoom vm_mm mms (pvr ∷ rest) etlb a r = elim (Bool-cases (pvr_is_valid pvr)) [
  | inl v ↦
      let noted = record_mapping (vm_mm (pvr_get_vma pvr)) (pvr_get_vaddr pvr) etlb in
      let room =
        record_mapping-HasRoom mms (vm_mm (pvr_get_vma pvr)) (pvr_get_vaddr pvr) etlb (a.0 v) r in
      rw v (remove_mappings-HasRoom vm_mm mms rest noted a.1 room)
  | inr v ↦ rw v (remove_mappings-HasRoom vm_mm mms rest etlb a.1 r)
]
