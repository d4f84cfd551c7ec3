-- ===== src/Tests/Pages.antt =====
-- Tagged pages and their reverse mappings.
use fast_map.Common.{◌+◌, ◌*◌, ◌≡◌, refl, arith, true, false, [], ◌∷◌}
use fast_map.TaggedPage.{trylock_tp, unlock_tp}
use fast_map.TaggedPage.Mapping.{
  Rmap, pvr_set_vma, pvr_mk_valid, pvr_mk_invalid, pvr_set_vaddr, pvr_set_idx, pvr_set_cpu,
}
use fast_map.TaggedPage.Mapping.Fields.{view, IsWord, setters-view}
use fast_map.TaggedPage.Lock.{Shared, try, here, next, tries, releases, release, taken_alone}
use fast_map.Tests.{blank}

abbrev mapped : Rmap
mapped = record { vma = 4097; vaddr = 8192 + 2 * 128 + 5 }

mapped-IsWord : IsWord mapped
mapped-IsWord = record { vma_word = omega arith; vaddr_word = omega arith }

setters-view_example :
    (view (pvr_set_vma mapped 6144) ≡ record (view mapped) { vma = 6144 })
    × (view (pvr_mk_valid mapped) ≡ record (view mapped) { valid = true })
    × (view (pvr_mk_invalid mapped) ≡ record (view mapped) { valid = false })
    × (view (pvr_set_vaddr mapped 12288) ≡ record (view mapped) { vaddr = 12288 })
    × (view (pvr_set_idx mapped 1) ≡ record (view mapped) { idx = 1 })
    × (view (pvr_set_cpu mapped 63) ≡ record (view mapped) { cpu = 63 })
setters-view_example =
    setters-view mapped 6144 12288 1 63 mapped-IsWord (omega arith) (omega arith) (omega arith)
      (omega arith) (omega arith) (omega arith)

abbrev unheld : Shared
unheld = record { page = blank 7; holders = [] }

-- Thread 1 locks and unlocks the page before thread 2 locks it.
taken_alone_example :
    ((release 1 (try 1 7 unheld)).holders ≡ [])
    × ((try 2 7 (release 1 (try 1 7 unheld))).holders ≡ 2 ∷ [])
unfolding try release trylock_tp unlock_tp
taken_alone_example =
    taken_alone unheld (release 1 (try 1 7 unheld)) 2 7 refl refl
      (next (next here (tries unheld 1 7)) (releases (try 1 7 unheld) 1 (omega arith))) refl
