-- ===== src/Tests/Faults.antt =====
-- The fault handler.
use fast_map.Common.{refl, arith, true, [], ◌∷◌}
use fast_map.TaggedPage.Mapping.{Rmap}
use fast_map.TaggedPage.Mapping.Fields.{IsWord}
use fast_map.Fifo.{Fifo}
use fast_map.Buffer.{Buffer, init_params, insert_page}
use fast_map.Buffer.Placed.{IsPlaced, init_params-IsPlaced, insert_page-IsPlaced}
use fast_map.Rbtree.{leaf}
use fast_map.Fault.Rmaps.{Updated, dmap_add_or_update_rmap, dmap_add_or_update_rmap-Updated}
use fast_map.Fault.Writable.{PrVmaData, IsTracked, dmap_do_tagged_page_writable}
use fast_map.Fault.Writable.Tracked.{Written, dmap_do_tagged_page_writable-Written}
use fast_map.Fault.Mkwrite.{perma_page_mkwrite}
use fast_map.Fault.Mkwrite.Answered.{Answered, perma_page_mkwrite-Answered}
use fast_map.Tests.{blank, no_rmap}
use fast_map.Tests.Trees.{plain}

abbrev mapped : Rmap
mapped = record { vma = 4097; vaddr = 8192 }

mapped-IsWord : IsWord mapped
mapped-IsWord = record { vma_word = omega arith; vaddr_word = omega arith }

no_rmap-IsWord : IsWord no_rmap
no_rmap-IsWord = record { vma_word = omega arith; vaddr_word = omega arith }

dmap_add_or_update_rmap-Updated_example :
    Updated 6144 12288 3
      (mapped ∷ no_rmap ∷ no_rmap ∷ [])
      (dmap_add_or_update_rmap 6144 12288 3 (mapped ∷ no_rmap ∷ no_rmap ∷ []))
dmap_add_or_update_rmap-Updated_example =
    dmap_add_or_update_rmap-Updated 6144 12288 3 (mapped ∷ no_rmap ∷ no_rmap ∷ [])
      (mapped-IsWord, (no_rmap-IsWord, (no_rmap-IsWord, tt))) (omega arith) (omega arith)
      (omega arith) (omega arith) (omega arith) (omega arith)

abbrev no_queue : Fifo
no_queue = record { buffer = []; max_size = 8; size = 0 }

-- Page p has index p and belongs to device 1.
abbrev base : Buffer
base = init_params 4 64 (record { clean = λ q. no_queue; dirty = λ q. no_queue; pages = blank })

abbrev cached : Buffer
cached = insert_page base 40 true

cached-IsPlaced : IsPlaced cached
unfolding init_params
cached-IsPlaced =
    insert_page-IsPlaced base 40 true
      (init_params-IsPlaced 4 64
        (record { clean = λ q. no_queue; dirty = λ q. no_queue; pages = blank }) (omega arith)
        (λ p. refl))
      refl

abbrev device : PrVmaData
device = record { id = 1; dirty_tree = λ c. leaf; is_readonly = true }

cached-IsTracked : IsTracked plain 4 cached device
unfolding init_params insert_page
cached-IsTracked = record { ordered = λ c. tt; tracked = λ c q. ground arith }

dmap_do_tagged_page_writable-Written_example :
    Written plain 4 cached device 40 (dmap_do_tagged_page_writable plain 4 cached device 40)
unfolding init_params insert_page
dmap_do_tagged_page_writable-Written_example =
    dmap_do_tagged_page_writable-Written plain 4 cached device 40 cached-IsPlaced cached-IsTracked
      refl (λ q own same. ground (arith, own, same)) (λ clean. refl)

perma_page_mkwrite-Answered_example :
    Answered plain 4 cached device 40 40 (perma_page_mkwrite plain 4 cached device 40 40)
unfolding init_params insert_page
perma_page_mkwrite-Answered_example =
    perma_page_mkwrite-Answered plain 4 cached device 40 40 cached-IsPlaced cached-IsTracked refl
      (λ q own same. ground (arith, own, same)) (λ clean. refl)
