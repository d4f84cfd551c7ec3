-- ===== src/Tests/Queues.antt =====
-- Page queues and the buffer.
use fast_map.Common.{All, ℕ, ◌≡◌, refl, arith, Bool, true, false, if◌then◌else◌, [], ◌∷◌, not}
use fast_map.TaggedPage.{bi_clean}
use fast_map.Fifo.{Fifo, Pages}
use fast_map.Fifo.Valid.{IsValid, Refines, operations-Refines}
use fast_map.Buffer.{Buffer, init_params, insert_page, move_page_c2d, page_in_buffer}
use fast_map.Buffer.Placed.{
  IsPlaced, init_params-IsPlaced, insert_page-IsPlaced, move_page_c2d-IsPlaced,
}
use fast_map.Buffer.Steps.{start, next, fault, mkwrite, held_once, holdings}
use fast_map.Buffer.Written.{return_pages, IsClean, return_pages-IsPlaced}
use fast_map.Tests.{blank}

abbrev memory : Pages
memory = blank

abbrev two_pages : Fifo
two_pages = record { buffer = 4 ∷ 9 ∷ []; max_size = 2; size = 2 }

two_pages-IsValid : IsValid two_pages
two_pages-IsValid = record { counted = refl; bounded = omega arith; word = omega arith }

-- As `ev_deq`: the page is taken where its lock is free.
abbrev lock_page : Pages → ℕ → Bool × Pages
lock_page m p = (not (m p).locked, m)

operations-Refines_example : Refines bi_clean lock_page two_pages memory 9
operations-Refines_example =
    operations-Refines bi_clean lock_page two_pages memory 9 two_pages-IsValid

abbrev blank_buffer : Buffer
blank_buffer = record { clean = λ q. two_pages; dirty = λ q. two_pages; pages = memory }

abbrev empty : Buffer
empty = init_params 4 64 blank_buffer

empty-IsPlaced : IsPlaced empty
empty-IsPlaced = init_params-IsPlaced 4 64 blank_buffer (omega arith) (λ p. refl)

abbrev with_page : Buffer
with_page = insert_page empty 40 true

with_page-IsPlaced : IsPlaced with_page
unfolding init_params
with_page-IsPlaced = insert_page-IsPlaced empty 40 true empty-IsPlaced refl

abbrev with_dirty : Buffer
with_dirty = move_page_c2d with_page 40

with_dirty-IsPlaced : IsPlaced with_dirty
unfolding init_params insert_page
with_dirty-IsPlaced = move_page_c2d-IsPlaced with_page 40 with_page-IsPlaced refl

held_once_example : holdings with_dirty 40 ≡ (if page_in_buffer with_dirty 40 then 1 else 0)
unfolding init_params insert_page
held_once_example =
    held_once 4 64 blank_buffer with_dirty 40 (omega arith) (λ p. refl)
      (next (next start (fault 40 true refl)) (mkwrite 40 refl))

return_pages-IsPlaced_example :
    IsPlaced (return_pages with_page (41 ∷ 73 ∷ []))
    × All
        (λ p.
          IsClean ((return_pages with_page (41 ∷ 73 ∷ [])).pages p)
          × (((return_pages with_page (41 ∷ 73 ∷ [])).pages p).locked ≡ false))
        (41 ∷ 73 ∷ [])
unfolding init_params insert_page
return_pages-IsPlaced_example =
    return_pages-IsPlaced with_page (41 ∷ 73 ∷ []) with_page-IsPlaced (refl, (refl, tt))
      (refl, (refl, tt)) (λ q. ground arith)
