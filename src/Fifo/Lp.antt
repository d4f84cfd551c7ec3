-- ===== src/Fifo/Lp.antt =====
-- `lpfifo_operations` of driver/lpfifo_non_atomic.c: a queue of clean pages.
use fast_map.Common.{ℕ, Bool, Option, none}
use fast_map.TaggedPage.{bi_clean}
use fast_map.Fifo
use fast_map.Fifo.{Fifo, Pages, Taken}

unfoldable pub init : ℕ → Fifo
unfolding Fifo.init
init size = Fifo.init size

unfoldable pub reset : Fifo → Fifo
unfolding Fifo.reset
reset f = Fifo.reset f

unfoldable pub fifo_full : Fifo → Bool
unfolding Fifo.fifo_full
fifo_full f = Fifo.fifo_full f

unfoldable pub enqueue : Fifo → Pages → ℕ → Bool × Fifo × Pages
unfolding Fifo.enqueue
enqueue f m p = Fifo.enqueue bi_clean f m p

unfoldable pub dequeue : Fifo → Pages → Taken
unfolding Fifo.dequeue
dequeue f m = Fifo.dequeue f m

unfoldable pub dequeue_if : (Pages → ℕ → Bool × Pages) → Fifo → Pages → Taken
unfolding Fifo.dequeue_if
dequeue_if cond f m = Fifo.dequeue_if cond f m

unfoldable pub remove : Fifo → Pages → ℕ → Fifo × Pages
unfolding Fifo.remove
remove f m p = Fifo.remove f m p

-- `BUG()`: the kernel stops, and there is no queue afterwards.
unfoldable pub change_priority : Fifo → ℕ → ℕ → Option Fifo
change_priority f new_pri p = none

unfoldable pub size : Fifo → ℕ
size f = f.size
