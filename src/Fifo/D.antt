-- ===== src/Fifo/D.antt =====
-- `dfifo_operations` of driver/dfifo_non_atomic.c: a queue of dirty pages.
use fast_map.Common.{ℕ, Bool, Option}
use fast_map.TaggedPage.{bi_dirty}
use fast_map.Fifo
use fast_map.Fifo.{Fifo, Pages, Taken}

unfoldable pub init : ℕ → Fifo
unfolding Fifo.init
init size = Fifo.init size

unfoldable pub reset : Fifo → Fifo
unfolding Fifo.reset
reset f = Fifo.reset f

unfoldable pub fifo_full : Fifo → Bool
unfolding Fifo.fifo_full
fifo_full f = Fifo.fifo_full f

unfoldable pub front : Fifo → Option ℕ
unfolding Fifo.front
front f = Fifo.front f

unfoldable pub enqueue : Fifo → Pages → ℕ → Bool × Fifo × Pages
unfolding Fifo.enqueue
enqueue f m p = Fifo.enqueue bi_dirty f m p

unfoldable pub dequeue : Fifo → Pages → Taken
unfolding Fifo.dequeue
dequeue f m = Fifo.dequeue f m

unfoldable pub dequeue_if : (Pages → ℕ → Bool × Pages) → Fifo → Pages → Taken
unfolding Fifo.dequeue_if
dequeue_if cond f m = Fifo.dequeue_if cond f m

unfoldable pub remove : Fifo → Pages → ℕ → Fifo × Pages
unfolding Fifo.remove
remove f m p = Fifo.remove f m p

unfoldable pub remove_if : (Pages → ℕ → Bool × Pages) → Fifo → Pages → ℕ → Bool × Fifo × Pages
unfolding Fifo.remove_if
remove_if cond f m p = Fifo.remove_if cond f m p
