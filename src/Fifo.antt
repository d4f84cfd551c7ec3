-- ===== src/Fifo.antt =====
-- The page queues: the intrusive list with its size counter that `lpfifo_t` and `dfifo_t` share.
-- driver/lpfifo_non_atomic.c (clean pages) and driver/dfifo_non_atomic.c (dirty pages) are the same
-- code with another buffer id; the functions here take that id, and `Fifo.Lp` and `Fifo.D` give it.
-- Pages are named by their addresses, and `Pages` is the memory that holds them. `list_del_init` is
-- `erase`: the page must be linked in this queue, as the callers' buffer id says. The counter is an
-- unsigned long and wraps. DMAP_BGON is compiled out, as in driver/shared_defines.h.
pub mod Lp
pub mod D
pub mod Spec
pub mod Valid
use fast_map.Common.{
  ℕ, ◌+◌, ◌-◌, ◌%◌, ◌^◌, Bool, true, false, ltb, ◌==◌, if◌then◌else◌, List, [], ◌∷◌, ◌++◌, Option,
  none, some, erase,
}
use fast_map.TaggedPage.{TaggedPage, bi_none}

abbrev pub Pages : Type 0
Pages = ℕ → TaggedPage

abbrev pub update : Pages → ℕ → TaggedPage → Pages
update m p t = λ q. if q == p then t else m q

abbrev pub set_buffer_id : Pages → ℕ → ℕ → Pages
set_buffer_id m p id = update m p (record (m p) { buffer_id = id })

pub record Fifo : Type 0 where
  -- `buffer`, from the head of the list on
  pub buffer : List ℕ
  pub max_size : ℕ
  pub size : ℕ

-- What a function that takes a page off a queue leaves: the page, the queue, the memory.
abbrev pub Taken : Type 0
Taken = Option ℕ × Fifo × Pages

abbrev pub increment : ℕ → ℕ
increment n = (n + 1) % 2 ^ 64

abbrev pub decrement : ℕ → ℕ
decrement n = (n + 2 ^ 64 - 1) % 2 ^ 64

unfoldable pub init : ℕ → Fifo
init size = record { buffer = []; max_size = size; size = 0 }

unfoldable pub reset : Fifo → Fifo
reset f = record f { buffer = []; size = 0 }

unfoldable pub fifo_full : Fifo → Bool
fifo_full f = ltb f.max_size f.size

unfoldable pub front : Fifo → Option ℕ
front f = elim f.buffer [ [] ↦ none | p ∷ rest ↦ some p ]

-- `true` is the C result 0, `false` is -1.
unfoldable pub enqueue : ℕ → Fifo → Pages → ℕ → Bool × Fifo × Pages
enqueue id f m p = if ltb f.max_size f.size then (false, f, m) else (
  true,
  record f { buffer = f.buffer ++ p ∷ []; size = increment f.size },
  set_buffer_id m p id,
)

take_first : Fifo → Pages → List ℕ → Taken
take_first f m [] = (none, f, m)
take_first f m (p ∷ rest) =
    (some p, record f { buffer = rest; size = decrement f.size }, set_buffer_id m p bi_none)

unfoldable pub dequeue : Fifo → Pages → Taken
unfolding take_first
dequeue f m = if f.size == 0 then (none, f, m) else take_first f m f.buffer

-- `cond` locks the page where it can, so it changes the memory. A page that it refuses goes to the
-- tail of the queue.
take_first_if : (Pages → ℕ → Bool × Pages) → Fifo → Pages → List ℕ → Taken
take_first_if cond f m [] = (none, f, m)
take_first_if cond f m (p ∷ rest) =
    let (accepted, m') = cond m p in
    if accepted
    then (some p, record f { buffer = rest; size = decrement f.size }, set_buffer_id m' p bi_none)
    else (none, record f { buffer = rest ++ p ∷ [] }, m')

unfoldable pub dequeue_if : (Pages → ℕ → Bool × Pages) → Fifo → Pages → Taken
unfolding take_first_if
dequeue_if cond f m = if f.size == 0 then (none, f, m) else take_first_if cond f m f.buffer

unfoldable pub remove : Fifo → Pages → ℕ → Fifo × Pages
remove f m p =
    (record f { buffer = erase p f.buffer; size = decrement f.size }, set_buffer_id m p bi_none)

-- `true` is the C result 1.
unfoldable pub remove_if : (Pages → ℕ → Bool × Pages) → Fifo → Pages → ℕ → Bool × Fifo × Pages
unfolding remove
remove_if cond f m p =
    let (accepted, m') = cond m p in
    if accepted then (let (f', m'') = remove f m' p in (true, f', m'')) else (false, f, m')
