-- ===== src/Fifo/Valid.antt =====
-- A valid page queue does what its specification says: the counter agrees with the list, and up to
-- `max_size + 1` pages fit.
use fast_map.Common.{
  ℕ, ◌+◌, ◌^◌, ◌≤◌, ◌<◌, ◌≡◌, refl, Bool, List, [], ◌∷◌, erase, count, length, arith, length-append,
  length-erase, count-le-length, if◌then◌else◌,
}
use fast_map.Fifo.{
  Fifo, Pages, set_buffer_id, enqueue, dequeue, dequeue_if, remove, remove_if, init,
}
use fast_map.Fifo.Spec

pub record IsValid (f : Fifo) : Type 0 where
  pub counted : f.size ≡ length f.buffer
  pub bounded : f.size ≤ f.max_size + 1
  pub word : f.max_size + 1 < 2 ^ 64

pub init-IsValid : (size : ℕ) → size + 1 < 2 ^ 64 → IsValid (init size)
unfolding init
init-IsValid size h = omega arith

-- On a valid queue, enqueue is the bounded queue's put at capacity max_size + 1, keeps the queue
-- valid and its bound, and writes the buffer id of the page where it takes it and nothing else.
pub enqueue_refines :
    (id : ℕ) (f : Fifo) (m : Pages) (p : ℕ)
    → IsValid f
    → let (done, f', m') = enqueue id f m p in
      ((done, f'.buffer) ≡ Spec.put (f.max_size + 1) f.buffer p)
      × IsValid f'
      × (f'.max_size ≡ f.max_size)
      × (m' ≡ (if done then set_buffer_id m p id else m))
unfolding enqueue
enqueue_refines id f m p v = ground (arith, length-append f.buffer (p ∷ []))

-- On a valid queue, dequeue is the bounded queue's get, and keeps the queue valid and its bound.
pub dequeue_refines :
    (f : Fifo) (m : Pages)
    → IsValid f
    → let (got, f', m') = dequeue f m in
      ((got, f'.buffer) ≡ Spec.get f.buffer) × IsValid f' × (f'.max_size ≡ f.max_size)
unfolding dequeue
dequeue_refines f m v = split f.buffer f m v refl
  where
    split :
        (q : List ℕ) (f : Fifo) (m : Pages)
        → IsValid f
        → f.buffer ≡ q
        → let (got, f', m') = dequeue f m in
          ((got, f'.buffer) ≡ Spec.get f.buffer) × IsValid f' × (f'.max_size ≡ f.max_size)
    split [] f m v e = ground arith
    split (p ∷ q) f m v e = ground arith

-- On a valid queue and for any condition, dequeue_if takes the first page if the condition accepts
-- it and moves it to the tail if not, and keeps the queue valid and its bound.
pub dequeue_if_refines :
    (cond : Pages → ℕ → Bool × Pages) (f : Fifo) (m : Pages)
    → IsValid f
    → let (got, f', m') = dequeue_if cond f m in
      ((got, f'.buffer) ≡ Spec.get_if (λ p. (cond m p).0) f.buffer)
      × IsValid f'
      × (f'.max_size ≡ f.max_size)
unfolding dequeue_if
dequeue_if_refines cond f m v = split f.buffer f v refl
  where
    split :
        (q : List ℕ) (f : Fifo)
        → IsValid f
        → f.buffer ≡ q
        → let (got, f', m') = dequeue_if cond f m in
          ((got, f'.buffer) ≡ Spec.get_if (λ p. (cond m p).0) f.buffer)
          × IsValid f'
          × (f'.max_size ≡ f.max_size)
    split [] f v e = ground arith
    split (p ∷ q) f v e = ground (arith, length-append q (p ∷ []))

-- On a valid queue that has the page, remove takes its first occurrence out, and keeps the queue
-- valid and its bound.
pub remove_refines :
    (f : Fifo) (m : Pages) (p : ℕ)
    → IsValid f
    → 0 < count p f.buffer
    → let (f', m') = remove f m p in
      (f'.buffer ≡ erase p f.buffer) × IsValid f' × (f'.max_size ≡ f.max_size)
unfolding remove
remove_refines f m p v h = ground (arith, length-erase p f.buffer, count-le-length p f.buffer)

-- On a valid queue that has the page, remove_if takes the page out and reports it if the condition
-- accepts it, leaves the queue as it is if not, and keeps the queue valid and its bound.
pub remove_if_refines :
    (cond : Pages → ℕ → Bool × Pages) (f : Fifo) (m : Pages) (p : ℕ)
    → IsValid f
    → 0 < count p f.buffer
    → let (done, f', m') = remove_if cond f m p in
      ((done, f'.buffer) ≡ Spec.drop_if (λ q. (cond m q).0) f.buffer p)
      × IsValid f'
      × (f'.max_size ≡ f.max_size)
unfolding remove_if remove
remove_if_refines cond f m p v h =
    ground (arith, length-erase p f.buffer, count-le-length p f.buffer)

-- What each operation of a queue promises, for a page `p` to put in or take out.
pub record Refines (id : ℕ) (cond : Pages → ℕ → Bool × Pages) (f : Fifo) (m : Pages) (p : ℕ)
    : Type 0 where
  pub enqueues :
      let (done, f', m') = enqueue id f m p in
      ((done, f'.buffer) ≡ Spec.put (f.max_size + 1) f.buffer p)
      × IsValid f'
      × (f'.max_size ≡ f.max_size)
      × (m' ≡ (if done then set_buffer_id m p id else m))
  pub dequeues :
      let (got, f', m') = dequeue f m in
      ((got, f'.buffer) ≡ Spec.get f.buffer) × IsValid f' × (f'.max_size ≡ f.max_size)
  pub dequeues_if :
      let (got, f', m') = dequeue_if cond f m in
      ((got, f'.buffer) ≡ Spec.get_if (λ q. (cond m q).0) f.buffer)
      × IsValid f'
      × (f'.max_size ≡ f.max_size)
  pub removes :
      0 < count p f.buffer
      → let (f', m') = remove f m p in
        (f'.buffer ≡ erase p f.buffer) × IsValid f' × (f'.max_size ≡ f.max_size)
  pub removes_if :
      0 < count p f.buffer
      → let (done, f', m') = remove_if cond f m p in
        ((done, f'.buffer) ≡ Spec.drop_if (λ q. (cond m q).0) f.buffer p)
        × IsValid f'
        × (f'.max_size ≡ f.max_size)

-- On a valid queue each operation is the bounded queue's and keeps the queue valid and its bound:
-- enqueue puts at capacity max_size + 1 and writes the buffer id of the page where it takes it and
-- nothing else; dequeue gets the first page; dequeue_if, for any condition, gets the first page if
-- the condition accepts it and moves it to the tail if not; and for a page of the queue, remove
-- takes its first occurrence out, and remove_if does so and reports it exactly if the condition
-- accepts the page.
pub operations-Refines :
    (id : ℕ) (cond : Pages → ℕ → Bool × Pages) (f : Fifo) (m : Pages) (p : ℕ)
    → IsValid f
    → Refines id cond f m p
operations-Refines id cond f m p v = record {
  enqueues = enqueue_refines id f m p v;
  dequeues = dequeue_refines f m v;
  dequeues_if = dequeue_if_refines cond f m v;
  removes = λ h. remove_refines f m p v h;
  removes_if = λ h. remove_if_refines cond f m p v h;
}
