-- ===== src/Cache/Drain/Emptied.antt =====
-- The clean queues after they were drained.
use fast_map.Common.{
  ℕ, zero, suc, ◌<◌, ◌≡◌, ◌≢◌, refl, sym, subst, ◌∙◌, false, ◌==◌, List, [], ◌∷◌, Option, none,
  some, arith, count, length, Bool-cases, inl, inr,
}
use fast_map.TaggedPage.{bi_none}
use fast_map.Fifo.{Fifo, Pages, Taken, set_buffer_id, decrement}
use fast_map.Fifo.Lp
use fast_map.Fifo.Valid.{IsValid}
use fast_map.Buffer.{set_queue}
use fast_map.Cache.{Cache, Kernel, pages_of, with_pages}
use fast_map.Cache.Cached.{IsCached}
use fast_map.Cache.Purge.Detached.{set_queue_same}
use fast_map.Cache.Purge.Purged.{IsFree}
use fast_map.Cache.Purge.Rounds.{head-placed}
use fast_map.Cache.Drain.{drain_page, drain_queue}
use fast_map.Cache.Drain.Drained.{IsDrained, drain_page-IsDrained}

dequeue-empty : (f : Fifo) (m : Pages) → IsValid f → f.buffer ≡ [] → Lp.dequeue f m ≡ (none, f, m)
unfolding Lp.dequeue
dequeue-empty f m v e = ground (arith, e, v.counted)

dequeue-head :
    (f : Fifo) (m : Pages) (p : ℕ) (rest : List ℕ)
    → IsValid f
    → f.buffer ≡ p ∷ rest
    → Lp.dequeue f m
      ≡ (some p, record f { buffer = rest; size = decrement f.size }, set_buffer_id m p bi_none)
unfolding Lp.dequeue
dequeue-head f m p rest v e = ground (arith, e, v.counted)

module _ {R : Type 0} (kernel : Kernel R) (ncpus percpu : ℕ) where
  -- The cache `c'` is `c` without the pages `ps` of queue `i`.
  pub record IsEmptied (i : ℕ) (ps : List ℕ) (c c' : Cache R) : Type 0 where
    pub cached : IsCached kernel ncpus percpu c'
    pub empty : (c'.clean i).buffer ≡ []
    pub freed : (q : ℕ) → count q ps ≢ 0 → IsFree (pages_of c' q)
    pub other_pages : (q : ℕ) → count q ps ≡ 0 → pages_of c' q ≡ pages_of c q
    pub other_queues : (j : ℕ) → j ≢ i → c'.clean j ≡ c.clean j

  pub data Ends (P : Cache R → Type 0) : Option (Cache R) → Type 0 where
    ends : (c : Cache R) → P c → Ends P (some c)

  -- What a round does after `dequeue`.
  abbrev round_after : ℕ → ℕ → Cache R → Taken → Option (Cache R)
  round_after i fuel c x =
      let (got, f, m) = x in
      let c' = record (with_pages c m) { clean = set_queue c.clean i f } in
      elim got [
        | none ↦ some c'
        | some p ↦ elim (drain_page kernel p false c') [
          | none ↦ none
          | some c'' ↦ drain_queue kernel i fuel c''
        ]
      ]

  rest-Ends :
      (i p : ℕ) (rest : List ℕ) (c c1 : Cache R) (x : Option (Cache R))
      → count p rest ≡ 0
      → IsDrained kernel ncpus percpu i p rest c c1
      → Ends (IsEmptied i rest c1) x
      → Ends (IsEmptied i (p ∷ rest) c) x
  rest-Ends i p rest c c1 x once d (ends c' r) = ends c' (record {
    cached = r.cached;
    empty = r.empty;
    freed = λ q n. elim (Bool-cases (q == p)) [
      | inl z ↦
          let q_is : p ≡ q = ground (arith, z) in
          subst (λ y. IsFree (pages_of c' y)) q_is
            (subst IsFree (sym (r.other_pages p once)) d.free)
      | inr z ↦ r.freed q (ground (arith, n, z))
    ];
    other_pages =
        λ q n. r.other_pages q (ground (arith, n)) ∙ d.other_pages q (λ z. ground (arith, n, z));
    other_queues = λ j n. r.other_queues j n ∙ d.other_queues j n;
  })

  pub drain_queue-Ends :
      (i fuel : ℕ) (ps : List ℕ) (c : Cache R)
      → IsCached kernel ncpus percpu c
      → (c.clean i).buffer ≡ ps
      → ((q : ℕ) → count q ps ≢ 0 → (pages_of c q).locked ≡ false)
      → length ps < fuel
      → Ends (IsEmptied i ps c) (drain_queue kernel i fuel c)
  unfolding drain_queue
  drain_queue-Ends i zero ps c v e l h = absurd (omega (arith, h))
  drain_queue-Ends i (suc fuel) [] c v e l h =
      let taken = dequeue-empty (c.clean i) (pages_of c) (v.placed.clean_valid i) e in
      subst (λ x. Ends (IsEmptied i [] c) (round_after i fuel c x)) (sym taken)
        (subst (λ qs. Ends (IsEmptied i [] c) (some (record c { clean = qs })))
          (sym (set_queue_same c.clean i))
          (ends c (record {
            cached = v;
            empty = e;
            freed = λ q n. absurd (n refl);
            other_pages = λ q n. refl;
            other_queues = λ j n. refl;
          })))
  drain_queue-Ends i (suc fuel) (p ∷ rest) c v e l h =
      let taken = dequeue-head (c.clean i) (pages_of c) p rest (v.placed.clean_valid i) e in
      let head = head-placed kernel ncpus percpu c i p rest v e in
      let once : count p rest ≡ 0 = ground (arith, head) in
      let (c1, (drained, d)) =
        drain_page-IsDrained kernel ncpus percpu c i p rest v e (l p (ground arith)) in
      let later =
        drain_queue-Ends i fuel rest c1 d.cached d.queue
          (λ q n.
            let other : q ≢ p = λ z. ground (arith, n, z, once) in
            ground (arith, l q (ground (arith, n)), d.other_pages q other))
          (omega (arith, h)) in
      let after : Option (Cache R) → Option (Cache R) =
        λ x. elim x [ none ↦ none | some c'' ↦ drain_queue kernel i fuel c'' ] in
      subst (λ x. Ends (IsEmptied i (p ∷ rest) c) (round_after i fuel c x)) (sym taken)
        (subst (λ x. Ends (IsEmptied i (p ∷ rest) c) (after x)) (sym drained)
          (rest-Ends i p rest c c1 (drain_queue kernel i fuel c1) once d later))
