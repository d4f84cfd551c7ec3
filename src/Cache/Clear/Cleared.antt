-- ===== src/Cache/Clear/Cleared.antt =====
-- What the loops leave of a device or file.
use fast_map.Common.{
  ℕ, zero, suc, ◌+◌, ◌%◌, ◌<◌, ◌≤◌, ◌≡◌, ◌≢◌, refl, sym, ◌∙◌, subst, false, ◌==◌, List, Option,
  none, some, arith, count, erase, count-erase_ne, Bool-cases, inl, inr,
}
use fast_map.TaggedPage.{bi_dirty}
use fast_map.Cache.{Cache, Kernel, pages_of, set_rdx, fmap_radix_lookup}
use fast_map.Cache.Cached.{at, IsCached}
use fast_map.Cache.Purge.Purged.{IsFree}
use fast_map.Cache.Clear.{RadixIter, pop_page}
use fast_map.Cache.Clear.Round.{IsReleased}

module _ {R : Type 0} (kernel : Kernel R) (iter : RadixIter kernel.radix) (ncpus percpu : ℕ) where
  -- The cache after the first entry of a tree was deleted.
  abbrev pub popped : ℕ → ℕ → ℕ → Cache R → Cache R
  popped pvd k i c = record c {
    rdx = set_rdx c.rdx pvd k (kernel.radix.radix_tree_delete (c.rdx pvd k) i);
  }

  pub data Popped (pvd cpu n : ℕ) (c : Cache R) : Option (ℕ × Cache R) → Type 0 where
    nothing :
        ((k i : ℕ) → cpu ≤ k → k < cpu + n → at kernel ncpus percpu c pvd k i ≡ none)
        → Popped pvd cpu n c none
    page :
        (k i p : ℕ)
        → at kernel ncpus percpu c pvd k i ≡ some p
        → Popped pvd cpu n c (some (p, popped pvd k i c))

  pub pop_page-Popped :
      (pvd cpu n : ℕ) (c : Cache R) → Popped pvd cpu n c (pop_page kernel iter pvd cpu n c)
  unfolding pop_page
  pop_page-Popped pvd cpu zero c = nothing (λ k i h g. absurd (omega (arith, h, g)))
  pop_page-Popped pvd cpu (suc n) c =
      from (iter.first (c.rdx pvd cpu)) refl (pop_page-Popped pvd (suc cpu) n c)
    where
      later :
          (x : Option (ℕ × Cache R))
          → iter.first (c.rdx pvd cpu) ≡ none
          → Popped pvd (suc cpu) n c x
          → Popped pvd cpu (suc n) c x
      later x e (nothing h) = nothing (λ k i g l. elim (Bool-cases (k == cpu)) [
        | inl z ↦ ground (arith, z, iter.first-none (c.rdx pvd cpu) i e)
        | inr z ↦ h k i (ground (arith, g, z)) (omega (arith, l))
      ])
      later x e (page k i p h) = page k i p h

      from :
          (f : Option (ℕ × ℕ))
          → iter.first (c.rdx pvd cpu) ≡ f
          → Popped pvd (suc cpu) n c (pop_page kernel iter pvd (suc cpu) n c)
          → Popped pvd cpu (suc n) c (elim f [
            | none ↦ pop_page kernel iter pvd (suc cpu) n c
            | some (i, p) ↦ some (p, popped pvd cpu i c)
          ])
      from none e rest = later (pop_page kernel iter pvd (suc cpu) n c) e rest
      from (some (i, p)) e rest = page cpu i p (iter.first-some (c.rdx pvd cpu) i p e)

  -- From the cache `c`, the cache `c'` has nothing of the device left.
  pub record IsCleared (pvd : ℕ) (c c' : Cache R) : Type 0 where
    pub cached : IsCached kernel ncpus percpu c'
    pub gone : (i : ℕ) → fmap_radix_lookup kernel c' pvd i ≡ none
    pub freed : (k i p : ℕ) → at kernel ncpus percpu c pvd k i ≡ some p → IsFree (pages_of c' p)
    pub other_pages :
        (q : ℕ)
        → ((k i : ℕ) → at kernel ncpus percpu c pvd k i ≢ some q)
        → pages_of c' q ≡ pages_of c q
    pub other_trees :
        (d k i q : ℕ)
        → d ≢ pvd
        → at kernel ncpus percpu c d k i ≡ some q
        → at kernel ncpus percpu c' d k i ≡ some q

  -- The pages of the device: none is locked, and they are on the list `ps`.
  pub record AreClearable (Good : ℕ → Type 0) (pvd : ℕ) (ps : List ℕ) (c : Cache R) : Type 0 where
    pub cached : IsCached kernel ncpus percpu c
    pub unlocked :
        (k i p : ℕ) → at kernel ncpus percpu c pvd k i ≡ some p → (pages_of c p).locked ≡ false
    pub known : (k i p : ℕ) → at kernel ncpus percpu c pvd k i ≡ some p → count p ps ≢ 0
    pub queue :
        (k i p : ℕ)
        → at kernel ncpus percpu c pvd k i ≡ some p
        → ((pages_of c p).buffer_id ≤ bi_dirty) × Good (pages_of c p).buffer_id

  pub data Done (pvd : ℕ) (c : Cache R) : Option (Cache R) → Type 0 where
    done : (c' : Cache R) → IsCleared pvd c c' → Done pvd c (some c')

  -- A device without pages is cleared already.
  pub nothing-IsCleared :
      (pvd : ℕ) (c : Cache R)
      → 0 < kernel.num_online_cpus
      → IsCached kernel ncpus percpu c
      → ((k i : ℕ) → k < kernel.num_online_cpus → at kernel ncpus percpu c pvd k i ≡ none)
      → IsCleared pvd c c
  unfolding fmap_radix_lookup
  nothing-IsCleared pvd c h v e = record {
    cached = v;
    gone = λ i. e (i % kernel.num_online_cpus) i (omega (arith, h));
    freed = λ k i p f.
        let own = (v.in_tree pvd k i p f).own_tree in
        ground (arith, e k i (omega (arith, h, own)), f);
    other_pages = λ q n. refl;
    other_trees = λ d k i q n f. f;
  }

  -- The rest of the loop clears what the round left.
  pub rest-IsCleared :
      (pvd k i p : ℕ) (c c1 c' : Cache R)
      → IsCached kernel ncpus percpu c
      → at kernel ncpus percpu c pvd k i ≡ some p
      → IsReleased kernel ncpus percpu c c1 p
      → IsCleared pvd c1 c'
      → IsCleared pvd c c'
  rest-IsCleared pvd k i p c c1 c' v e r d = record {
    cached = d.cached;
    gone = d.gone;
    freed = λ a j q f. elim (Bool-cases (q == p)) [
      | inl z ↦
          let same = d.other_pages p (λ b l g. (r.tree_from pvd b l p g).1 refl) in
          let q_is : p ≡ q = ground (arith, z) in
          subst (λ x. IsFree (pages_of c' x)) q_is (subst IsFree (sym same) r.free)
      | inr z ↦ d.freed a j q (r.tree_kept pvd a j q f (ground (arith, z)))
    ];
    other_pages = λ q n.
        let other : q ≢ p = λ z. n k i (ground (arith, e, z)) in
        d.other_pages q (λ a j g. n a j (r.tree_from pvd a j q g).0) ∙ r.other_pages q other;
    other_trees = λ a b j q n f.
        let other : q ≢ p = λ z.
          ground (arith, (v.in_tree a b j q f).same_pvd, (v.in_tree pvd k i p e).same_pvd, z, n) in
        d.other_trees a b j q n (r.tree_kept a b j q f other);
  }

  pub rest-AreClearable :
      (Good : ℕ → Type 0) (pvd p : ℕ) (ps : List ℕ) (c c1 : Cache R)
      → AreClearable Good pvd ps c
      → IsReleased kernel ncpus percpu c c1 p
      → AreClearable Good pvd (erase p ps) c1
  rest-AreClearable Good pvd p ps c c1 a r = record {
    cached = r.cached;
    unlocked = λ k i q f.
        let (e, n) = r.tree_from pvd k i q f in
        ground (arith, a.unlocked k i q e, r.other_pages q n);
    known = λ k i q f.
        let (e, n) = r.tree_from pvd k i q f in
        ground (arith, a.known k i q e, count-erase_ne q p ps n);
    queue = λ k i q f.
        let (e, n) = r.tree_from pvd k i q f in
        subst (λ t. (t.buffer_id ≤ bi_dirty) × Good t.buffer_id) (sym (r.other_pages q n))
          (a.queue k i q e);
  }
