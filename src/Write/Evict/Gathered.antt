-- ===== src/Write/Evict/Gathered.antt =====
-- The pages that are gathered after the first one lie in one block of 512 indices.
use mathlib.Core.List.{append_assoc}
use fast_map.Common.{
  ℕ, zero, suc, ◌+◌, ◌*◌, ◌/◌, ◌%◌, ◌^◌, ◌≤◌, ◌<◌, ◌≡◌, ◌≢◌, ◌⊎◌, refl, sym, ap, ◌∙◌, subst, ltb,
  ◌==◌, List, [], ◌∷◌, ◌++◌, count-append, length, length-append, ltb→lt, some, arith, Bool-cases,
  Option-cases, inl, inr,
}
use fast_map.Rbtree.{RbLib, tagged_rb_search}
use fast_map.Fault.Writable.{index_of}
use fast_map.Write.Evict.{Gather, owner, max_evict, take_page, look_up, gather}
use fast_map.Write.Evict.Found.{search-IsTakenOut}
use fast_map.Write.Evict.Looked.{IsGathering, Moved, nothing-Moved, take_page-Moved}

-- The indices grow from `lo` on and stay in a block.
abbrev pub Rising : (ℕ → ℕ) → ℕ → ℕ → List ℕ → Type 0
Rising index lo block [] = Unit
Rising index lo block (p ∷ ps) =
    (lo ≤ index p) × (index p / 512 ≡ block) × Rising index (suc (index p)) block ps

Rising-weaken :
    (index : ℕ → ℕ) (lo lo' block : ℕ) (ps : List ℕ)
    → lo' ≤ lo
    → Rising index lo block ps
    → Rising index lo' block ps
Rising-weaken index lo lo' block [] h r = tt
Rising-weaken index lo lo' block (p ∷ ps) h r = (omega (arith, r.0, h), r.1, r.2)

pub length-Rising :
    (index : ℕ → ℕ) (lo block : ℕ) (ps : List ℕ)
    → lo ≤ block * 512 + 512
    → Rising index lo block ps
    → lo + length ps ≤ block * 512 + 512
length-Rising index lo block [] h r = omega (arith, h)
length-Rising index lo block (p ∷ ps) h r =
    omega (arith, r.0, r.1, length-Rising index (suc (index p)) block ps (omega (arith, r.1)) r.2)

-- From one index of the evictor to the next.
next_index :
    (offset ID : ℕ)
    → offset < 2 ^ 64
    → owner offset ≡ ID
    → owner ((offset + 1) % 2 ^ 64) ≡ ID
    → ((offset + 1) % 2 ^ 64 ≡ suc offset) × (suc offset / 512 ≡ offset / 512)
next_index offset ID h o n = omega (arith, h, o, n)

module _ (lib : RbLib) (ncpus ID : ℕ) (index : ℕ → ℕ) where
  pub both-Moved :
      (g g' g'' : Gather) (new new' : List ℕ)
      → Moved lib ncpus ID index g g' new
      → Moved lib ncpus ID index g' g'' new'
      → Moved lib ncpus ID index g g'' (new ++ new')
  both-Moved g g' g'' new new' m m' = record {
    inv = m'.inv;
    batch = m'.batch ∙ ap (λ (ps : List ℕ). ps ++ new') m.batch ∙ append_assoc g.pgs new new';
    locked = λ q. ground (arith, m.locked q, m'.locked q, count-append q new new');
    queue = λ q. omega (arith, m.queue q, m'.queue q, count-append q new new');
    trees = λ c q. ground (arith, m.trees c q, m'.trees c q, count-append q new new');
  }

  pub look_up-Moved :
      (offset : ℕ) (g : Gather)
      → IsGathering lib ncpus ID index g
      → owner offset ≡ ID
      → (new : List ℕ) × Moved lib ncpus ID index g (look_up lib ncpus offset g) new
        × ((new ≡ []) ⊎ ((p : ℕ) × (new ≡ p ∷ []) × (index p ≡ offset)))
  unfolding look_up
  look_up-Moved offset g v o =
      elim (Option-cases (tagged_rb_search (index_of g.pages) (g.trees (offset % ncpus)) offset)) [
        | inl e ↦ (
          [],
          subst (λ x. Moved lib ncpus ID index g x []) {x = g} (ground (arith, e))
              (nothing-Moved lib ncpus ID index g v),
          inl refl,
        )
        | inr (p, e) ↦
            let found : tagged_rb_search index (g.trees (offset % ncpus)) offset ≡ some p =
              ap (λ (ix : ℕ → ℕ). tagged_rb_search ix (g.trees (offset % ncpus)) offset)
                (sym v.indices)
              ∙ e in
            let out =
              search-IsTakenOut lib index (g.trees (offset % ncpus)) p offset
                (v.ordered (offset % ncpus)) found in
            let step : look_up lib ncpus offset g ≡ take_page lib ncpus (offset % ncpus) p g =
              ground (arith, e) in
            elim (take_page-Moved lib ncpus ID index g v offset p o out) [
              | inl m ↦ (
                p ∷ [],
                subst (λ x. Moved lib ncpus ID index g x (p ∷ [])) (sym step) m,
                inr (p, refl, out.at),
              )
              | inr m ↦ ([], subst (λ x. Moved lib ncpus ID index g x []) (sym step) m, inl refl)
            ]
      ]

  pub record Gathered (g g' : Gather) (offset : ℕ) (new : List ℕ) : Type 0 where
    pub moved : Moved lib ncpus ID index g g' new
    pub rising : owner offset ≡ ID → Rising index offset (offset / 512) new
    pub stopped : owner offset ≢ ID → new ≡ []
    pub fits : length g.pgs ≤ max_evict → length g'.pgs ≤ max_evict

  nothing-Gathered :
      (g : Gather) (offset : ℕ) → IsGathering lib ncpus ID index g → Gathered g g offset []
  nothing-Gathered g offset v = record {
    moved = nothing-Moved lib ncpus ID index g v;
    rising = λ o. tt;
    stopped = λ o. refl;
    fits = λ h. h;
  }

  -- The pages of the next rounds, as seen from this one.
  pub later-Rising :
      (offset : ℕ) (new : List ℕ)
      → offset < 2 ^ 64
      → owner offset ≡ ID
      → (owner ((offset + 1) % 2 ^ 64) ≡ ID
          → Rising index ((offset + 1) % 2 ^ 64) ((offset + 1) % 2 ^ 64 / 512) new)
      → (owner ((offset + 1) % 2 ^ 64) ≢ ID → new ≡ [])
      → Rising index (suc offset) (offset / 512) new
  later-Rising offset new h o r s = elim (Bool-cases (owner ((offset + 1) % 2 ^ 64) == ID)) [
    | inl e ↦
        let same : owner ((offset + 1) % 2 ^ 64) ≡ ID = ground (arith, e) in
        let (no_wrap, block) = next_index offset ID h o same in
        subst (λ k. Rising index (suc offset) k new) block
          (subst (λ k. Rising index k (k / 512) new) {x = (offset + 1) % 2 ^ 64} {y = suc offset}
            no_wrap (r same))
    | inr e ↦
        subst (λ xs. Rising index (suc offset) (offset / 512) xs) {x = []}
          (sym (s (λ x. ground (arith, e, x)))) tt
  ]

  join-Rising :
      (offset : ℕ) (new new' : List ℕ)
      → (new ≡ []) ⊎ ((p : ℕ) × (new ≡ p ∷ []) × (index p ≡ offset))
      → Rising index (suc offset) (offset / 512) new'
      → Rising index offset (offset / 512) (new ++ new')
  join-Rising offset new new' (inl e) r =
      subst (λ (xs : List ℕ). Rising index offset (offset / 512) (xs ++ new')) (sym e)
        (Rising-weaken index (suc offset) offset (offset / 512) new' (omega arith) r)
  join-Rising offset new new' (inr (p, e, at)) r =
      subst (λ (xs : List ℕ). Rising index offset (offset / 512) (xs ++ new')) (sym e)
        (
          omega (arith, at),
          ap (λ (k : ℕ). k / 512) at,
          subst (λ k. Rising index (suc k) (offset / 512) new') (sym at) r,
        )

  one_page :
      (pgs pgs' new : List ℕ) (offset : ℕ)
      → pgs' ≡ pgs ++ new
      → (new ≡ []) ⊎ ((p : ℕ) × (new ≡ p ∷ []) × (index p ≡ offset))
      → length pgs < max_evict
      → length pgs' ≤ max_evict
  one_page pgs pgs' new offset e (inl n) h = ground (arith, e, n, h, length-append pgs [])
  one_page pgs pgs' new offset e (inr (p, n, at)) h =
      ground (arith, e, n, h, length-append pgs (p ∷ []))

  pub gather-Gathered :
      (n offset : ℕ) (g : Gather)
      → offset < 2 ^ 64
      → IsGathering lib ncpus ID index g
      → (new : List ℕ) × Gathered g (gather lib ncpus ID n offset g) offset new
  unfolding gather
  gather-Gathered zero offset g h v = ([], nothing-Gathered g offset v)
  gather-Gathered (suc n) offset g h v = elim (Bool-cases (ltb (length g.pgs) max_evict)) [
    | inr full ↦ (
      [],
      subst (λ x. Gathered g x offset []) {x = g} (ground (arith, full))
          (nothing-Gathered g offset v),
    )
    | inl room ↦ elim (Bool-cases (owner offset == ID)) [
      | inr other ↦ (
        [],
        subst (λ x. Gathered g x offset []) {x = g} (ground (arith, room, other))
            (nothing-Gathered g offset v),
      )
      | inl same ↦
          let o : owner offset ≡ ID = ground (arith, same) in
          let (new, m, one) = look_up-Moved offset g v o in
          let (new', r) =
            gather-Gathered n ((offset + 1) % 2 ^ 64) (look_up lib ncpus offset g) (omega arith)
              m.inv in
          let later = later-Rising offset new' h o r.rising r.stopped in
          let step : gather lib ncpus ID n ((offset + 1) % 2 ^ 64) (look_up lib ncpus offset g)
              ≡ gather lib ncpus ID (suc n) offset g =
            ground (arith, room, same) in
          (
            new ++ new',
            subst (λ x. Gathered g x offset (new ++ new')) step
                (record {
                  moved = both-Moved g _ _ new new' m r.moved;
                  rising = λ o. join-Rising offset new new' one later;
                  stopped = λ n. absurd (n o);
                  fits = λ f. r.fits (
                      one_page g.pgs _ new offset m.batch one
                        (ltb→lt (length g.pgs) max_evict room));
                }),
          )
    ]
  ]
