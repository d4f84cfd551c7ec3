-- ===== src/Buffer/Written.antt =====
-- The end of a round of `evictor_thread` of driver/mmap_generational_fifo_buffer.c: the pages that were
-- written go back to the clean queues and are unlocked.
use fast_map.Common.{
  ℕ, suc, ◌+◌, ◌≤◌, ◌≡◌, ◌≢◌, refl, sym, subst, true, false, ◌==◌, if◌then◌else◌, List, [], ◌∷◌,
  arith, length, count, All,
}
use fast_map.TaggedPage.{TaggedPage, bi_none, bi_clean, unlock_tp}
use fast_map.Fifo.{Pages, update}
use fast_map.Buffer.{Buffer, clean_id, insert_page}
use fast_map.Buffer.Placed.{IsPlaced, IsPlaced-pages, insert_page-IsPlaced}

-- `for(i = 0; i < num_pgs; ++i) insert_page_fifo_buffer_t(buf, pgs[i], true)`
unfoldable pub insert_pages : Buffer → List ℕ → Buffer
unfolding insert_page
insert_pages b [] = b
insert_pages b (p ∷ pgs) = insert_pages (insert_page b p true) pgs

-- `for(i = 0; i < num_pgs; ++i) unlock_tp(pgs[i])`
unfoldable pub unlock_pages : Pages → List ℕ → Pages
unfolding unlock_tp
unlock_pages m [] = m
unlock_pages m (p ∷ pgs) = unlock_pages (update m p (unlock_tp (m p))) pgs

unfoldable pub return_pages : Buffer → List ℕ → Buffer
unfolding insert_pages unlock_pages
return_pages b pgs = let b' = insert_pages b pgs in record b' { pages = unlock_pages b'.pages pgs }

-- The pages of a batch differ from each other.
abbrev pub Distinct : List ℕ → Type 0
Distinct [] = Unit
Distinct (p ∷ pgs) = (count p pgs ≡ 0) × Distinct pgs

abbrev pub HasRoom : Buffer → ℕ → Type 0
HasRoom b n = (q : ℕ) → (b.clean q).size + n ≤ (b.clean q).max_size + 1

-- A page that went back.
pub record IsClean (t : TaggedPage) : Type 0 where
  pub in_clean : t.buffer_id ≡ bi_clean
  pub not_dirty : t.is_dirty ≡ 0
  pub not_flagged : t.page_dirty ≡ false

insert_page-HasRoom :
    (b : Buffer) (p n : ℕ) → IsPlaced b → HasRoom b (suc n) → HasRoom (insert_page b p true) n
unfolding insert_page
insert_page-HasRoom b p n v h q =
    ground (arith, v.clean_valid (clean_id (b.pages p)), h q, h (clean_id (b.pages p)))

insert_page-others : (b : Buffer) (p q : ℕ) → q ≢ p → (insert_page b p true).pages q ≡ b.pages q
unfolding insert_page
insert_page-others b p q n = ground (arith, n)

insert_page-IsClean : (b : Buffer) (p : ℕ) → HasRoom b 1 → IsClean ((insert_page b p true).pages p)
unfolding insert_page
insert_page-IsClean b p h = record {
  in_clean = ground (arith, h (clean_id (b.pages p)));
  not_dirty = ground arith;
  not_flagged = ground arith;
}

insert_pages-others :
    (b : Buffer) (pgs : List ℕ) (q : ℕ) → count q pgs ≡ 0 → (insert_pages b pgs).pages q ≡ b.pages q
unfolding insert_pages
insert_pages-others b [] q h = refl
insert_pages-others b (p ∷ pgs) q h =
    ground (arith, insert_pages-others (insert_page b p true) pgs q, insert_page-others b p q)

All-none :
    (b : Buffer) (p : ℕ) (pgs : List ℕ)
    → count p pgs ≡ 0
    → All (λ q. (b.pages q).buffer_id ≡ bi_none) pgs
    → All (λ q. ((insert_page b p true).pages q).buffer_id ≡ bi_none) pgs
All-none b p [] h a = tt
All-none b p (q ∷ pgs) h a =
    (ground (arith, h, a.0, insert_page-others b p q), All-none b p pgs (ground (arith, h)) a.1)

insert_pages-IsPlaced :
    (b : Buffer) (pgs : List ℕ)
    → IsPlaced b
    → Distinct pgs
    → All (λ p. (b.pages p).buffer_id ≡ bi_none) pgs
    → HasRoom b (length pgs)
    → IsPlaced (insert_pages b pgs) × All (λ p. IsClean ((insert_pages b pgs).pages p)) pgs
unfolding insert_pages
insert_pages-IsPlaced b [] v d a r = (v, tt)
insert_pages-IsPlaced b (p ∷ pgs) v d a r =
    let b1 = insert_page b p true in
    let (placed, clean) =
      insert_pages-IsPlaced b1 pgs (insert_page-IsPlaced b p true v a.0) d.1
        (All-none b p pgs d.0 a.1) (insert_page-HasRoom b p (length pgs) v r) in
    (
      placed,
      (
        subst IsClean (sym (insert_pages-others b1 pgs p d.0))
            (insert_page-IsClean b p (λ q. omega (arith, r q))),
        clean,
      ),
    )

pub unlock_pages-page :
    (m : Pages) (pgs : List ℕ) (q : ℕ)
    → unlock_pages m pgs q ≡ (if count q pgs == 0 then m q else record (m q) { locked = false })
unfolding unlock_pages
unlock_pages-page m [] q = refl
unlock_pages-page m (p ∷ pgs) q =
    ground (arith, unlock_pages-page (update m p (unlock_tp (m p))) pgs q)

All-unlocked :
    (m : Pages) (seen pgs : List ℕ)
    → All (λ p. IsClean (m p)) pgs
    → ((p : ℕ) → count p pgs ≤ count p seen)
    → All (λ p. IsClean (unlock_pages m seen p) × ((unlock_pages m seen p).locked ≡ false)) pgs
All-unlocked m seen [] a h = tt
All-unlocked m seen (p ∷ pgs) a h =
    let same : unlock_pages m seen p ≡ record (m p) { locked = false } =
      ground (arith, unlock_pages-page m seen p, h p) in
    (
      (
        subst IsClean (sym same) (record {
          in_clean = a.0.in_clean;
          not_dirty = a.0.not_dirty;
          not_flagged = a.0.not_flagged;
        }),
        ground (arith, same),
      ),
      All-unlocked m seen pgs a.1 (λ q. ground (arith, h q)),
    )

-- Where the queues are placed, the pages of a batch differ and have buffer id BI_NONE, and every
-- clean queue has room for as many pages: returning the batch keeps the queues placed, and each
-- page of it is then unlocked, in a clean queue and not dirty.
pub return_pages-IsPlaced :
    (b : Buffer) (pgs : List ℕ)
    → IsPlaced b
    → Distinct pgs
    → All (λ p. (b.pages p).buffer_id ≡ bi_none) pgs
    → HasRoom b (length pgs)
    → IsPlaced (return_pages b pgs)
      × All
          (λ p.
            IsClean ((return_pages b pgs).pages p)
            × (((return_pages b pgs).pages p).locked ≡ false))
          pgs
unfolding return_pages
return_pages-IsPlaced b pgs v d a r =
    let (placed, clean) = insert_pages-IsPlaced b pgs v d a r in
    let m = (insert_pages b pgs).pages in
    (
      IsPlaced-pages (insert_pages b pgs) (unlock_pages m pgs) placed
          (λ q. ground (arith, unlock_pages-page m pgs q))
          (λ q. ground (arith, unlock_pages-page m pgs q)),
      All-unlocked m pgs pgs clean (λ p. omega arith),
    )
