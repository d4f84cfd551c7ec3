-- ===== src/PageMap/Homed.antt =====
-- A page of the map is on the free list of its own CPU, once, or it is in use.
use fast_map.Common.{
  inl, inr, Bool-cases, ℕ, zero, suc, ◌*◌, ◌≤◌, ◌≡◌, ◌≢◌, Bool, true, ltb, leb, ◌&&◌, ◌==◌,
  if◌then◌else◌, [], ◌∷◌, count, count-append, arith,
}
use fast_map.PageMap.{PageMap, free_page_lock}

-- Page `p` lies in the part of the array that belongs to CPU `c`.
abbrev pub owns : ℕ → ℕ → ℕ → ℕ → Bool
owns ncpus percpu c p = ltb c ncpus && leb (c * percpu) p && ltb p (suc c * percpu)

pub record IsHomed (ncpus percpu : ℕ) (pm : PageMap) : Type 0 where
  pub listed :
      (c p : ℕ)
      → count p (pm.fl c)
        ≡ (if owns ncpus percpu c p then (if (pm.pages p).in_use == 0 then 1 else 0) else 0)
  pub home :
      (c p : ℕ) → owns ncpus percpu c p ≡ true → (pm.pages p).in_use ≢ 0 → (pm.pages p).cpuid ≡ c

mul_le : (k c d : ℕ) → c ≤ d → c * k ≤ d * k
mul_le k c zero h = ground arith
mul_le k c (suc d) h = elim (Bool-cases (leb c d)) [
  | inl e ↦ omega (arith, mul_le k c d (ground (arith, e)))
  | inr e ↦ ground (arith, e)
]

pub one_owner : (ncpus k c d p : ℕ) → owns ncpus k c p ≡ true → owns ncpus k d p ≡ true → c ≡ d
one_owner ncpus k c d p h g = ground (arith, mul_le k (suc c) d, mul_le k (suc d) c)

-- Freeing a page that is in use keeps every page of the map once in the free list of the CPU that
-- owns it, or in use with that CPU noted.
pub free_page_lock-IsHomed :
    (ncpus percpu : ℕ) (pm : PageMap) (c p : ℕ)
    → IsHomed ncpus percpu pm
    → owns ncpus percpu c p ≡ true
    → (pm.pages p).in_use ≢ 0
    → IsHomed ncpus percpu (free_page_lock pm p)
unfolding free_page_lock
free_page_lock-IsHomed ncpus k pm c p v o u = record {
  listed = λ d q. ground (
    arith,
    v.listed d q,
    v.home c p o u,
    count-append q (pm.fl c) (p ∷ []),
    one_owner ncpus k c d p o,
  );
  home = λ d q. ground (arith, v.home d q);
}
