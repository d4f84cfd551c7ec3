-- ===== src/Tests/Machine.antt =====
-- A cache of one page, on a machine of one CPU.
use fast_map.Common.{
  ℕ, ◌≡◌, ◌≢◌, refl, true, false, ◌==◌, if◌then◌else◌, List, [], ◌∷◌, Option, none, some, arith,
  Option-cases, inl, inr,
}
use fast_map.TaggedPage.{TaggedPage, bi_clean}
use fast_map.Fifo.{Fifo}
use fast_map.Cache.{Inserted, done, exists, no_memory, RadixLib, Cache, Kernel, fmap_radix_lookup}
use fast_map.Cache.Cached.{IsCached}
use fast_map.Cache.Clear.{RadixIter}
use fast_map.Cache.Getpage.Rounds.{IsServed}
use fast_map.Tests.{blank}

-- A radix tree as a list of indices with their pages.
abbrev pub Entries : Type 0
Entries = List (ℕ × ℕ)

abbrev pub entries_lookup : Entries → ℕ → Option ℕ
entries_lookup [] i = none
entries_lookup ((j, p) ∷ t) i = if i == j then some p else entries_lookup t i

abbrev pub entries_delete : Entries → ℕ → Entries
entries_delete [] i = []
entries_delete ((j, p) ∷ t) i = if j == i then entries_delete t i else (j, p) ∷ entries_delete t i

unfoldable pub entries_insert : Entries → ℕ → ℕ → Inserted × Entries
entries_insert t i p = elim (entries_lookup t i) [
  | none ↦ (done, (i, p) ∷ t)
  | some q ↦ (exists, t)
]

pub entries_present :
    (t : Entries) (i p q : ℕ) → entries_lookup t i ≡ some q → entries_insert t i p ≡ (exists, t)
unfolding entries_insert
entries_present t i p q e = ground (arith, e)

pub entries_absent :
    (t : Entries) (i p : ℕ) → entries_lookup t i ≡ none → (entries_insert t i p).0 ≢ exists
unfolding entries_insert
entries_absent t i p e f = ground (arith, e, f)

pub entries_memory : (t : Entries) (i p : ℕ) → (entries_insert t i p).0 ≢ no_memory
unfolding entries_insert
entries_memory t i p f = elim (Option-cases (entries_lookup t i)) [
  | inl e ↦ ground (arith, e, f)
  | inr (q, e) ↦ ground (arith, e, f)
]

pub lookup-insert :
    (t : Entries) (i p j : ℕ)
    → (entries_insert t i p).0 ≡ done
    → entries_lookup (entries_insert t i p).1 j ≡ (if j == i then some p else entries_lookup t j)
unfolding entries_insert
lookup-insert t i p j f = elim (Option-cases (entries_lookup t i)) [
  | inl e ↦ ground (arith, e, f)
  | inr (q, e) ↦ ground (arith, e, f)
]

pub lookup-delete :
    (t : Entries) (i j : ℕ)
    → entries_lookup (entries_delete t i) j ≡ (if j == i then none else entries_lookup t j)
lookup-delete [] i j = ground arith
lookup-delete ((k, p) ∷ t) i j = ground (arith, lookup-delete t i j)

abbrev pub entries : RadixLib Entries
entries = record {
  radix_tree_lookup = entries_lookup;
  radix_tree_insert = entries_insert;
  radix_tree_delete = entries_delete;
  insert-present = entries_present;
  insert-absent = entries_absent;
  lookup-insert = lookup-insert;
  lookup-no_memory = λ t i p j e. absurd (entries_memory t i p e);
  lookup-delete = lookup-delete;
}

abbrev pub entries_first : Entries → Option (ℕ × ℕ)
entries_first [] = none
entries_first ((i, p) ∷ t) = some (i, p)

pub first-some :
    (t : Entries) (i p : ℕ) → entries_first t ≡ some (i, p) → entries_lookup t i ≡ some p
first-some [] i p e = absurd (ground (arith, e))
first-some ((j, q) ∷ t) i p e = ground (arith, e)

pub first-none : (t : Entries) (i : ℕ) → entries_first t ≡ none → entries_lookup t i ≡ none
first-none [] i e = refl
first-none ((j, q) ∷ t) i e = absurd (ground (arith, e))

abbrev pub first_entry : RadixIter entries
first_entry = record { first = entries_first; first-some = first-some; first-none = first-none }

abbrev pub machine : Kernel Entries
machine = record {
  radix = entries;
  set_bit = λ i b j. if j == i then true else b j;
  set_bit_lem = λ i b j. refl;
  num_online_cpus = 1;
  vm_mm = λ vma. vma;
  cpumask_of_node = λ node. 0 ∷ [];
  nodes = 0 ∷ [];
}

pub machine-IsServed : IsServed machine 1 1
machine-IsServed = record { node = 0; one_node = refl; memory = entries_memory }

-- Page 0 holds page 3 of device 1.
abbrev pub cached_page : TaggedPage
cached_page = record (blank 3) { page_valid = 1; buffer_id = bi_clean }

abbrev pub clean_queues : ℕ → Fifo
clean_queues q =
    if q == 3
    then record { buffer = 0 ∷ []; max_size = 9; size = 1 }
    else record { buffer = []; max_size = 9; size = 0 }

abbrev pub full : Cache Entries
full = record {
  clean = clean_queues;
  dirty = λ q. record { buffer = []; max_size = 9; size = 0 };
  page_map = record {
    fl = λ cpu. [];
    pages = λ p. if p == 0 then cached_page else record (blank 0) { in_use = 0 };
    total_num_pages = 1;
  };
  rdx = λ d k. if d == 1 then (if k == 0 then (3, 0) ∷ [] else []) else [];
  backing = λ d. record {
    is_block = true;
    size = 8000;
    priority = λ i. 0;
    bits = λ i. false;
    during_unlink = 0;
  };
}

pub full-IsCached : IsCached machine 1 1 full
unfolding fmap_radix_lookup
full-IsCached = record {
  homed = record { listed = λ c p. ground arith; home = λ c p o u. ground (arith, o, u) };
  owned = λ p u. ground (arith, u);
  unlocked = λ p u. ground arith;
  placed = record {
    clean_valid = λ q. ground arith;
    dirty_valid = λ q. ground arith;
    in_clean = λ q p. ground arith;
    in_dirty = λ q p. ground arith;
  };
  in_tree = λ d k i p e. record {
    same_pvd = ground (arith, e);
    same_index = ground (arith, e);
    used = ground (arith, e);
    own_tree = ground (arith, e);
    readable = ground (arith, e);
  };
  queued = λ p n. ground (arith, n);
}
