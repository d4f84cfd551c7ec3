-- ===== src/TaggedPage/Lock.antt =====
-- The page lock: what `trylock_tp` answers, and that at most one of any number of threads holds it.
use fast_map.Common.{
  ℕ, ◌≡◌, ◌≢◌, ◌⊎◌, true, false, List, [], ◌∷◌, arith, ◌<◌, count, erase, length, length-erase,
  count-le-length, if◌then◌else◌,
}
use fast_map.TaggedPage.{
  TaggedPage, TryLock, taken, already_locked, wrong_index, not_in_use, trylock_tp, unlock_tp,
  ulong_max,
}

-- What each answer of `trylock_tp` says of the page.
abbrev pub Answered : TryLock → TaggedPage → ℕ → Type 0
Answered taken t index =
    (t.in_use ≡ 1) × ((index ≡ ulong_max) ⊎ (t.index ≡ index)) × (t.locked ≡ false)
Answered already_locked t index =
    (t.in_use ≡ 1) × ((index ≡ ulong_max) ⊎ (t.index ≡ index)) × (t.locked ≡ true)
Answered wrong_index t index = (t.in_use ≡ 1) × (index ≢ ulong_max) × (t.index ≢ index)
Answered not_in_use t index = t.in_use ≢ 1

abbrev pub After : TryLock → TaggedPage → TaggedPage → Type 0
After taken t u = u ≡ record t { locked = true }
After _ t u = u ≡ t

-- Each of the four answers of trylock_tp tells whether the page is in use, whether its index is the
-- one asked for or any, and whether it was locked; the page changes only where the answer is taken,
-- and then only by its lock.
pub trylock_tp-Answered :
    (t : TaggedPage) (index : ℕ)
    → let (r, u) = trylock_tp t index in Answered r t index × After r t u
unfolding trylock_tp
trylock_tp-Answered t index = ground arith

-- Threads that lock and unlock one page. `holders` are the threads whose call answered `taken` and
-- that have not unlocked since.
pub record Shared : Type 0 where
  pub page : TaggedPage
  pub holders : List ℕ

abbrev hold : TryLock → ℕ → List ℕ → List ℕ
hold taken thread holders = thread ∷ holders
hold _ thread holders = holders

unfoldable pub try : ℕ → ℕ → Shared → Shared
try thread index s =
    let (r, page) = trylock_tp s.page index in
    record { page = page; holders = hold r thread s.holders }

unfoldable pub release : ℕ → Shared → Shared
release thread s = record { page = unlock_tp s.page; holders = erase thread s.holders }

-- A thread tries the lock, a holder releases it, or any code changes the page but for its lock bit.
pub data Step : Shared → Shared → Type 0 where
  tries : (s : Shared) (thread index : ℕ) → Step s (try thread index s)
  releases : (s : Shared) (thread : ℕ) → 0 < count thread s.holders → Step s (release thread s)
  changes :
      (s : Shared) (page : TaggedPage)
      → page.locked ≡ s.page.locked
      → Step s (record s { page = page })

pub data Reach (s : Shared) : Shared → Type 0 where
  here : Reach s s
  next : {t u : Shared} → Reach s t → Step t u → Reach s u

-- The lock bit says whether there is a holder, and there is never more than one.
abbrev HolderCount : Shared → Type 0
HolderCount s = length s.holders ≡ (if s.page.locked then 1 else 0)

Step-HolderCount : {s t : Shared} → Step s t → HolderCount s → HolderCount t
unfolding try release trylock_tp unlock_tp
Step-HolderCount (tries s thread index) h = ground arith
Step-HolderCount (releases s thread held) h =
    ground (arith, length-erase thread s.holders, count-le-length thread s.holders)
Step-HolderCount (changes s page e) h = ground arith

Reach-HolderCount : {s t : Shared} → Reach s t → HolderCount s → HolderCount t
Reach-HolderCount here h = h
Reach-HolderCount (next r st) h = Step-HolderCount st (Reach-HolderCount r h)

-- From an unlocked page with no holder, after any sequence of attempts to lock, releases by holders
-- and changes that keep the lock bit: where trylock_tp answers taken no thread holds the page, and
-- the thread that calls it is then the only holder.
pub taken_alone :
    (s t : Shared) (thread index : ℕ)
    → s.page.locked ≡ false
    → s.holders ≡ []
    → Reach s t
    → (trylock_tp t.page index).0 ≡ taken
    → (t.holders ≡ []) × ((try thread index t).holders ≡ thread ∷ [])
unfolding try trylock_tp
taken_alone s t thread index free nobody r e = ground (arith, Reach-HolderCount r)
