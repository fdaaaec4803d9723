-- ===== src/Spinlock/Exclusion.antt =====
-- What holds in every reachable state of the locks.
use system.Base.{
  ℕ, ◌+◌, ◌≤◌, ◌<◌, ◌==◌, ◌≡◌, ◌≢◌, ◌⊎◌, inl, inr, refl, arith, true, false, Bool-cases,
  if◌then◌else◌, none, some, List, [], ◌∷◌,
}
use system.Spinlock.{
  spinlock_aquire, spinlock_release, Locks, update, created, Step, call, round, release, Reach,
  start, later,
}

-- How often a core holds a lock.
abbrev pub times : ℕ → List ℕ → ℕ
times l [] = 0
times l (k ∷ ks) = (if k == l then 1 else 0) + times l ks

-- Core `i` holds lock `l`.
abbrev pub Holds : Locks → ℕ → ℕ → Type 0
Holds s i l = 0 < times l (s.core i).held

-- A lock that is held is held once, by one core, and its flag is set; a flag that is set has a holder.
record Inv (s : Locks) : Type 0 where
  once : (i l : ℕ) → times l (s.core i).held ≤ 1
  set : (i l : ℕ) → Holds s i l → s.flag l ≡ true
  alone : (i j l : ℕ) → Holds s i l → Holds s j l → i ≡ j
  owned : (l : ℕ) → s.flag l ≡ true → (i : ℕ) × Holds s i l

module _ {s : Locks} (inv : Inv s) where
  open inv use {once, set, alone, owned}

  Step-once : {t : Locks} → Step s t → (j m : ℕ) → times m (t.core j).held ≤ 1
  unfolding spinlock_aquire
  Step-once (call i l w) j m = ground (arith, once j m, once i m)
  Step-once (round i l w) j m = ground (arith, once j m, once i m, set i m)
  Step-once (release i l ls w e) j m = ground (arith, once j m, once i m)

  Step-set : {t : Locks} → Step s t → (j m : ℕ) → Holds t j m → t.flag m ≡ true
  unfolding spinlock_aquire spinlock_release
  Step-set (call i l w) j m h = ground (arith, set j m, set i m)
  Step-set (round i l w) j m h = ground (arith, set j m, set i m)
  Step-set (release i l ls w e) j m h = ground (arith, set j m, set i m, once i m, alone i j m)

  Step-alone : {t : Locks} → Step s t → (j k m : ℕ) → Holds t j m → Holds t k m → j ≡ k
  unfolding spinlock_aquire
  Step-alone (call i l w) j k m h h' = ground (arith, alone j k m, alone i k m, alone j i m)
  Step-alone (round i l w) j k m h h' =
      ground (arith, alone j k m, alone i k m, alone j i m, set j m, set k m)
  Step-alone (release i l ls w e) j k m h h' = ground (arith, alone j k m, alone i k m, alone j i m)

  Step-owned : {t : Locks} → Step s t → (m : ℕ) → t.flag m ≡ true → (j : ℕ) × Holds t j m
  unfolding spinlock_aquire spinlock_release
  Step-owned (call i l w) m f = let (j, h) = owned m f in (j, ground arith)
  Step-owned (round i l w) m f = elim (Bool-cases (m == l)) [
    | inl this ↦ elim (Bool-cases (s.flag l)) [
      | inl taken ↦ let (j, h) = owned l taken in (j, ground arith)
      | inr free ↦ (i, ground arith)
    ]
    | inr other ↦ let (j, h) = owned m (ground arith) in (j, ground arith)
  ]
  Step-owned (release i l ls w e) m f = let (j, h) = owned m (ground arith) in (j, ground arith)

  Step-Inv : {t : Locks} → Step s t → Inv t
  Step-Inv st = record {
    once = Step-once st;
    set = Step-set st;
    alone = Step-alone st;
    owned = Step-owned st;
  }

created-Inv : Inv created
created-Inv = record {
  once = λ i l. omega arith;
  set = λ i l h. absurd (omega arith);
  alone = λ i j l h h'. absurd (omega arith);
  owned = λ l f. cc;
}

Reach-Inv : {s : Locks} → Reach s → Inv s
Reach-Inv start = created-Inv
Reach-Inv (later r st) = Step-Inv (Reach-Inv r) st

-- The flag of a lock that is held is set.
pub Reach-set : {s : Locks} (i l : ℕ) → Reach s → Holds s i l → s.flag l ≡ true
Reach-set i l r h = (Reach-Inv r).set i l h

-- Mutual exclusion: whatever the order of the atomic accesses, a lock is never held by two cores, and
-- never twice by one.
pub Reach-exclusion :
    {s : Locks} (i j l : ℕ)
    → Reach s
    → Holds s i l
    → Holds s j l
    → (i ≡ j) × (times l (s.core i).held ≡ 1)
Reach-exclusion i j l r h h' =
    let inv = Reach-Inv r in (inv.alone i j l h h', omega (arith, inv.once i l))

-- No lost lock: while a core is in the loop for a lock, either some core holds the lock, or the next
-- round of the loop takes it.
pub Reach-progress :
    {s : Locks} (i l : ℕ)
    → Reach s
    → (s.core i).waiting ≡ some l
    → ((j : ℕ) × Holds s j l)
      ⊎ ((spinlock_aquire l (s.flag l) (s.core i)).1
          ≡ record { waiting = none; held = l ∷ (s.core i).held })
unfolding spinlock_aquire
Reach-progress {s} i l r w = elim (Bool-cases (s.flag l)) [
  | inl taken ↦ inl ((Reach-Inv r).owned l taken)
  | inr free ↦ inr (rw free)
]

-- A core that takes a free lock: nothing else changes.
record Taken (s : Locks) (i l : ℕ) (t : Locks) : Type 0 where
  reach : Reach t
  core : t.core i ≡ record { waiting = none; held = l ∷ (s.core i).held }
  cores : (j : ℕ) → j ≢ i → t.core j ≡ s.core j
  flags : (m : ℕ) → m ≢ l → t.flag m ≡ s.flag m

called : Locks → (i l : ℕ) → Locks
called s i l = record s {
  core = update s.core i (record { waiting = some l; held = (s.core i).held });
}

taken : Locks → (i l : ℕ) → Locks
taken s i l = record {
  flag = update s.flag l (spinlock_aquire l (s.flag l) ((called s i l).core i)).0;
  core = update (called s i l).core i (spinlock_aquire l (s.flag l) ((called s i l).core i)).1;
}

take-Taken :
    {s : Locks} (i l : ℕ)
    → Reach s
    → (s.core i).waiting ≡ none
    → s.flag l ≡ false
    → Taken s i l (taken s i l)
unfolding taken called spinlock_aquire
take-Taken {s} i l r w free = record {
  reach = later (later r (call i l w)) (round i l (ground arith));
  core = ground arith;
  cores = λ j apart. ground arith;
  flags = λ m apart. ground arith;
}

-- Two different locks do not exclude one another: two cores can hold them at the same time.
pub different_locks-overlap : (l k : ℕ) → l ≢ k → (s : Locks) × Reach s × Holds s 0 l × Holds s 1 k
different_locks-overlap l k apart =
    let one = take-Taken 0 l start refl refl in
    let s = taken created 0 l in
    let same = one.cores 1 (omega arith) in
    let two = take-Taken 1 k one.reach (ground arith) (ground (arith, one.flags k)) in
    (taken s 1 k, two.reach, ground (arith, one.core, two.cores 0), ground (arith, two.core))
