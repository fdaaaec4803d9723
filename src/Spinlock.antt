-- ===== src/Spinlock.antt =====
-- kernel/src/hal/spinlock.c: SpinlockAquire and SpinlockRelease, one atomic access at a time, on any
-- number of cores and locks. A core may take a lock while it holds others, and releases the one that it
-- took last, as every function of the kernel does.
pub mod Exclusion
pub mod Deadlock
use system.Base.{Option, none, some, List, [], ◌∷◌, ℕ, ◌==◌, Bool, true, false, if◌then◌else◌, ◌≡◌}

-- `atomic_flag_test_and_set_explicit`: the new value of the flag, and the old one.
abbrev pub test_and_set : Bool → Bool × Bool
test_and_set flag = (true, flag)

-- `atomic_flag_clear_explicit`
abbrev pub clear : Bool → Bool
clear flag = false

-- A core: the lock in whose loop of SpinlockAquire it is, and the locks that it holds, last taken first.
pub record Core : Type 0 where
  pub waiting : Option ℕ
  pub held : List ℕ

-- One round of the loop of SpinlockAquire.
unfoldable pub spinlock_aquire : (lock : ℕ) → Bool → Core → Bool × Core
spinlock_aquire lock flag c =
    let (flag', old) = test_and_set flag in
    (flag', (if old then c else record { waiting = none; held = lock ∷ c.held }))

unfoldable pub spinlock_release : Bool → Bool
spinlock_release flag = clear flag

-- The flags by lock, and the cores.
pub record Locks : Type 0 where
  pub flag : ℕ → Bool
  pub core : ℕ → Core

abbrev pub update {ℓ} : {A : Type ℓ} → (ℕ → A) → ℕ → A → ℕ → A
update f i x j = if j == i then x else f j

-- Every lock starts as SPINLOCK_CREATE makes it, and every core without locks.
abbrev pub created : Locks
created = record { flag = λ l. false; core = λ i. record { waiting = none; held = [] } }

pub data Step (s : Locks) : Locks → Type 0 where
  call :
      (i l : ℕ)
      → (s.core i).waiting ≡ none
      → Step s (record s {
        core = update s.core i (record { waiting = some l; held = (s.core i).held });
      })
  round :
      (i l : ℕ)
      → (s.core i).waiting ≡ some l
      → Step s (record {
        flag = update s.flag l (spinlock_aquire l (s.flag l) (s.core i)).0;
        core = update s.core i (spinlock_aquire l (s.flag l) (s.core i)).1;
      })
  release :
      (i l : ℕ) (ls : List ℕ)
      → (s.core i).waiting ≡ none
      → (s.core i).held ≡ l ∷ ls
      → Step s (record {
        flag = update s.flag l (spinlock_release (s.flag l));
        core = update s.core i (record { waiting = none; held = ls });
      })

pub data Reach : Locks → Type 0 where
  start : Reach created
  later : {s t : Locks} → Reach s → Step s t → Reach t
