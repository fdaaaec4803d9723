-- ===== src/Spinlock/Deadlock.antt =====
-- kernel/src/hal/spinlock.c: a core that calls SpinlockAquire on a lock that it holds already, as an
-- exception inside Log does when PanicFromException calls Log (kernel/src/libs/kernel.cpp).
use system.Base.{ℕ, ◌<◌, ◌≡◌, ◌∙◌, refl, sym, ap, subst, arith, true, some}
use system.Spinlock.{spinlock_aquire, Locks, Step, call, round, release, Reach, later}
use system.Spinlock.Exclusion.{Holds, times, Reach-exclusion, Reach-set}

-- Any number of steps, of any cores.
pub data Steps (s : Locks) : Locks → Type 0 where
  none_yet : Steps s s
  another : {t u : Locks} → Steps s t → Step t u → Steps s u

Steps-Reach : {s t : Locks} → Reach s → Steps s t → Reach t
Steps-Reach r none_yet = r
Steps-Reach r (another st x) = later (Steps-Reach r st) x

Step-stuck :
    {s t : Locks} (i l : ℕ)
    → s.flag l ≡ true
    → (s.core i).waiting ≡ some l
    → Step s t
    → t.core i ≡ s.core i
unfolding spinlock_aquire
Step-stuck i l f w (call j m w') = ground arith
Step-stuck i l f w (round j m w') = ground arith
Step-stuck i l f w (release j m ls w' e) = ground arith

-- The core as it was, and the flag still set.
Steps-stuck :
    {s t : Locks} (i l : ℕ)
    → Reach s
    → (s.core i).waiting ≡ some l
    → Holds s i l
    → Steps s t
    → t.core i ≡ s.core i
Steps-stuck i l r w h none_yet = refl
Steps-stuck i l r w h (another st x) =
    let same = Steps-stuck i l r w h st in
    let locked = subst (λ c. 0 < times l c.held) (sym same) h in
    Step-stuck i l (Reach-set i l (Steps-Reach r st) locked) (ap (λ c. c.waiting) same ∙ w) x ∙ same

-- A core that waits for a lock that it holds never gets on: however the steps go on, of whatever cores,
-- the core is in the same loop with the same locks, and no other core ever holds the lock.
pub Steps-deadlock :
    {s t : Locks} (i l : ℕ)
    → Reach s
    → (s.core i).waiting ≡ some l
    → Holds s i l
    → Steps s t
    → (t.core i ≡ s.core i) × ((j : ℕ) → Holds t j l → j ≡ i)
Steps-deadlock i l r w h st =
    let same = Steps-stuck i l r w h st in
    let locked = subst (λ c. 0 < times l c.held) (sym same) h in
    (same, λ j h'. (Reach-exclusion j i l (Steps-Reach r st) h' locked).0)
