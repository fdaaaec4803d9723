-- ===== src/Examples/Concurrency.antt =====
-- The theorems on locks and cores at concrete runs.
use system.Base.{
  ◌⊎◌, none, ◌∷◌, [], ◌<◌, ℕ, ◌≡◌, ◌≢◌, ◌+◌, ◌==◌, if◌then◌else◌, refl, arith, some, [],
}
use system.Spinlock.{Locks, created, update, spinlock_aquire, call, round, Reach, start, later}
use system.Spinlock.Exclusion.{Holds, Reach-exclusion, Reach-progress}
use system.Spinlock.Deadlock.{none_yet, another, Steps-deadlock}
use system.Smp.{
  Smp, cpu_jump, Reach as SmpReach, online, passed, powered_on, jump, read_count, write_count,
  wait_round, bsp_jumps, core_reads, core_writes, bsp_waits, here, next,
}
use system.Smp.LostUpdate.{lost_update-hangs}
use system.Smp.Barrier.{barrier-online}

-- Core 0 calls SpinlockAquire on lock 0.
abbrev asking : Locks
asking = record created { core = update created.core 0 (record { waiting = some 0; held = [] }) }

asking-Reach : Reach asking
asking-Reach = later start (call 0 0 refl)

-- It takes the lock.
abbrev holding : Locks
holding = record {
  flag = update asking.flag 0 (spinlock_aquire 0 (asking.flag 0) (asking.core 0)).0;
  core = update asking.core 0 (spinlock_aquire 0 (asking.flag 0) (asking.core 0)).1;
}

holding-Reach : Reach holding
holding-Reach = later asking-Reach (round 0 0 refl)

holding-Holds : Holds holding 0 0
unfolding spinlock_aquire
holding-Holds = omega arith

Reach-exclusion_example : (◌≡◌ {A = ℕ} 0 0) × (◌≡◌ {A = ℕ} ((if 0 == 0 then 1 else 0) + 0) 1)
unfolding spinlock_aquire
Reach-exclusion_example = Reach-exclusion 0 0 0 holding-Reach holding-Holds holding-Holds

Reach-progress_example :
    ((j : ℕ) × Holds asking j 0)
    ⊎ ((spinlock_aquire 0 (asking.flag 0) (asking.core 0)).1
        ≡ record { waiting = none; held = 0 ∷ [] })
Reach-progress_example = Reach-progress 0 0 asking-Reach refl

-- It calls SpinlockAquire on the same lock again, and tries once.
abbrev asking_again : Locks
asking_again = record holding {
  core = update holding.core 0 (record { waiting = some 0; held = (holding.core 0).held });
}

abbrev tried_again : Locks
tried_again = record {
  flag =
      update asking_again.flag 0 (spinlock_aquire 0 (asking_again.flag 0) (asking_again.core 0)).0;
  core =
      update asking_again.core 0 (spinlock_aquire 0 (asking_again.flag 0) (asking_again.core 0)).1;
}

asking_again-Reach : Reach asking_again
unfolding spinlock_aquire
asking_again-Reach = later holding-Reach (call 0 0 refl)

asking_again-Holds : Holds asking_again 0 0
unfolding spinlock_aquire
asking_again-Holds = omega arith

Steps-deadlock_example :
    (tried_again.core 0 ≡ asking_again.core 0) × ((j : ℕ) → Holds tried_again j 0 → j ≡ 0)
unfolding spinlock_aquire
Steps-deadlock_example =
    Steps-deadlock 0 0 asking_again-Reach refl asking_again-Holds
      (another none_yet (round 0 0 refl))

-- Two cores: core 1 is started, counts itself, and the first core goes on.
abbrev jumped : Smp
jumped = jump 2 7 2 (jump 2 7 1 powered_on)

abbrev both_online : Smp
both_online = write_count 1 1 (read_count 1 jumped)

both_online-Reach : SmpReach 2 7 powered_on both_online
unfolding jump cpu_jump read_count
both_online-Reach =
    next
      (next (next (next here (bsp_jumps 1 refl)) (bsp_jumps 2 refl))
        (core_reads 1 refl (omega arith)))
      (core_writes 1 1 refl)

barrier-online_example : (wait_round 2 both_online).cpu 1 ≡ online
unfolding jump cpu_jump read_count write_count wait_round
barrier-online_example =
    barrier-online {s = wait_round 2 both_online} 1 (omega arith)
      (next both_online-Reach (bsp_waits refl)) refl (omega arith)

lost_update-hangs_example :
    (s : Smp) × SmpReach 3 7 powered_on s
    × ((j : ℕ) → j < 3 → s.cpu j ≡ online)
    × ((t : Smp) → SmpReach 3 7 s t → t.bsp ≢ passed)
lost_update-hangs_example = lost_update-hangs 3 7 (omega arith) (omega arith)
