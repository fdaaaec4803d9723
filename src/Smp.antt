-- ===== src/Smp.antt =====
-- kernel/src/hal/cpu/smp/smp.cpp: how SetupAllCPUs starts the other cores and waits for them, one memory
-- access at a time. The bootloader parks a core until its goto address is written (Limine's
-- documentation). What a core sets up before it counts itself is left out, and so are the log lines.
pub mod Barrier
pub mod LostUpdate
pub mod Setup
pub mod Apart
pub mod Ready
pub mod Faults
use system.Base.{ℕ, ◌+◌, ◌≤◌, ◌<◌, ◌==◌, ◌≡◌, ◌≢◌, Bool, true, false, not, ltb, if◌then◌else◌}
use system.Spinlock.{update}

-- A core: parked, between the read and the write of `CoresInitialized++`, or in its final loop.
pub data Cpu : Type 0 where
  parked : Cpu
  counting : (seen : ℕ) → Cpu
  online : Cpu

-- The first core in SetupAllCPUs: in the loop of CPUJump calls, in the waiting loop, or past it.
pub data Bsp : Type 0 where
  jumping : (i : ℕ) → Bsp
  waiting : Bsp
  passed : Bsp

-- The core count is a parameter; the first core is number 0.
pub record Smp : Type 0 where
  pub goto_address : ℕ → ℕ
  pub cores_initialized : ℕ
  pub cpu : ℕ → Cpu
  pub bsp : Bsp

-- CPUJump. `smp_data` says whether the pointer is not null.
unfoldable pub cpu_jump : (smp_data : Bool) → (goto_address : ℕ → ℕ) → (core target : ℕ) → ℕ → ℕ
cpu_jump smp_data goto_address core target =
    if core == 0
    then goto_address
    else (if not smp_data then goto_address else update goto_address core target)

-- A round of the loop of SetupAllCPUs over the cores, on `cores` cores.
unfoldable pub jump : (cores target i : ℕ) → Smp → Smp
unfolding cpu_jump
jump cores target i s =
    if ltb i cores
    then record s { goto_address = cpu_jump true s.goto_address i target; bsp = jumping (i + 1) }
    else record s { bsp = waiting }

-- `CoresInitialized++` of core `j`: the read, and the write of what was read, and one.
unfoldable pub read_count : ℕ → Smp → Smp
read_count j s = record s { cpu = update s.cpu j (counting s.cores_initialized) }

unfoldable pub write_count : (j seen : ℕ) → Smp → Smp
write_count j seen s = record s { cores_initialized = seen + 1; cpu = update s.cpu j online }

-- `while (CoresInitialized < CoreCount);`
unfoldable pub wait_round : (cores : ℕ) → Smp → Smp
wait_round cores s = if ltb s.cores_initialized cores then s else record s { bsp = passed }

abbrev pub powered_on : Smp
powered_on = record {
  goto_address = λ j. 0;
  cores_initialized = 1;
  cpu = λ j. if j == 0 then online else parked;
  bsp = jumping 1;
}

pub data Step (cores target : ℕ) (s : Smp) : Smp → Type 0 where
  bsp_jumps : (i : ℕ) → s.bsp ≡ jumping i → Step cores target s (jump cores target i s)
  core_reads :
      (j : ℕ) → s.cpu j ≡ parked → s.goto_address j ≢ 0 → Step cores target s (read_count j s)
  core_writes : (j seen : ℕ) → s.cpu j ≡ counting seen → Step cores target s (write_count j seen s)
  bsp_waits : s.bsp ≡ waiting → Step cores target s (wait_round cores s)

-- The states that can follow a state.
pub data Reach (cores target : ℕ) (s : Smp) : Smp → Type 0 where
  here : Reach cores target s s
  next : {t u : Smp} → Reach cores target s t → Step cores target t u → Reach cores target s u
