-- ===== src/Smp/Barrier.antt =====
-- What the waiting loop of SetupAllCPUs guarantees, and what the unprotected counter can do to it.
use system.Base.{
  ℕ, zero, suc, ◌+◌, ◌≤◌, ◌<◌, ◌≡◌, ◌≢◌, ◌⊎◌, inl, inr, refl, arith, ltb, Bool-cases, if◌then◌else◌,
}
use system.Spinlock.{update}
use system.Smp.{
  Cpu, parked, counting, online, jumping, passed, Smp, cpu_jump, jump, read_count, write_count,
  wait_round, powered_on, Step, bsp_jumps, core_reads, core_writes, bsp_waits, Reach, here, next,
}

abbrev is_online : Cpu → ℕ
is_online parked = 0
is_online (counting seen) = 0
is_online online = 1

-- How many of the first `k` cores are online.
online_count : ℕ → (ℕ → Cpu) → ℕ
online_count zero cpu = 0
online_count (suc k) cpu = is_online (cpu k) + online_count k cpu

online_count-update :
    (k : ℕ) (cpu : ℕ → Cpu) (j : ℕ) (c : Cpu)
    → online_count k (update cpu j c) + (if ltb j k then is_online (cpu j) else 0)
      ≡ online_count k cpu + (if ltb j k then is_online c else 0)
unfolding online_count
online_count-update zero cpu j c = ground arith
online_count-update (suc k) cpu j c = ground (arith, online_count-update k cpu j c)

online_count-le : (k : ℕ) (cpu : ℕ → Cpu) → online_count k cpu ≤ k
unfolding online_count
online_count-le zero cpu = omega arith
online_count-le (suc k) cpu = ground (arith, online_count-le k cpu)

-- When the count is full, every core is online.
online_count-full :
    (k : ℕ) (cpu : ℕ → Cpu) (j : ℕ) → k ≤ online_count k cpu → j < k → cpu j ≡ online
unfolding online_count
online_count-full zero cpu j full lt = absurd (omega arith)
online_count-full (suc k) cpu j full lt =
    ground (arith, online_count-le k cpu, online_count-full k cpu j)

-- The counter never runs ahead of the cores that are online, nor does what a core has read of it.
record Inv (cores : ℕ) (s : Smp) : Type 0 where
  some_core : 0 < cores
  behind : s.cores_initialized ≤ online_count cores s.cpu
  seen : (j v : ℕ) → s.cpu j ≡ counting v → (v ≤ online_count cores s.cpu) × (j < cores)
  started : (j : ℕ) → s.goto_address j ≢ 0 → j < cores
  barrier : s.bsp ≡ passed → cores ≤ online_count cores s.cpu

module _ {cores : ℕ} {s : Smp} (inv : Inv cores s) where
  open inv use {some_core, behind, seen, started, barrier}

  jump-Inv : (target i : ℕ) → s.bsp ≡ jumping i → Inv cores (jump cores target i s)
  unfolding jump cpu_jump
  jump-Inv target i at_i = elim (Bool-cases (ltb i cores)) [
    | inl more ↦ rw more (record {
      some_core = some_core;
      behind = behind;
      seen = seen;
      started = λ j h. ground (arith, started j);
      barrier = λ e. cc;
    })
    | inr end ↦ rw end (record {
      some_core = some_core;
      behind = behind;
      seen = seen;
      started = started;
      barrier = λ e. cc;
    })
  ]

  read_count-Inv : (j : ℕ) → s.cpu j ≡ parked → s.goto_address j ≢ 0 → Inv cores (read_count j s)
  unfolding read_count
  read_count-Inv j idle jumped =
      let count = online_count-update cores s.cpu j (counting s.cores_initialized) in
      record {
        some_core = some_core;
        behind = ground (arith, count);
        seen = λ k v e. ground (arith, count, seen k v, started j);
        started = started;
        barrier = λ e. ground (arith, count, barrier e);
      }

  write_count-Inv : (j v : ℕ) → s.cpu j ≡ counting v → Inv cores (write_count j v s)
  unfolding write_count
  write_count-Inv j v at_j =
      let count = online_count-update cores s.cpu j online in
      record {
        some_core = some_core;
        behind = ground (arith, count, seen j v);
        seen = λ k w e. ground (arith, count, seen k w, seen j v);
        started = started;
        barrier = λ e. ground (arith, count, barrier e);
      }

  wait_round-Inv : Inv cores (wait_round cores s)
  unfolding wait_round
  wait_round-Inv = elim (Bool-cases (ltb s.cores_initialized cores)) [
    | inl more ↦ rw more inv
    | inr enough ↦ rw enough (record {
      some_core = some_core;
      behind = behind;
      seen = seen;
      started = started;
      barrier = λ e. ground (arith, behind);
    })
  ]

  Step-Inv : {target : ℕ} {t : Smp} → Step cores target s t → Inv cores t
  Step-Inv {target} (bsp_jumps i at_i) = jump-Inv target i at_i
  Step-Inv (core_reads j idle jumped) = read_count-Inv j idle jumped
  Step-Inv (core_writes j v at_j) = write_count-Inv j v at_j
  Step-Inv (bsp_waits at_wait) = wait_round-Inv

powered_on-online : (k : ℕ) → 0 < k → 1 ≤ online_count k powered_on.cpu
unfolding online_count
powered_on-online zero h = absurd (omega arith)
powered_on-online (suc zero) h = omega arith
powered_on-online (suc (suc k)) h = ground (arith, powered_on-online (suc k) (omega arith))

powered_on-Inv : (cores : ℕ) → 0 < cores → Inv cores powered_on
powered_on-Inv cores h = record {
  some_core = h;
  behind = omega (arith, powered_on-online cores h);
  seen = λ j v e. ground arith;
  started = λ j e. absurd (e refl);
  barrier = λ e. cc;
}

Reach-Inv : {cores target : ℕ} {s t : Smp} → Reach cores target s t → Inv cores s → Inv cores t
Reach-Inv here inv = inv
Reach-Inv (next r st) inv = Step-Inv (Reach-Inv r inv) st

-- When the first core gets past its waiting loop, every core is online, in whatever order the cores
-- read and write the counter.
pub barrier-online :
    {cores target : ℕ} {s : Smp} (j : ℕ)
    → 0 < cores
    → Reach cores target powered_on s
    → s.bsp ≡ passed
    → j < cores
    → s.cpu j ≡ online
barrier-online {cores} {s} j some_core r past lt =
    online_count-full cores s.cpu j ((Reach-Inv r (powered_on-Inv cores some_core)).barrier past) lt

-- All cores are online, no other core was started, and the count is short.
pub record Short (cores : ℕ) (s : Smp) : Type 0 where
  pub all :
      (j : ℕ) → (s.cpu j ≡ online) ⊎ ((s.cpu j ≡ parked) × (s.goto_address j ≡ 0) × (cores ≤ j))
  pub low : s.cores_initialized < cores
  pub before : s.bsp ≢ passed

Step-Short : {cores target : ℕ} {s t : Smp} → Step cores target s t → Short cores s → Short cores t
unfolding jump cpu_jump read_count write_count wait_round
Step-Short {cores} {s} (bsp_jumps i at_i) h = elim (Bool-cases (ltb i cores)) [
  | inl more ↦
      rw more (record { all = λ j. ground (arith, h.all j); low = h.low; before = λ e. cc })
  | inr end ↦ rw end (record { all = h.all; low = h.low; before = λ e. cc })
]
Step-Short (core_reads j idle jumped) h = absurd (ground (arith, h.all j))
Step-Short (core_writes j v at_j) h = absurd (ground (arith, h.all j))
Step-Short {cores} {s} (bsp_waits at_wait) h = elim (Bool-cases (ltb s.cores_initialized cores)) [
  | inl more ↦ rw more h
  | inr enough ↦ absurd (ground (arith, h.low))
]

-- Once all cores are online and the count is short, because two of them read the same value of the
-- counter, the first core never gets past its waiting loop.
pub Short-hangs :
    {cores target : ℕ} {s t : Smp} → Short cores s → Reach cores target s t → t.bsp ≢ passed
Short-hangs {cores} {target} {s} {t} h r = (kept r).before
  where
    kept : {u : Smp} → Reach cores target s u → Short cores u
    kept here = h
    kept (next r st) = Step-Short st (kept r)
