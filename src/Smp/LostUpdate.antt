-- ===== src/Smp/LostUpdate.antt =====
-- Two cores that count themselves at the same time: the first core waits forever.
use system.Base.{
  ℕ, zero, suc, ◌+◌, ◌-◌, ◌≤◌, ◌<◌, ◌≡◌, ◌≢◌, inl, inr, refl, arith, subst, Bool-cases, ltb, lt→ltb,
  ltb-false, ==-false, if◌then◌else◌,
}
use system.Smp.{
  parked, online, jumping, waiting, passed, Smp, cpu_jump, jump, read_count, write_count,
  powered_on, bsp_jumps, core_reads, core_writes, Reach, here, next,
}
use system.Smp.Barrier.{Short, Short-hangs}

-- The first core has come to core `i`; no core has counted itself.
record Jumped (target i : ℕ) (s : Smp) : Type 0 where
  at_i : s.bsp ≡ jumping i
  first : s.cpu 0 ≡ online
  idle : (j : ℕ) → 0 < j → s.cpu j ≡ parked
  started : (j : ℕ) → s.goto_address j ≡ (if ltb 0 j then (if ltb j i then target else 0) else 0)
  count : s.cores_initialized ≡ 1

jump-Jumped :
    {target : ℕ} {s : Smp} (cores i : ℕ)
    → 0 < i
    → i < cores
    → Jumped target i s
    → Jumped target (i + 1) (jump cores target i s)
unfolding jump cpu_jump
jump-Jumped {target} {s} cores i some_core lt h =
    rw (lt→ltb i cores lt, ==-false i 0 (omega arith))
      (record {
        at_i = refl;
        first = h.first;
        idle = h.idle;
        started = λ j. ground (arith, h.started j);
        count = h.count;
      })

powered_on-Jumped :
    (cores target k : ℕ)
    → suc k ≤ cores
    → (s : Smp) × Reach cores target powered_on s × Jumped target (suc k) s
powered_on-Jumped cores target zero le = (
  powered_on,
  here,
  record {
    at_i = refl;
    first = refl;
    idle = λ j lt. ground arith;
    started = λ j. ground arith;
    count = refl;
  },
)
powered_on-Jumped cores target (suc k) le =
    let (s, r, h) = powered_on-Jumped cores target k (omega arith) in
    let e : suc k + 1 ≡ suc (suc k) = omega arith in
    (
      jump cores target (suc k) s,
      next r (bsp_jumps (suc k) h.at_i),
      rw e at (jump-Jumped cores (suc k) (omega arith) (omega arith) h),
    )

-- The first core waits, the cores below `k` are online, and fewer than `k` are counted.
record Behind (cores target k : ℕ) (s : Smp) : Type 0 where
  waits : s.bsp ≡ waiting
  done : (j : ℕ) → j < k → s.cpu j ≡ online
  idle : (j : ℕ) → k ≤ j → s.cpu j ≡ parked
  started :
      (j : ℕ) → s.goto_address j ≡ (if ltb 0 j then (if ltb j cores then target else 0) else 0)
  low : s.cores_initialized < k

-- Cores 1 and 2 read the counter, and then write it.
both : Smp → Smp
both s = write_count 2 1 (write_count 1 1 (read_count 2 (read_count 1 s)))

both-Behind :
    {cores target : ℕ} {s : Smp}
    → Jumped target cores s
    → Behind cores target 3 (both (record s { bsp = waiting }))
unfolding both read_count write_count
both-Behind h = record {
  waits = refl;
  done = λ j lt. ground (arith, h.first);
  idle = λ j le. ground (arith, h.idle j);
  started = h.started;
  low = omega arith;
}

both-Reach :
    {cores target : ℕ} {s : Smp}
    → 3 ≤ cores
    → target ≢ 0
    → Jumped target cores s
    → Reach cores target s (both (record s { bsp = waiting }))
unfolding both read_count write_count jump cpu_jump
both-Reach {cores} {target} {s} some_cores jumps h =
    let w : Smp = record s { bsp = waiting } in
    let wait : jump cores target cores s ≡ w = rw (ltb-false cores cores (omega arith)) in
    let r0 : Reach cores target s w =
      subst (Reach cores target s) wait (next here (bsp_jumps cores h.at_i)) in
    let r1 = next r0 (core_reads 1 (h.idle 1 (omega arith)) (ground (arith, h.started 1))) in
    let r2 = next r1 (core_reads 2 (ground (arith, h.idle 2)) (ground (arith, h.started 2))) in
    let r3 = next r2 (core_writes 1 1 (ground (arith, h.count))) in
    next r3 (core_writes 2 1 (ground (arith, h.count)))

-- One more core counts itself, undisturbed.
counts : (k : ℕ) → Smp → Smp
counts k s = write_count k s.cores_initialized (read_count k s)

counts-Behind :
    {cores target k : ℕ} {s : Smp}
    → Behind cores target k s
    → Behind cores target (suc k) (counts k s)
unfolding counts read_count write_count
counts-Behind {k} {s} h = record {
  waits = h.waits;
  done = λ j lt. ground (arith, h.done j);
  idle = λ j le. ground (arith, h.idle j);
  started = h.started;
  low = omega (arith, h.low);
}

counts-Reach :
    {cores target k : ℕ} {s : Smp}
    → 0 < k
    → k < cores
    → target ≢ 0
    → Behind cores target k s
    → Reach cores target s (counts k s)
unfolding counts read_count
counts-Reach {k = k} {s} some_core lt jumps h =
    next (next here (core_reads k (h.idle k (omega arith)) (ground (arith, h.started k))))
      (core_writes k s.cores_initialized (ground arith))

Reach-trans :
    {cores target : ℕ} {s t u : Smp}
    → Reach cores target s t
    → Reach cores target t u
    → Reach cores target s u
Reach-trans r here = r
Reach-trans r (next r' st) = next (Reach-trans r r') st

all_counted :
    {cores target : ℕ} (n k : ℕ) {s : Smp}
    → 0 < k
    → k + n ≡ cores
    → target ≢ 0
    → Behind cores target k s
    → (t : Smp) × Reach cores target s t × Behind cores target cores t
all_counted {cores} {target} zero k {s} some_core e jumps h =
    let same : k ≡ cores = omega arith in (s, here, rw same at h)
all_counted {cores} {target} (suc n) k {s} some_core e jumps h =
    let (t, r, done) = all_counted n (suc k) (omega arith) (omega arith) jumps (counts-Behind h) in
    (t, Reach-trans (counts-Reach some_core (omega arith) jumps h) r, done)

Behind-Short : {cores target : ℕ} {s : Smp} → Behind cores target cores s → Short cores s
Behind-Short {cores} {target} {s} h = record {
  all = λ j. elim (Bool-cases (ltb j cores)) [
    | inl below ↦ inl (h.done j (ground arith))
    | inr above ↦ inr (h.idle j (ground arith), ground (arith, h.started j), ground arith)
  ];
  low = h.low;
  before = λ e. ground (arith, h.waits);
}

-- On three or more cores, some order of the reads and writes of the counter lets every core come online
-- and the first core wait forever: a state can be reached in which all cores are online and from which
-- no steps lead past the waiting loop. The address that the cores are sent to is not null.
pub lost_update-hangs :
    (cores target : ℕ)
    → 3 ≤ cores
    → target ≢ 0
    → (s : Smp) × Reach cores target powered_on s
      × ((j : ℕ) → j < cores → s.cpu j ≡ online)
      × ((t : Smp) → Reach cores target s t → t.bsp ≢ passed)
lost_update-hangs cores target some_cores jumps =
    let count : suc (cores - 1) ≡ cores = omega arith in
    let (a, ra, ha) = powered_on-Jumped cores target (cores - 1) (omega arith) in
    let ha' : Jumped target cores a = rw count at ha in
    let (t, rt, ht) =
      all_counted (cores - 3) 3 (omega arith) (omega arith) jumps (both-Behind ha') in
    (
      t,
      Reach-trans ra (Reach-trans (both-Reach some_cores jumps ha') rt),
      ht.done,
      λ u r. Short-hangs (Behind-Short ht) r,
    )
