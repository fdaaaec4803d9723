-- ===== src/Acpi/Timer.antt =====
-- The power-management timer of acpi.cpp.
use system.Base.{
  ℕ, zero, suc, ◌+◌, ◌%◌, ◌^◌, ◌≤◌, ◌<◌, ◌≡◌, ◌≢◌, refl, ◌∙◌, arith, true, ltb-false, ==-false,
  lt→ltb, sub64,
}
use system.Acpi.{done, running, Acpi, pm_wait, pmtmr_sleep, sleep_target, pm_tmr_len, pm_tmr_blk}

pm_wait-done :
    (fuel : ℕ) (readings : ℕ → ℕ) (count target current k : ℕ)
    → target ≤ current
    → 0 < fuel
    → pm_wait fuel readings count target current k ≡ done true
unfolding pm_wait
pm_wait-done zero readings count target current k enough less = absurd (omega arith)
pm_wait-done (suc fuel) readings count target current k enough less =
    rw (ltb-false current target enough)

pm_wait-returns :
    (j fuel : ℕ) (readings : ℕ → ℕ) (count target current k : ℕ)
    → target ≤ sub64 (readings (k + j)) count % 2 ^ 24
    → suc j < fuel
    → pm_wait fuel readings count target current k ≡ done true
unfolding pm_wait
pm_wait-returns j zero readings count target current k enough less = absurd (omega arith)
pm_wait-returns zero (suc fuel) readings count target current k enough less =
    let here : k + 0 ≡ k = omega arith in
    let now = sub64 (readings k) count % 2 ^ 24 in
    ground
      (arith, pm_wait-done fuel readings count target now (k + 1) (rw here at enough) (omega arith))
pm_wait-returns (suc j) (suc fuel) readings count target current k enough less =
    let here : k + suc j ≡ k + 1 + j = omega arith in
    let now = sub64 (readings k) count % 2 ^ 24 in
    ground (
      arith,
      pm_wait-returns j fuel readings count target now (k + 1) (rw here at enough) (omega arith),
    )

pm_wait-stuck :
    (fuel : ℕ) (readings : ℕ → ℕ) (count target current k : ℕ)
    → 2 ^ 24 ≤ target
    → current < 2 ^ 24
    → pm_wait fuel readings count target current k ≡ running
unfolding pm_wait
pm_wait-stuck zero readings count target current k far near = refl
pm_wait-stuck (suc fuel) readings count target current k far near =
    rw (lt→ltb current target (omega arith)) (
      pm_wait-stuck fuel readings count target (sub64 (readings k) count % 2 ^ 24) (k + 1) far
        (omega arith))

-- A machine whose timer can be used: 4 bytes long, at a port.
abbrev pub HasTimer : Acpi → Type 0
HasTimer a = (pm_tmr_len a.machine.mem a.fadt ≡ 4) × (pm_tmr_blk a.machine.mem a.fadt ≢ 0)

pmtmr_sleep-waits :
    (fuel : ℕ) (a : Acpi) (readings : ℕ → ℕ) (us : ℕ)
    → HasTimer a
    → pmtmr_sleep fuel a readings us ≡ pm_wait fuel readings (readings 0) (sleep_target us) 0 1
unfolding pmtmr_sleep
pmtmr_sleep-waits fuel a readings us timer =
    rw (timer.0, ==-false (pm_tmr_blk a.machine.mem a.fadt) 0 timer.1)

-- PMTMRSleep on a usable timer returns true, once the fuel exceeds the number of a reading whose low
-- 24 bits have moved on by the target from the first reading.
pub pmtmr_sleep-returns :
    (j fuel : ℕ) (a : Acpi) (readings : ℕ → ℕ) (us : ℕ)
    → HasTimer a
    → sleep_target us ≤ sub64 (readings (1 + j)) (readings 0) % 2 ^ 24
    → suc j < fuel
    → pmtmr_sleep fuel a readings us ≡ done true
pmtmr_sleep-returns j fuel a readings us timer enough less =
    pmtmr_sleep-waits fuel a readings us timer
    ∙ pm_wait-returns j fuel readings (readings 0) (sleep_target us) 0 1 enough less

-- PMTMRSleep on a usable timer never returns, whatever the timer shows, when the target is 2 ^ 24
-- ticks (about 4.7 s) or more.
pub pmtmr_sleep-stuck :
    (fuel : ℕ) (a : Acpi) (readings : ℕ → ℕ) (us : ℕ)
    → HasTimer a
    → 2 ^ 24 ≤ sleep_target us
    → pmtmr_sleep fuel a readings us ≡ running
pmtmr_sleep-stuck fuel a readings us timer far =
    pmtmr_sleep-waits fuel a readings us timer
    ∙ pm_wait-stuck fuel readings (readings 0) (sleep_target us) 0 1 far (omega arith)
