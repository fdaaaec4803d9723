-- ===== src/Smp/Setup.antt =====
-- SetupAllCPUs of smp.cpp on the first core, up to its waiting loop. What the device does while PMTMRSleep
-- waits is a parameter. The bootloader's structures for the cores are taken to follow each other, as
-- the code does. The log lines and the discarded scan code are left out.
use system.Base.{
  ◌%◌, ◌^◌, ℕ, zero, suc, ◌+◌, ◌-◌, ◌==◌, Bool, true, Option, none, some, if◌then◌else◌,
}
use system.Acpi.{Acpi, Run, done, panicked, running, pmtmr_sleep}
use system.Apic.{Device}
use system.Apic.Local.{TimerFlags, initialize_lapic, calibrate_timer}
use system.Apic.Setup.{MadtState, IoapicState, initialize_madt, initialize_ioapic}
use system.Smp.{cpu_jump}

-- What the first core has set up: the goto addresses of the cores, GlobalTimerFlags, LocalAPICBase, the
-- I/O APIC with the memory and the device, and whether interrupts are on.
pub record Setup (S : Type 0) : Type 0 where
  pub goto_address : ℕ → ℕ
  pub timer : TimerFlags
  pub local_apic_base : ℕ
  pub ioapic : IoapicState S
  pub interrupts : Bool

-- The loop over the cores from `i` on, with its rounds left. CPUJump takes the number with 32 bits.
unfoldable pub jump_all : (rounds target : ℕ) → (goto_address : ℕ → ℕ) → (i : ℕ) → ℕ → ℕ
unfolding cpu_jump
jump_all zero target goto_address i = goto_address
jump_all (suc rounds) target goto_address i =
    jump_all rounds target (cpu_jump true goto_address (i % 2 ^ 32) target) (i + 1)

unfoldable pub start_cores : (cores target : ℕ) → (goto_address : ℕ → ℕ) → ℕ → ℕ
unfolding jump_all
start_cores cores target goto_address =
    if cores == 1 then goto_address else jump_all (cores - 1) target goto_address 1

-- PMTMRSleep, which ends with `slept`: time passes for the device only if it worked.
abbrev pub sleep_of : {S : Type 0} → (elapse : S → S) → (slept : Bool) → S → S × Bool
sleep_of elapse slept s = (if slept then elapse s else s, slept)

module _ {S : Type 0} (d : Device S) (fuel hhdm cores target : ℕ) (goto_address : ℕ → ℕ) where
  -- From the set-up of the local APIC on, with the timer calibrated.
  unfoldable pub set_up_apic : MadtState → TimerFlags → S → Run (Setup S)
  unfolding start_cores
  set_up_apic ms flags dev =
      let dev' = initialize_lapic d ms.local_apic_base flags dev in
      elim (initialize_ioapic d fuel hhdm ms.machine ms.madt dev') [
        | panicked ↦ panicked
        | running ↦ running
        | done ioapic ↦ done (record {
          goto_address = start_cores cores target goto_address;
          timer = flags;
          local_apic_base = ms.local_apic_base;
          ioapic = ioapic;
          interrupts = true;
        })
      ]

  -- What follows CalibrateTimer, whose sleep ends as given and leaves the device as `elapse` says.
  unfoldable pub set_up_timer :
      MadtState → (elapse : S → S) → TimerFlags → S → Run Bool → Run (Setup S)
  unfolding set_up_apic
  set_up_timer ms elapse flags dev panicked = panicked
  set_up_timer ms elapse flags dev running = running
  set_up_timer ms elapse flags dev (done slept) =
      let calibrated = calibrate_timer d ms.local_apic_base (sleep_of elapse slept) flags dev in
      if calibrated.1 then set_up_apic ms calibrated.0.1 calibrated.0.0 else panicked

  unfoldable pub set_up_madt :
      Acpi → (readings : ℕ → ℕ) → (elapse : S → S) → TimerFlags → S → Run MadtState → Run (Setup S)
  unfolding set_up_timer
  set_up_madt a readings elapse flags dev panicked = panicked
  set_up_madt a readings elapse flags dev running = running
  set_up_madt a readings elapse flags dev (done ms) =
      set_up_timer ms elapse flags dev
        (pmtmr_sleep fuel (record a { machine = ms.machine }) readings 50000)

-- SetupAllCPUs, with the number of cores if the bootloader reports them. `apic` is the address of the text
-- "APIC".
unfoldable pub setup_all_cpus :
    {S : Type 0}
    → Device S
    → (fuel hhdm apic : ℕ) → (smp : Option ℕ) → (target : ℕ) → (goto_address : ℕ → ℕ) → Acpi
    → (readings : ℕ → ℕ) → (elapse : S → S) → TimerFlags
    → S
    → Run (Setup S)
unfolding set_up_madt
setup_all_cpus d fuel hhdm apic none target goto_address a readings elapse flags dev = panicked
setup_all_cpus d fuel hhdm apic (some cores) target goto_address a readings elapse flags dev =
    set_up_madt d fuel hhdm cores target goto_address a readings elapse flags dev
      (initialize_madt fuel hhdm a apic)
