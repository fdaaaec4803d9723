-- ===== src/Smp/Faults.antt =====
-- When SetupAllCPUs panics.
use system.Base.{
  ℕ, ◌≡◌, ◌≢◌, ◌⊎◌, inl, inr, refl, arith, true, false, not, ◌||◌, Option, none, some, [], ◌==◌,
  ==-false,
}
use system.Machine.{Machine}
use system.Acpi.{get_acpi_table, pm_tmr_len, pm_tmr_blk, Acpi, done, panicked, pmtmr_sleep}
use system.Apic.{Device, find_all_interrupt_controllers}
use system.Apic.Local.{TimerFlags, initialize_lapic, calibrate_timer}
use system.Apic.Setup.{take_madt, MadtState, initialize_madt}
use system.Apic.Keyboard.{initialize_ioapic-none}
use system.Smp.Ready.{stopped}
use system.Smp.Setup.{set_up_apic, set_up_timer, set_up_madt, setup_all_cpus}

-- What SetupAllCPUs cannot go on with: no report of the cores, no MADT, a timer that cannot be used, or, after
-- the timer is calibrated, a MADT without an I/O APIC.
pub data Fault (fuel hhdm apic : ℕ) (a : Acpi) (readings : ℕ → ℕ) : Option ℕ → Type 0 where
  no_smp : Fault fuel hhdm apic a readings none
  no_madt :
      (cores : ℕ) (s : Machine)
      → get_acpi_table fuel hhdm a apic ≡ done (s, 0)
      → Fault fuel hhdm apic a readings (some cores)
  no_timer :
      (cores : ℕ) (ms : MadtState)
      → initialize_madt fuel hhdm a apic ≡ done ms
      → (pm_tmr_len ms.machine.mem a.fadt ≢ 4) ⊎ (pm_tmr_blk ms.machine.mem a.fadt ≡ 0)
      → Fault fuel hhdm apic a readings (some cores)
  no_ioapic :
      (cores : ℕ) (ms : MadtState)
      → initialize_madt fuel hhdm a apic ≡ done ms
      → pmtmr_sleep fuel (record a { machine = ms.machine }) readings 50000 ≡ done true
      → find_all_interrupt_controllers fuel ms.machine.mem ms.madt 1 ≡ some []
      → Fault fuel hhdm apic a readings (some cores)

pmtmr_sleep-unusable :
    (fuel : ℕ) (a : Acpi) (readings : ℕ → ℕ) (us : ℕ)
    → (pm_tmr_len a.machine.mem a.fadt ≢ 4) ⊎ (pm_tmr_blk a.machine.mem a.fadt ≡ 0)
    → pmtmr_sleep fuel a readings us ≡ done false
unfolding pmtmr_sleep
pmtmr_sleep-unusable fuel a readings us (inl len) =
    rw (==-false (pm_tmr_len a.machine.mem a.fadt) 4 len)
pmtmr_sleep-unusable fuel a readings us (inr blk) =
    let off : (not (pm_tmr_len a.machine.mem a.fadt == 4) || (pm_tmr_blk a.machine.mem a.fadt == 0))
        ≡ true =
      ground arith in
    rw off

set_up_apic-none :
    {S : Type 0} (d : Device S) (fuel hhdm cores target : ℕ) (goto_address : ℕ → ℕ) (ms : MadtState)
    (flags : TimerFlags) (dev : S)
    → find_all_interrupt_controllers fuel ms.machine.mem ms.madt 1 ≡ some []
    → set_up_apic d fuel hhdm cores target goto_address ms flags dev ≡ panicked
unfolding set_up_apic
set_up_apic-none d fuel hhdm cores target goto_address ms flags dev found =
    let dev' = initialize_lapic d ms.local_apic_base flags dev in
    rw (initialize_ioapic-none d fuel hhdm ms.madt ms.machine dev' found, set_up_apic)

module _ {S : Type 0} (d : Device S) (fuel hhdm apic target : ℕ) (goto_address : ℕ → ℕ) (a : Acpi)
    (readings : ℕ → ℕ) (elapse : S → S) (flags : TimerFlags) (dev : S) where
  -- SetupAllCPUs panics when the bootloader does not report the cores, when there is no MADT, when the timer
  -- that it calibrates the local APIC's by is absent or not four bytes long, and when the MADT holds no
  -- I/O APIC.
  pub setup_all_cpus-panicked :
      {smp : Option ℕ}
      → Fault fuel hhdm apic a readings smp
      → setup_all_cpus d fuel hhdm apic smp target goto_address a readings elapse flags dev
        ≡ panicked
  unfolding setup_all_cpus set_up_madt set_up_timer set_up_apic initialize_madt take_madt
      calibrate_timer
  setup_all_cpus-panicked no_smp = refl
  setup_all_cpus-panicked (no_madt cores s e) = rw (e, take_madt)
  setup_all_cpus-panicked (no_timer cores ms e off) = rw (
    e,
    set_up_madt,
    pmtmr_sleep-unusable fuel (record a { machine = ms.machine }) readings 50000 off,
  )
  setup_all_cpus-panicked (no_ioapic cores ms e slept found) =
      let dev' = stopped d ms.local_apic_base elapse dev in
      rw (e, set_up_madt, slept, set_up_timer)
        (set_up_apic-none d fuel hhdm cores target goto_address ms _ dev' found)
