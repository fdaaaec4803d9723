-- ===== src/Smp/Ready.antt =====
-- What SetupAllCPUs leaves on the first core.
use system.Base.{false, ℕ, ◌+◌, ◌*◌, ◌^◌, ◌≤◌, ◌≡◌, true, ◌&&◌, ltb, if◌then◌else◌, add64}
use system.Acpi.{Acpi}
use system.Apic.{Device, RedirectionEntry, read_redirection_entry}
use system.Machine.{Machine}
use system.Vmm.{memory_map}
use system.Acpi.Laws.{get_acpi_table-Returns}
use system.Apic.Local.{
  TimerFlags, lapic_write, lvt_timer, timer_div, timer_init_count, apic_tmr_masked,
}
use system.Apic.Setup.{MadtState, lapic_address}
use system.Smp.Setup.{Setup}

-- The device when CalibrateTimer reads the counter, and the flags that it sets for a counter that has moved
-- on by `ticks`.
abbrev pub stopped : {S : Type 0} → Device S → (base : ℕ) → (elapse : S → S) → S → S
stopped d base elapse dev =
    lapic_write d base
      (elapse
        (lapic_write d base (lapic_write d base dev timer_div 0x3) timer_init_count 0xffffffff))
      lvt_timer apic_tmr_masked

abbrev pub calibrated : (ticks : ℕ) → TimerFlags
calibrated ticks = record {
  lvt_register = 0x20020;
  divisor_register = 0x3;
  init_count_register = ticks;
}

-- An entry of the I/O APIC that sends an interrupt to the APIC 0: unmasked, fixed, active high, on the edge.
abbrev pub fixed_entry : (vector : ℕ) → RedirectionEntry
fixed_entry vector = record {
  vector = vector;
  delivery_mode = 0;
  destination_mode = 0;
  busy = 0;
  polarity = 0;
  lti_status = 0;
  trigger_mode = 0;
  interrupt_mask = 0;
  reserved = 0;
  destination = 0;
}

-- The first core is set up: the other cores are sent to the target, the keyboard's line leads to its
-- vector, and the timer counts down from `ticks` again and again, to vector 0x20.
pub record IsReady {S : Type 0} (d : Device S) (cores target : ℕ) (goto_address : ℕ → ℕ)
    (line ticks : ℕ) (r : Setup S) : Type 0 where
  pub sent :
      (j : ℕ) → r.goto_address j ≡ (if ltb 0 j && ltb j cores then target else goto_address j)
  pub keyboard :
      (read_redirection_entry d r.ioapic.ioapic_base r.ioapic.device (line * 2)).1
      ≡ fixed_entry 0x21
  pub mode : d.read32 r.ioapic.device (r.local_apic_base + lvt_timer) ≡ 0x20020
  pub divisor : d.read32 r.ioapic.device (r.local_apic_base + timer_div) ≡ 0x3
  pub count : d.read32 r.ioapic.device (r.local_apic_base + timer_init_count) ≡ ticks
  pub interrupts : r.interrupts ≡ true

-- The MADT that GetACPITable returns, which it does with this fuel.
abbrev pub table_of : (fuel hhdm : ℕ) → Acpi → (apic : ℕ) → 2 ^ 20 + 1 ≤ fuel → Machine × ℕ
table_of fuel hhdm a apic enough = (get_acpi_table-Returns fuel hhdm a apic enough).0.0

-- What InitializeMADT makes of it.
abbrev pub madt_of : (hhdm : ℕ) → Machine × ℕ → MadtState
madt_of hhdm (s, madt) =
    let lapic = lapic_address s.mem madt in
    record {
      machine = (memory_map hhdm s 0 (add64 lapic hhdm) lapic false).0;
      madt = madt;
      local_apic_base = add64 lapic hhdm;
    }
